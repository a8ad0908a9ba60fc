-- ===== src/Functions/Lambda/Expanding.antt =====
-- What `lambda!` of src/fns.rs makes of a closure with captured variables.
use crossmist.Common.{
  ℕ, ◌≡◌, refl, ap, ◌∙◌, Bool, true, false, Option, some, List, [], ◌∷◌, ◌++◌, append-nil,
  append_assoc, map,
}
use crossmist.Functions.Lambda.{
  Token, amp, mut_word, colon, comma, bar, bars, arrow, ident, ty, block, Expr, unnamed, bind_value,
  bind_mut, bind_ref, Expansion, lambda_bind, lambda_parse, lambda,
}

-- How a variable is captured: `a: T`, `&mut a: T` or `&a: T`.
pub data Capture : Type 0 where
  by_value by_mut by_ref : ℕ → ℕ → Capture

abbrev tokens : Capture → List Token
tokens (by_value n t) = ident n ∷ colon ∷ ty t ∷ []
tokens (by_mut n t) = amp ∷ mut_word ∷ ident n ∷ colon ∷ ty t ∷ []
tokens (by_ref n t) = amp ∷ ident n ∷ colon ∷ ty t ∷ []

abbrev pub argument : Capture → ℕ × ℕ
argument (by_value n t) = (n, t)
argument (by_mut n t) = (n, t)
argument (by_ref n t) = (n, t)

abbrev bind : Expr → Capture → Expr
bind e (by_value n t) = bind_value e n
bind e (by_mut n t) = bind_mut e n
bind e (by_ref n t) = bind_ref e n

-- The variables are bound one after the other.
abbrev pub bind_each : Expr → List Capture → Expr
bind_each e [] = e
bind_each e (c ∷ cs) = bind_each (bind e c) cs

abbrev ending : Bool → List Token
ending true = comma ∷ []
ending false = []

-- A list with commas between its items, and perhaps one behind the last.
abbrev pub listed : Bool → List Capture → List Token
listed trailing [] = []
listed trailing (c ∷ []) = tokens c ++ ending trailing
listed trailing (c ∷ d ∷ cs) = tokens c ++ (comma ∷ listed trailing (d ∷ cs))

-- The parameters between two bars, or two bars in one token, then the return type and the code.
abbrev pub closure : Bool → List Capture → ℕ → ℕ → List Token
closure trailing [] r code = bars ∷ arrow ∷ ty r ∷ block code ∷ []
closure trailing (c ∷ cs) r code =
    bar ∷ (listed trailing (c ∷ cs) ++ (bar ∷ arrow ∷ ty r ∷ block code ∷ []))

lambda_bind-listed :
    (trailing : Bool) (cs : List Capture) (e : Expr)
    → lambda_bind e (listed trailing cs) ≡ some (bind_each e cs)
unfolding lambda_bind
lambda_bind-listed trailing [] e = refl
lambda_bind-listed true (by_value n t ∷ []) e = refl
lambda_bind-listed true (by_mut n t ∷ []) e = refl
lambda_bind-listed true (by_ref n t ∷ []) e = refl
lambda_bind-listed false (by_value n t ∷ []) e = refl
lambda_bind-listed false (by_mut n t ∷ []) e = refl
lambda_bind-listed false (by_ref n t ∷ []) e = refl
lambda_bind-listed trailing (by_value n t ∷ d ∷ cs) e =
    lambda_bind-listed trailing (d ∷ cs) (bind_value e n)
lambda_bind-listed trailing (by_mut n t ∷ d ∷ cs) e =
    lambda_bind-listed trailing (d ∷ cs) (bind_mut e n)
lambda_bind-listed trailing (by_ref n t ∷ d ∷ cs) e =
    lambda_bind-listed trailing (d ∷ cs) (bind_ref e n)

-- One variable and its comma.
parse_one :
    (args : List (ℕ × ℕ)) (append : Option Expr) (c : Capture) (rest : List Token)
    → lambda_parse args append (tokens c ++ (comma ∷ rest))
      ≡ lambda_parse (args ++ argument c ∷ []) append rest
unfolding lambda_parse
parse_one args append (by_value n t) rest = refl
parse_one args append (by_mut n t) rest = refl
parse_one args append (by_ref n t) rest = refl

-- The last variable before the bar.
parse_last :
    (args : List (ℕ × ℕ)) (append : Option Expr) (c : Capture) (rest : List Token)
    → lambda_parse args append (tokens c ++ (bar ∷ rest))
      ≡ lambda_parse (args ++ argument c ∷ []) append (bar ∷ rest)
unfolding lambda_parse
parse_last args append (by_value n t) rest = refl
parse_last args append (by_mut n t) rest = refl
parse_last args append (by_ref n t) rest = refl

one_more :
    (args : List (ℕ × ℕ)) (c : Capture) (cs : List Capture)
    → (args ++ argument c ∷ []) ++ map argument cs ≡ args ++ map argument (c ∷ cs)
one_more args c cs = append_assoc args (argument c ∷ []) (map argument cs)

-- The captured variables, and the comma that `lambda!` puts behind them.
parse_moved :
    (trailing : Bool) (cs : List Capture) (args : List (ℕ × ℕ)) (append : Option Expr)
    (rest : List Token)
    → lambda_parse args append (listed trailing cs ++ (comma ∷ rest))
      ≡ lambda_parse (args ++ map argument cs) append rest
parse_moved trailing [] args append rest = rw (append-nil args) (unfold lambda_parse in refl)
parse_moved false (c ∷ []) args append rest =
    rw (append-nil (tokens c)) (parse_one args append c rest)
parse_moved true (c ∷ []) args append rest =
    rw (append_assoc (tokens c) (comma ∷ []) (comma ∷ rest))
      (parse_one args append c (comma ∷ rest) ∙ unfold lambda_parse in refl)
parse_moved trailing (c ∷ d ∷ cs) args append rest =
    rw (append_assoc (tokens c) (comma ∷ listed trailing (d ∷ cs)) (comma ∷ rest)) (
      parse_one args append c (listed trailing (d ∷ cs) ++ (comma ∷ rest))
      ∙ parse_moved trailing (d ∷ cs) (args ++ argument c ∷ []) append rest
      ∙ ap (λ l. lambda_parse l append rest) (one_more args c (d ∷ cs)))

-- The parameters, and the bar behind them.
parse_params :
    (trailing : Bool) (c : Capture) (cs : List Capture) (args : List (ℕ × ℕ)) (append : Option Expr)
    (rest : List Token)
    → lambda_parse args append (listed trailing (c ∷ cs) ++ (bar ∷ rest))
      ≡ lambda_parse (args ++ map argument (c ∷ cs)) append (bar ∷ rest)
parse_params false c [] args append rest =
    rw (append-nil (tokens c)) (parse_last args append c rest)
parse_params true c [] args append rest =
    rw (append_assoc (tokens c) (comma ∷ []) (bar ∷ rest)) (parse_one args append c (bar ∷ rest))
parse_params trailing c (d ∷ cs) args append rest =
    rw (append_assoc (tokens c) (comma ∷ listed trailing (d ∷ cs)) (bar ∷ rest)) (
      parse_one args append c (listed trailing (d ∷ cs) ++ (bar ∷ rest))
      ∙ parse_params trailing d cs (args ++ argument c ∷ []) append rest
      ∙ ap (λ l. lambda_parse l append (bar ∷ rest)) (one_more args c (d ∷ cs)))

-- What the macro stands for.
abbrev pub expanded : List Capture → List Capture → ℕ → ℕ → Expansion
expanded captures params r code = record {
  args = map argument captures ++ map argument params;
  return_type = r;
  code = code;
  boxed = bind_each unnamed captures;
}

-- However the captured variables and the parameters are separated, with a comma behind the last one or
-- without, `lambda!` makes a function of the code whose parameters are the captured variables, in
-- order, and then those of the closure, with their types, and binds the captured variables to its
-- first parameters in the same order, each by value, by `&mut` or by `&` as it is captured.
pub lambda-expanded :
    (trailing trailing' : Bool) (captures params : List Capture) (r code : ℕ)
    → lambda (some (listed trailing captures)) (closure trailing' params r code)
      ≡ some (expanded captures params r code)
unfolding lambda
lambda-expanded trailing trailing' captures [] r code =
    rw (lambda_bind-listed trailing captures unnamed) (
      parse_moved trailing captures [] (some (bind_each unnamed captures))
        (bar ∷ arrow ∷ ty r ∷ block code ∷ [])
      ∙ rw (append-nil (map argument captures)) (unfold lambda_parse in refl))
lambda-expanded trailing trailing' captures (p ∷ ps) r code =
    rw (lambda_bind-listed trailing captures unnamed) (
      parse_moved trailing captures [] (some (bind_each unnamed captures))
        (listed trailing' (p ∷ ps) ++ (bar ∷ arrow ∷ ty r ∷ block code ∷ []))
      ∙ parse_params trailing' p ps (map argument captures) (some (bind_each unnamed captures))
          (arrow ∷ ty r ∷ block code ∷ [])
      ∙ unfold lambda_parse in refl)
