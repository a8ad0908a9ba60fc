-- ===== src/Functions/Lambda.antt =====
-- src/fns.rs, the macros `lambda!`, `lambda_parse!` and `lambda_bind!`, as functions on tokens.
--
-- A name, a type and a block of code are one token each, and are told apart by numbers.
pub mod Expanding
use crossmist.Common.{ℕ, Option, none, some, List, [], ◌∷◌, ◌++◌}

pub data Token : Type 0 where
  amp mut_word colon comma bar bars arrow : Token
  ident ty block : ℕ → Token

-- A function `_unnamed` with values bound to its first parameters.
pub data Expr : Type 0 where
  unnamed : Expr
  bind_value bind_mut bind_ref : Expr → ℕ → Expr

-- The code that `lambda!` stands for: `fn _unnamed(args) -> return_type { code }`, and the expression
-- that is boxed.
pub record Expansion : Type 0 where
  pub args : List (ℕ × ℕ)
  pub return_type : ℕ
  pub code : ℕ
  pub boxed : Expr

-- The macro `lambda_bind!`, on its accumulator and the captured variables. `none` is an error of the
-- compiler: no rule fits.
unfoldable pub lambda_bind : Expr → List Token → Option Expr
lambda_bind acc [] = some acc
lambda_bind acc (amp ∷ mut_word ∷ ident n ∷ colon ∷ ty t ∷ comma ∷ rest) =
    lambda_bind (bind_mut acc n) rest
lambda_bind acc (amp ∷ mut_word ∷ ident n ∷ colon ∷ ty t ∷ []) = some (bind_mut acc n)
lambda_bind acc (amp ∷ ident n ∷ colon ∷ ty t ∷ comma ∷ rest) = lambda_bind (bind_ref acc n) rest
lambda_bind acc (amp ∷ ident n ∷ colon ∷ ty t ∷ []) = some (bind_ref acc n)
lambda_bind acc (ident n ∷ colon ∷ ty t ∷ comma ∷ rest) = lambda_bind (bind_value acc n) rest
lambda_bind acc (ident n ∷ colon ∷ ty t ∷ []) = some (bind_value acc n)
lambda_bind acc _ = none

-- The last rule of `lambda_parse!`, after the bar.
unfoldable pub parse_body : List (ℕ × ℕ) → Option Expr → List Token → Option Expansion
parse_body args (some append) (arrow ∷ ty return_type ∷ block code ∷ []) =
    some (record { args = args; return_type = return_type; code = code; boxed = append })
parse_body args append _ = none

-- The macro `lambda_parse!`. A rule that leaves a bar in front is followed by the last one.
unfoldable pub lambda_parse : List (ℕ × ℕ) → Option Expr → List Token → Option Expansion
unfolding parse_body
lambda_parse args append (comma ∷ rest) = lambda_parse args append rest
lambda_parse args append (amp ∷ mut_word ∷ ident n ∷ colon ∷ ty t ∷ comma ∷ rest) =
    lambda_parse (args ++ (n, t) ∷ []) append rest
lambda_parse args append (amp ∷ ident n ∷ colon ∷ ty t ∷ comma ∷ rest) =
    lambda_parse (args ++ (n, t) ∷ []) append rest
lambda_parse args append (ident n ∷ colon ∷ ty t ∷ comma ∷ rest) =
    lambda_parse (args ++ (n, t) ∷ []) append rest
lambda_parse args append (amp ∷ mut_word ∷ ident n ∷ colon ∷ ty t ∷ bar ∷ rest) =
    parse_body (args ++ (n, t) ∷ []) append rest
lambda_parse args append (amp ∷ ident n ∷ colon ∷ ty t ∷ bar ∷ rest) =
    parse_body (args ++ (n, t) ∷ []) append rest
lambda_parse args append (ident n ∷ colon ∷ ty t ∷ bar ∷ rest) =
    parse_body (args ++ (n, t) ∷ []) append rest
lambda_parse args append (bar ∷ rest) = parse_body args append rest
lambda_parse args append _ = none

-- The macro `lambda!`, on the tokens in `move(…)`, if it is there, and on the others.
unfoldable pub lambda : Option (List Token) → List Token → Option Expansion
unfolding lambda_bind lambda_parse
lambda none (bars ∷ items) = lambda_parse [] (some unnamed) (bar ∷ items)
lambda none (bar ∷ items) = lambda_parse [] (some unnamed) items
lambda (some moved_vars) (bars ∷ items) =
    lambda_parse [] (lambda_bind unnamed moved_vars) (moved_vars ++ (comma ∷ bar ∷ items))
lambda (some moved_vars) (bar ∷ items) =
    lambda_parse [] (lambda_bind unnamed moved_vars) (moved_vars ++ (comma ∷ items))
lambda moved_vars _ = none
