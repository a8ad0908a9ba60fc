-- ===== src/Functions/Reverse.antt =====
-- src/fns.rs, the macro `reverse!`, and the arguments that `decl_fn!` builds with it for the function
-- of a `BoundValue`, `BoundMut` or `BoundRef`.
--
-- An expression is a value with its type. What the macro comes to is a tuple, whose type is the list of
-- the types of its components; that it is the one that the function takes is for the type checker.
use mathlib.Core.Path.{subst, subst_refl, subst-∙, path_j}
use mathlib.Core.List.{reverse-append, reverse-reverse}
use crossmist.Common.{
  ◌≡◌, refl, ap, ◌∙◌, sym, List, [], ◌∷◌, ◌++◌, reverse, append-nil, append_assoc,
}
use crossmist.Builtins.Tuple.{Tuple}

-- The macro `reverse!`, on the expressions after the accumulator.
unfoldable pub reverse_macro {ℓ} : {Token : Type ℓ} → List Token → List Token → List Token
reverse_macro acc [] = acc
reverse_macro acc (head ∷ tail) = reverse_macro (head ∷ acc) tail

reverse_macro-reverse {ℓ} :
    {Token : Type ℓ} (acc ts : List Token) → reverse_macro acc ts ≡ reverse ts ++ acc
unfolding reverse_macro
reverse_macro-reverse acc [] = refl
reverse_macro-reverse acc (t ∷ ts) =
    reverse_macro-reverse (t ∷ acc) ts
    ∙ sym (append_assoc (reverse ts) (t ∷ []) acc)
    ∙ ap (λ l. l ++ acc) (sym (reverse-append (t ∷ []) ts))

-- The macro is given the arguments from the last to the first and then the bound value. It builds the
-- tuple with the bound value first and the arguments in order.
reverse_macro-arguments {ℓ} :
    {Token : Type ℓ} (head : Token) (args : List Token)
    → reverse_macro [] (reverse args ++ head ∷ []) ≡ head ∷ args
reverse_macro-arguments head args =
    reverse_macro-reverse [] (reverse args ++ head ∷ [])
    ∙ append-nil (reverse (reverse args ++ head ∷ []))
    ∙ reverse-append (reverse args) (head ∷ [])
    ∙ ap (λ l. head ∷ l) (reverse-reverse args)

abbrev pub Expression : Type 1
Expression = (T : Type 0) × T

abbrev pub types : List Expression → List (Type 0)
types [] = []
types ((T, v) ∷ es) = T ∷ types es

-- `(…, …)`
abbrev pub tuple_of : (es : List Expression) → Tuple (types es)
tuple_of [] = tt
tuple_of ((T, v) ∷ es) = (v, tuple_of es)

-- `args.0`, `args.1`, …
abbrev pub fields : (Ts : List (Type 0)) → Tuple Ts → List Expression
fields [] args = []
fields (T ∷ Ts) (arg, args) = (T, arg) ∷ fields Ts args

-- `reverse!([] $((args.$tail),)* (self.head))`
abbrev pub reversed : {Head : Type 0} (Tail : List (Type 0)) → Head → Tuple Tail → List Expression
reversed {Head} Tail head args = reverse_macro [] (reverse (fields Tail args) ++ (Head, head) ∷ [])

types-fields : (Ts : List (Type 0)) (args : Tuple Ts) → types (fields Ts args) ≡ Ts
types-fields [] args = refl
types-fields (T ∷ Ts) (arg, args) = ap (λ l. T ∷ l) (types-fields Ts args)

pub reversed_type :
    {Head : Type 0} (Tail : List (Type 0)) (head : Head) (args : Tuple Tail)
    → types (reversed Tail head args) ≡ Head ∷ Tail
reversed_type {Head} Tail head args =
    ap types (reverse_macro-arguments (Head, head) (fields Tail args))
    ∙ ap (λ l. Head ∷ l) (types-fields Tail args)

-- What the function is called on
unfoldable pub arguments :
    {Head : Type 0} (Tail : List (Type 0)) → Head → Tuple Tail → Tuple (Head ∷ Tail)
unfolding reverse_macro
arguments Tail head args =
    subst Tuple (reversed_type Tail head args) (tuple_of (reversed Tail head args))

subst-cons :
    (T : Type 0) (v : T) {Ts Us : List (Type 0)} (e : Ts ≡ Us) (vs : Tuple Ts)
    → subst Tuple (ap (λ l. T ∷ l) e) (v, vs) ≡ (v, subst Tuple e vs)
subst-cons T v {Ts} e vs =
    path_j (λ Us e. subst Tuple (ap (λ l. T ∷ l) e) (v, vs) ≡ (v, subst Tuple e vs))
      (subst_refl Tuple {x = T ∷ Ts} (v, vs)
        ∙ ap (λ (l : Tuple Ts). (v, l)) (sym (subst_refl Tuple vs)))
      e

tuple_of-fields :
    (Ts : List (Type 0)) (args : Tuple Ts)
    → subst Tuple (types-fields Ts args) (tuple_of (fields Ts args)) ≡ args
unfolding types-fields
tuple_of-fields [] args = subst_refl Tuple {x = []} tt
tuple_of-fields (T ∷ Ts) (arg, args) =
    subst-cons T arg (types-fields Ts args) (tuple_of (fields Ts args))
    ∙ ap (λ (l : Tuple Ts). (arg, l)) (tuple_of-fields Ts args)

tuple_of-same :
    {es es' : List Expression} (e : es ≡ es')
    → subst Tuple (ap types e) (tuple_of es) ≡ tuple_of es'
tuple_of-same {es} e =
    path_j (λ es' e. subst Tuple (ap types e) (tuple_of es) ≡ tuple_of es')
      (subst_refl Tuple (tuple_of es)) e

pub arguments_lem :
    {Head : Type 0} (Tail : List (Type 0)) (head : Head) (args : Tuple Tail)
    → arguments Tail head args ≡ (head, args)
unfolding arguments reversed_type reverse_macro
arguments_lem {Head} Tail head args =
    subst-∙ Tuple (ap types (reverse_macro-arguments (Head, head) (fields Tail args)))
      (ap (λ l. Head ∷ l) (types-fields Tail args)) (tuple_of (reversed Tail head args))
    ∙ ap (subst Tuple (ap (λ l. Head ∷ l) (types-fields Tail args)))
        (tuple_of-same (reverse_macro-arguments (Head, head) (fields Tail args)))
    ∙ subst-cons Head head (types-fields Tail args) (tuple_of (fields Tail args))
    ∙ ap (λ (l : Tuple Tail). (head, l)) (tuple_of-fields Tail args)
