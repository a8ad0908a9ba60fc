-- ===== src/Start/Decimal.antt =====
-- `to_string` and `parse` of the standard library on descriptors, as src/platform/unix uses them.
use crossmist.Common.{
  ℕ, zero, suc, ◌+◌, ◌-◌, ◌*◌, ◌/◌, ◌%◌, ◌<◌, ◌≡◌, inl, inr, refl, ap, ◌∙◌, true, false, ◌&&◌,
  Option, none, some, List, [], ◌∷◌, ◌++◌, arith, leb, ltb, le→leb, if◌then◌else◌, lt_or_ge,
}

-- The digits of a number, the highest first, for more rounds than there are digits.
unfoldable pub digits : ℕ → ℕ → List ℕ
digits zero n = []
digits (suc fuel) n =
    let more = digits fuel (n / 10) in
    if ltb n 10 then (48 + n) ∷ [] else more ++ (48 + n % 10) ∷ []

unfoldable pub to_string : ℕ → List ℕ
unfolding digits
to_string n = digits (suc n) n

unfoldable pub add_digit : Option ℕ → ℕ → Option ℕ
add_digit none c = none
add_digit (some n) c = if leb 48 c && leb c 57 then some (n * 10 + (c - 48)) else none

unfoldable pub parse_from : Option ℕ → List ℕ → Option ℕ
unfolding add_digit
parse_from acc [] = acc
parse_from acc (c ∷ cs) = parse_from (add_digit acc c) cs

-- A `RawFd` has 31 bits and a sign.
unfoldable pub in_range : Option ℕ → Option ℕ
in_range none = none
in_range (some n) = if leb (suc n) 2147483648 then some n else none

-- `parse::<RawFd>` on a text without a sign
unfoldable pub parse : List ℕ → Option ℕ
unfolding parse_from in_range
parse [] = none
parse (c ∷ cs) = in_range (parse_from (some 0) (c ∷ cs))

parse_from-append :
    (acc : Option ℕ) (xs ys : List ℕ)
    → parse_from acc (xs ++ ys) ≡ parse_from (parse_from acc xs) ys
unfolding parse_from
parse_from-append acc [] ys = refl
parse_from-append acc (x ∷ xs) ys = parse_from-append (add_digit acc x) xs ys

add_digit_lem : (n d : ℕ) → d < 10 → add_digit (some n) (48 + d) ≡ some (n * 10 + d)
unfolding add_digit
add_digit_lem n d h =
    rw (le→leb 48 (48 + d) (omega arith), le→leb (48 + d) 57 (omega arith)) (ap some (omega arith))

parse_from-digits : (fuel n : ℕ) → n < fuel → parse_from (some 0) (digits fuel n) ≡ some n
unfolding parse_from digits
parse_from-digits zero n h = absurd (omega arith)
parse_from-digits (suc fuel) n h = elim (lt_or_ge n 10) [
  | inl small ↦
      let e : ltb n 10 ≡ true = ground arith in
      rw e (add_digit_lem 0 n small ∙ ap some (omega arith))
  | inr large ↦
      let e : ltb n 10 ≡ false = ground arith in
      rw e (
        parse_from-append (some 0) (digits fuel (n / 10)) ((48 + n % 10) ∷ [])
        ∙ ap (λ acc. add_digit acc (48 + n % 10)) (parse_from-digits fuel (n / 10) (omega arith))
        ∙ add_digit_lem (n / 10) (n % 10) (omega arith)
        ∙ ap some (omega arith))
]

parse_snoc :
    (cs : List ℕ) (c : ℕ) → parse (cs ++ c ∷ []) ≡ in_range (parse_from (some 0) (cs ++ c ∷ []))
unfolding parse
parse_snoc [] c = refl
parse_snoc (d ∷ cs) c = refl

parse-digits :
    (fuel n : ℕ)
    → parse (digits (suc fuel) n) ≡ in_range (parse_from (some 0) (digits (suc fuel) n))
unfolding digits
parse-digits fuel n = elim (lt_or_ge n 10) [
  | inl small ↦ let e : ltb n 10 ≡ true = ground arith in rw e (parse_snoc [] (48 + n))
  | inr large ↦
      let e : ltb n 10 ≡ false = ground arith in
      rw e (parse_snoc (digits fuel (n / 10)) (48 + n % 10))
]

pub parse-to_string : (n : ℕ) → n < 2147483648 → parse (to_string n) ≡ some n
unfolding to_string
parse-to_string n h =
    parse-digits n n
    ∙ ap in_range (parse_from-digits (suc n) n (omega arith))
    ∙ (unfold in_range in rw (le→leb (suc n) 2147483648 (omega arith)) refl)
