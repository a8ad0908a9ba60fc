-- ===== src/Builtins/Pod/Memory.antt =====
-- Memory as the source reads it with `slice::from_raw_parts`: a byte at every address.
use crossmist.Common.{
  ℕ, zero, suc, ◌+◌, ◌<◌, ◌≡◌, refl, ap, ◌∙◌, List, [], ◌∷◌, ◌++◌, length, arith,
}
use mathlib.Core.Path.{ap₂}

-- The byte at an address from the start of these, and something behind their end.
unfoldable pub byte_at : List ℕ → ℕ → ℕ
byte_at [] address = 0
byte_at (b ∷ bs) zero = b
byte_at (b ∷ bs) (suc address) = byte_at bs address

-- This many bytes from an address on
unfoldable pub bytes_from : (ℕ → ℕ) → ℕ → ℕ → List ℕ
bytes_from memory start zero = []
bytes_from memory start (suc count) = memory start ∷ bytes_from memory (suc start) count

pub bytes_from-same :
    (memory memory' : ℕ → ℕ) (start start' count : ℕ)
    → ((i : ℕ) → i < count → memory (start + i) ≡ memory' (start' + i))
    → bytes_from memory start count ≡ bytes_from memory' start' count
unfolding bytes_from
bytes_from-same memory memory' start start' zero h = refl
bytes_from-same memory memory' start start' (suc count) h =
    ap₂ (λ b bs. b ∷ bs) (ap memory (omega arith) ∙ h 0 (omega arith) ∙ ap memory' (omega arith))
      (bytes_from-same memory memory' (suc start) (suc start') count
        (λ i k. ap memory (omega arith) ∙ h (suc i) (omega arith) ∙ ap memory' (omega arith)))

pub bytes_from-append :
    (memory : ℕ → ℕ) (start m n : ℕ)
    → bytes_from memory start (m + n) ≡ bytes_from memory start m ++ bytes_from memory (start + m) n
unfolding bytes_from
bytes_from-append memory start zero n =
    let e : 0 + n ≡ n = omega arith in let e' : start + 0 ≡ start = omega arith in rw (e, e') refl
bytes_from-append memory start (suc m) n =
    let e : suc m + n ≡ suc (m + n) = omega arith in
    let e' : start + suc m ≡ suc start + m = omega arith in
    rw (e, e') (ap (λ bs. memory start ∷ bs) (bytes_from-append memory (suc start) m n))

pub bytes_from-all : (bs : List ℕ) → bytes_from (byte_at bs) 0 (length bs) ≡ bs
unfolding bytes_from byte_at
bytes_from-all [] = refl
bytes_from-all (b ∷ bs) =
    ap (λ l. b ∷ l)
      (bytes_from-same (byte_at (b ∷ bs)) (byte_at bs) 1 0 (length bs) (λ i h.
          let e : 1 + i ≡ suc i = omega arith in
          let e' : 0 + i ≡ i = omega arith in rw (e, e') refl)
        ∙ bytes_from-all bs)
