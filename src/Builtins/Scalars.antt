-- ===== src/Builtins/Scalars.antt =====
-- src/builtins.rs, the types that `impl_pod!` is invoked for: integers, floats, `bool`, `char`,
-- `NonZero…`, `PhantomData` and `Infallible`. The machine is little-endian and has 64-bit addresses.
use crossmist.Common.{
  ℕ, ◌+◌, ◌-◌, ◌*◌, ◌^◌, ◌<◌, ◌≡◌, refl, Bool, true, false, ◌&&◌, ◌||◌, List, [], ◌∷◌, arith, ltb,
  leb, ◌==◌, if◌then◌else◌,
}
use crossmist.Common.Bytes.{le_bytes, of_le_bytes, length-le_bytes, of_le_bytes-le_bytes}
use crossmist.Serde.{Outcome, ok, undefined}
use crossmist.Builtins.Pod.{Pod, IsPod}

-- `u8`, `u16`, …, `usize`, and by their bit patterns `f32` and `f64`.
abbrev pub unsigned_pod : ℕ → Pod ℕ
unsigned_pod size = record {
  size = size;
  to_bytes = le_bytes size;
  of_bytes = λ bs. ok (of_le_bytes bs);
}

abbrev pub IsUnsigned : ℕ → ℕ → Type 0
IsUnsigned size v = v < 256 ^ size

pub IsUnsigned-IsPod : (size : ℕ) → IsPod (unsigned_pod size) (IsUnsigned size)
IsUnsigned-IsPod size = record {
  length_lem = length-le_bytes size;
  back = λ v h. rw (of_le_bytes-le_bytes size v h);
}

-- `size_of::<usize>()`
abbrev pub usize_size : ℕ
usize_size = 8

abbrev pub usize_pod : Pod ℕ
usize_pod = unsigned_pod usize_size

-- `NonZeroU8`, …: zero is no value.
abbrev pub nonzero_pod : ℕ → Pod ℕ
nonzero_pod size = record {
  size = size;
  to_bytes = le_bytes size;
  of_bytes = λ bs. if of_le_bytes bs == 0 then undefined else ok (of_le_bytes bs);
}

pub nonzero-IsPod : (size : ℕ) → IsPod (nonzero_pod size) (λ v. (0 < v) × IsUnsigned size v)
nonzero-IsPod size = record {
  length_lem = length-le_bytes size;
  back = λ v h. rw (of_le_bytes-le_bytes size v h.1) (ground arith);
}

-- A signed integer; `negsuc n` is -(n + 1).
pub data ℤ : Type 0 where
  pos : ℕ → ℤ
  negsuc : ℕ → ℤ

-- Two's complement modulo `m`.
unfoldable pub to_bits : ℕ → ℤ → ℕ
to_bits m (pos n) = n
to_bits m (negsuc n) = m - 1 - n

unfoldable pub of_bits : ℕ → ℕ → ℤ
of_bits m v = if ltb (2 * v) m then pos v else negsuc (m - 1 - v)

abbrev pub IsSigned : ℕ → ℤ → Type 0
IsSigned m (pos n) = 2 * n < m
IsSigned m (negsuc n) = 2 * n + 1 < m

of_bits-to_bits : (m : ℕ) (v : ℤ) → IsSigned m v → of_bits m (to_bits m v) ≡ v
unfolding to_bits of_bits
of_bits-to_bits m (pos n) h = ground arith
of_bits-to_bits m (negsuc n) h = ground arith

to_bits-lt : (m : ℕ) (v : ℤ) → IsSigned m v → to_bits m v < m
unfolding to_bits
to_bits-lt m (pos n) h = omega arith
to_bits-lt m (negsuc n) h = omega arith

-- `i8`, `i16`, …, `isize`
abbrev pub signed_pod : ℕ → Pod ℤ
signed_pod size = record {
  size = size;
  to_bytes = λ v. le_bytes size (to_bits (256 ^ size) v);
  of_bytes = λ bs. ok (of_bits (256 ^ size) (of_le_bytes bs));
}

pub IsSigned-IsPod : (size : ℕ) → IsPod (signed_pod size) (IsSigned (256 ^ size))
IsSigned-IsPod size = record {
  length_lem = λ v. length-le_bytes size (to_bits (256 ^ size) v);
  back = λ v h.
      rw (of_le_bytes-le_bytes size _ (to_bits-lt (256 ^ size) v h))
        (rw (of_bits-to_bits (256 ^ size) v h));
}

-- `bool`: one byte, 0 or 1.
unfoldable pub bool_of_bytes : List ℕ → Outcome Bool
bool_of_bytes (b ∷ []) = if b == 0 then ok false else if b == 1 then ok true else undefined
bool_of_bytes _ = undefined

abbrev pub bool_pod : Pod Bool
bool_pod = record { size = 1; to_bytes = λ v. (if v then 1 else 0) ∷ []; of_bytes = bool_of_bytes }

pub bool-IsPod : IsPod bool_pod (λ _. Unit)
unfolding bool_of_bytes
bool-IsPod = record { length_lem = λ v. refl; back = elim [ true ↦ λ _. refl | false ↦ λ _. refl ] }

-- `char`: a Unicode scalar value in four bytes.
abbrev pub is_scalar : ℕ → Bool
is_scalar v = ltb v 0xd800 || (leb 0xe000 v && ltb v 0x110000)

abbrev pub char_pod : Pod ℕ
char_pod = record {
  size = 4;
  to_bytes = le_bytes 4;
  of_bytes = λ bs. if is_scalar (of_le_bytes bs) then ok (of_le_bytes bs) else undefined;
}

is_scalar-lt : (v : ℕ) → is_scalar v ≡ true → v < 256 ^ 4
is_scalar-lt v h = ground arith

pub char-IsPod : IsPod char_pod (λ v. is_scalar v ≡ true)
char-IsPod = record {
  length_lem = length-le_bytes 4;
  back = λ v h. rw (of_le_bytes-le_bytes 4 v (is_scalar-lt v h)) (rw h);
}

-- `PhantomData<T>` takes no memory.
abbrev pub phantom_pod : Pod (Unit {0})
phantom_pod = record { size = 0; to_bytes = λ _. []; of_bytes = λ _. ok tt }

pub phantom-IsPod : IsPod phantom_pod (λ _. Unit)
phantom-IsPod = record { length_lem = λ v. refl; back = λ v h. refl }

-- `Infallible` has no value, so to read one is undefined behaviour.
abbrev pub infallible_pod : Pod ⊥
infallible_pod = record { size = 0; to_bytes = λ _. []; of_bytes = λ _. undefined }

pub infallible-IsPod : IsPod infallible_pod (λ _. Unit)
infallible-IsPod = record { length_lem = λ v. refl; back = λ v. absurd v }
