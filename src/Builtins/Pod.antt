-- ===== src/Builtins/Pod.antt =====
-- src/builtins.rs, `impl_pod!`: types whose memory is copied to the wire and back.
--
-- How a value lies in memory is the language's matter: `to_bytes` is its representation, and
-- `of_bytes` is `read_unaligned`, which is undefined behaviour at a pattern that no value has.
pub mod Memory
use mathlib.Core.Path.{ap₂}
use crossmist.Common.{
  ℕ, ◌+◌, ◌*◌, ◌-◌, ◌<◌, ◌≡◌, refl, sym, ap, ◌∙◌, true, false, List, [], ◌∷◌, ◌++◌, length, leb,
  le→leb, lt→leb, append_assoc, append-nil, arith, if◌then◌else◌,
}
use crossmist.Builtins.Pod.Memory.{
  byte_at, bytes_from, bytes_from-same, bytes_from-append, bytes_from-all,
}
use crossmist.Serde.{
  Serializer, Outcome, Reader, ok, and_then, Object, ◌>>=◌, new, write, read, serialize_each,
}
use crossmist.Serde.Format.{Format}
use crossmist.Serde.Law.{Law, Writes, Reads}
use crossmist.Serde.Reading.{read-at}

pub record Pod (T : Type 0) : Type 0 where
  pub size : ℕ
  pub to_bytes : T → List ℕ
  pub of_bytes : List ℕ → Outcome T

-- The byte at an address from the start of a slice, whose elements lie one `size` after the other.
unfoldable pub slice_memory : {T : Type 0} → Pod T → List T → ℕ → ℕ
unfolding byte_at
slice_memory p [] address = 0
slice_memory p (x ∷ xs) address =
    let later = slice_memory p xs (address - p.size) in
    if leb p.size address then later else byte_at (p.to_bytes x) address

-- `size_of_val` of a slice
abbrev pub size_of_val : {T : Type 0} → Pod T → List T → ℕ
size_of_val p xs = length xs * p.size

-- `slice::from_raw_parts(elements.as_ptr(), size_of_val(elements))`
unfoldable pub slice_bytes : {T : Type 0} → Pod T → List T → List ℕ
unfolding slice_memory bytes_from
slice_bytes p xs = bytes_from (slice_memory p xs) 0 (size_of_val p xs)

-- The three functions that `impl_pod!` generates.
unfoldable pub pod_deserialize : {T : Type 0} → Pod T → Reader T
pod_deserialize p = do chunk ← read p.size; λ d. and_then (p.of_bytes chunk) (λ v. ok (v, d))

abbrev pub pod_object : {T : Type 0} → Pod T → Object T
pod_object p = record {
  serialize_self = λ v s. write (p.to_bytes v) s;
  serialize_slice = λ xs s. write (slice_bytes p xs) s;
  deserialize_self = pod_deserialize p;
}

-- What the language says of a representation.
pub record IsPod {T : Type 0} (p : Pod T) (Valid : T → Type 0) : Type 0 where
  pub length_lem : (v : T) → length (p.to_bytes v) ≡ p.size
  pub back : (v : T) → Valid v → p.of_bytes (p.to_bytes v) ≡ ok v

abbrev pub pod_format : {T : Type 0} → Pod T → (T → Type 0) → Format T
pod_format p Valid = record {
  Valid = Valid;
  encode = λ v. record new { bytes = p.to_bytes v };
  carry = λ v. v;
}

pub write-Writes : (chunk : List ℕ) → Writes (write chunk) (record new { bytes = chunk })
unfolding write
write-Writes chunk = record { to = λ s. simp append-nil }

module _ {T : Type 0} (p : Pod T) where
  module _ {Valid : T → Type 0} (is_pod : IsPod p Valid) where
    slice_bytes-none : slice_bytes p [] ≡ []
    unfolding slice_bytes bytes_from
    slice_bytes-none = let e : 0 * p.size ≡ 0 = omega arith in rw e refl

    -- The first element, and the others behind it
    slice_bytes-first :
        (x : T) (xs : List T) → slice_bytes p (x ∷ xs) ≡ p.to_bytes x ++ slice_bytes p xs
    unfolding slice_bytes slice_memory
    slice_bytes-first x xs =
        let memory = slice_memory p (x ∷ xs) in
        let first : bytes_from memory 0 p.size ≡ p.to_bytes x =
          bytes_from-same memory (byte_at (p.to_bytes x)) 0 0 p.size
            (λ i h. let e : 0 + i ≡ i = omega arith in rw e (rw (lt→leb p.size i h) refl))
          ∙ ap (bytes_from (byte_at (p.to_bytes x)) 0) (sym (is_pod.length_lem x))
          ∙ bytes_from-all (p.to_bytes x) in
        let others : bytes_from memory (0 + p.size) (size_of_val p xs) ≡ slice_bytes p xs =
          bytes_from-same memory (slice_memory p xs) (0 + p.size) 0 (size_of_val p xs) (λ i h.
            let e : 0 + p.size + i - p.size ≡ 0 + i = omega arith in
            rw (le→leb p.size (0 + p.size + i) (omega arith)) (ap (slice_memory p xs) e)) in
        let size : size_of_val p (x ∷ xs) ≡ p.size + size_of_val p xs = grind arith in
        ap (bytes_from memory 0) size
        ∙ bytes_from-append memory 0 p.size (size_of_val p xs)
        ∙ ap₂ (λ l k. l ++ k) first others

    -- A slice of a type, whose representation always has the size of the type, is written at once, as
    -- the bytes of its memory from the address of its first element on. This is the same as writing its
    -- elements one after the other.
    pub slice-each :
        (xs : List T) (s : Serializer)
        → (pod_object p).serialize_slice xs s ≡ serialize_each ((pod_object p).serialize_self) xs s
    unfolding write serialize_each
    slice-each [] s = rw slice_bytes-none (simp append-nil)
    slice-each (x ∷ xs) s =
        ap (λ (l : List ℕ). record s { bytes = s.bytes ++ l }) (slice_bytes-first x xs)
        ∙ ap (λ (l : List ℕ). record s { bytes = l })
            (sym (append_assoc s.bytes (p.to_bytes x) (slice_bytes p xs)))
        ∙ slice-each xs (record s { bytes = s.bytes ++ p.to_bytes x })

    pod-Reads :
        (v : T) → Valid v → Reads (pod_deserialize p) (record new { bytes = p.to_bytes v }) v
    unfolding pod_deserialize
    pod-Reads v valid = record {
      off = λ seen rest.
          rw (← is_pod.length_lem v)
            (rw (read-at seen (p.to_bytes v) rest, ◌>>=◌) (rw (is_pod.back v valid)));
    }

    pub pod-Law : Law (pod_object p) (pod_object p) (pod_format p Valid)
    pod-Law = record {
      writes = λ v. write-Writes (p.to_bytes v);
      slices = slice-each;
      reads = pod-Reads;
    }
