-- ===== src/Relocation.antt =====
-- src/relocation.rs, `RelocatablePtr`, and what is sent as such a pointer: `StaticRef` of
-- src/static_ref.rs and, in Relocation.Boxed, `Box<T>` of src/unsized_builtins.rs.
--
-- A process loads the program at an address of its own, which `base` tells: it is the address of the
-- function that `BASE_ADDRESS` names.
pub mod Boxed
pub mod Static
use crossmist.Common.{ℕ, ◌+◌, ◌-◌, ◌%◌, ◌^◌, ◌<◌, ◌≤◌, ◌≡◌, refl, ap, arith}
use crossmist.Serde.{Outcome, Object, Reader, ok}
use crossmist.Serde.Format.{Format}
use crossmist.Serde.Law.{Law}
use crossmist.Builtins.Scalars.{IsUnsigned, usize_size}
use crossmist.Builtins.Sequence.{usize_object, usize_format, usize-Law}
use crossmist.Builtins.Wrapper.{
  wrapper_object, wrapper_format, wrapper-Law, wrapper_serialize, wrapper_deserialize,
}

-- The number of addresses.
abbrev pub address_space : ℕ
address_space = 18446744073709551616

-- `self.0.addr().wrapping_sub(BASE_ADDRESS as usize)`
unfoldable pub to_offset : ℕ → ℕ → ℕ
to_offset base address = (address + (address_space - base)) % address_space

-- `(BASE_ADDRESS as usize).wrapping_add(…)`
unfoldable pub of_offset : ℕ → ℕ → ℕ
of_offset base offset = (base + offset) % address_space

-- `Object for RelocatablePtr<T>`
abbrev pub ptr_object : ℕ → Object ℕ
ptr_object base =
    wrapper_object (to_offset base) (λ offset. ok (of_offset base offset)) usize_object

-- The pointer in the process at `base'` to what the pointer names in the process at `base`.
abbrev pub relocated : ℕ → ℕ → ℕ → ℕ
relocated base base' address = of_offset base' (to_offset base address)

abbrev pub ptr_format : ℕ → ℕ → Format ℕ
ptr_format base base' =
    wrapper_format (to_offset base) (relocated base base') (λ address. address < address_space)
      usize_format

pub ptr-Law : (base base' : ℕ) → Law (ptr_object base) (ptr_object base') (ptr_format base base')
unfolding wrapper_serialize wrapper_deserialize
ptr-Law base base' =
    let law =
      wrapper-Law (to_offset base) (λ offset. ok (of_offset base' offset)) (relocated base base')
        (λ address. address < address_space) usize-Law (λ address h. refl) in
    record { writes = law.writes; slices = λ xs s. refl; reads = law.reads }

-- What lies at an offset from the base in one process is found at the same offset from the base in the
-- other, for every two bases, also where the addresses wrap around.
pub relocated-offset :
    (base base' offset : ℕ)
    → base < address_space
    → relocated base base' ((base + offset) % address_space) ≡ (base' + offset) % address_space
unfolding to_offset of_offset
relocated-offset base base' offset h = omega arith

-- In a process with the same base a pointer arrives as it was.
pub relocated_same :
    (base address : ℕ)
    → base < address_space
    → address < address_space
    → relocated base base address ≡ address
unfolding to_offset of_offset
relocated_same base address h h' = omega arith

pub to_offset-IsUnsigned : (base address : ℕ) → IsUnsigned usize_size (to_offset base address)
unfolding to_offset
to_offset-IsUnsigned base address = omega arith
