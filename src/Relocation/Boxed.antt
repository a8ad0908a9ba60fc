-- ===== src/Relocation/Boxed.antt =====
-- src/unsized_builtins.rs, `Box<T>` and `Box<dyn Trait>`, on a stable compiler.
--
-- The types that implement the trait are numbered, `El` is the family of them. The receiving
-- process knows the type behind a `dyn` by its vtable alone; the function that reads the value is
-- called through its address.
use mathlib.Core.Path.{subst}
use crossmist.Common.{
  ℕ, ◌+◌, ◌%◌, ◌<◌, ◌≡◌, refl, sym, ap, ◌∙◌, Option, none, some, arith, ◌==◌, eq→==, if◌then◌else◌,
}
use crossmist.Serde.{
  Serializer, Object, Reader, undefined, ok, new, from, ◌>>=◌, pure, serialize, deserialize,
  serialize_each,
}
use crossmist.Serde.Format.{Format, ◌⊕◌}
use crossmist.Serde.Law.{Law, Writes, Writes-then, Reads, Reads-bind, Reads-map}
use crossmist.Serde.RoundTrip.{exhausted, deserialize-serialize}
use crossmist.Relocation.{
  address_space, ptr_object, ptr_format, ptr-Law, relocated, relocated-offset, to_offset-IsUnsigned,
}

module _ (El : ℕ → Type 0) where
  -- A program in memory: where it is loaded, at which addresses the vtables and the functions
  -- `deserialize_on_heap::<T>` lie, and which vtable lies at an address.
  pub record Image : Type 0 where
    pub base : ℕ
    pub vtable : ℕ → ℕ
    pub reader : ℕ → ℕ
    pub vtable_at : ℕ → Option ℕ
    pub objects : (k : ℕ) → Object (El k)

  -- A value behind a fat pointer: the type is that of the vtable.
  abbrev pub Dyn : Type 0
  Dyn = (k : ℕ) × El k

  module _ (image : Image) where
    -- The function pointer and the value; `Box<T>::serialize_self` for a sized type.
    unfoldable pub box_serialize : (k : ℕ) → El k → Serializer → Serializer
    box_serialize k v s =
        serialize (image.objects k) v (serialize (ptr_object image.base) (image.reader k) s)

    -- `f(d)`, for a function pointer `f` that was read: undefined behaviour, unless it is the reader of
    -- the type that the data is taken for.
    unfoldable pub call_reader : (k : ℕ) → ℕ → Reader (El k)
    call_reader k code =
        if code == image.reader k then deserialize (image.objects k) else (λ d. undefined)

    -- `Box<T>::deserialize_self` for a sized type
    unfoldable pub box_deserialize : (k : ℕ) → Reader (El k)
    box_deserialize k = deserialize (ptr_object image.base) >>= call_reader k

    abbrev pub box_object : (k : ℕ) → Object (El k)
    box_object k = record {
      serialize_self = box_serialize k;
      serialize_slice = serialize_each (box_serialize k);
      deserialize_self = box_deserialize k;
    }

    -- `Box<dyn Trait>::serialize_self`
    unfoldable pub dyn_serialize : Dyn → Serializer → Serializer
    unfolding box_serialize
    dyn_serialize (k, v) s =
        box_serialize k v (serialize (ptr_object image.base) (image.vtable k) s)

    -- The fat pointer is made of the vtable that was read.
    unfoldable pub dyn_read : Option ℕ → Reader Dyn
    unfolding box_deserialize
    dyn_read (some k) = box_deserialize k >>= λ v. pure (k, v)
    dyn_read none = λ d. undefined

    -- `Box<dyn Trait>::deserialize_self`
    unfoldable pub dyn_deserialize : Reader Dyn
    unfolding dyn_read
    dyn_deserialize =
        deserialize (ptr_object image.base) >>= λ vtable. dyn_read (image.vtable_at vtable)

    abbrev pub dyn_object : Object Dyn
    dyn_object = record {
      serialize_self = dyn_serialize;
      serialize_slice = serialize_each dyn_serialize;
      deserialize_self = dyn_deserialize;
    }

  -- Two processes run the same program: everything lies at the same offset from the base. It has
  -- `count` types that implement the trait.
  pub record SameProgram (a b : Image) : Type 0 where
    pub count : ℕ
    pub vtable_offset : ℕ → ℕ
    pub reader_offset : ℕ → ℕ
    pub base_lem : a.base < address_space
    pub vtable_a : (k : ℕ) → a.vtable k ≡ (a.base + vtable_offset k) % address_space
    pub vtable_b : (k : ℕ) → b.vtable k ≡ (b.base + vtable_offset k) % address_space
    pub reader_a : (k : ℕ) → a.reader k ≡ (a.base + reader_offset k) % address_space
    pub reader_b : (k : ℕ) → b.reader k ≡ (b.base + reader_offset k) % address_space
    pub vtable_at_lem : (k : ℕ) → k < count → b.vtable_at (b.vtable k) ≡ some k

  module _ (a b : Image) (same : SameProgram a b) where
    moved :
        (offset address address' : ℕ)
        → address ≡ (a.base + offset) % address_space
        → address' ≡ (b.base + offset) % address_space
        → relocated a.base b.base address ≡ address'
    moved offset address address' e e' =
        ap (relocated a.base b.base) e
        ∙ relocated-offset a.base b.base offset same.base_lem
        ∙ sym e'

    -- A pointer to a vtable or a function, in both processes.
    ptr-Reads :
        (offset address address' : ℕ)
        → address ≡ (a.base + offset) % address_space
        → address' ≡ (b.base + offset) % address_space
        → Reads
            (deserialize (ptr_object b.base))
            ((ptr_format a.base b.base).encode address)
            address'
    ptr-Reads offset address address' e e' =
        subst (Reads (deserialize (ptr_object b.base)) ((ptr_format a.base b.base).encode address))
          (moved offset address address' e e')
          ((ptr-Law a.base b.base).reads address
            (to_offset-IsUnsigned a.base address, omega (arith, e)))

    ptr-Writes :
        (address : ℕ)
        → Writes (serialize (ptr_object a.base) address) ((ptr_format a.base b.base).encode address)
    ptr-Writes address = (ptr-Law a.base b.base).writes address

    module _ (f : (k : ℕ) → Format (El k))
        (laws : (k : ℕ) → Law (a.objects k) (b.objects k) (f k)) where
      abbrev pub box_format : (k : ℕ) → Format (El k)
      box_format k = record {
        Valid = (f k).Valid;
        encode = λ v. (ptr_format a.base b.base).encode (a.reader k) ⊕ (f k).encode v;
        carry = (f k).carry;
      }

      abbrev pub dyn_format : Format Dyn
      dyn_format = record {
        Valid = λ (k, v). (k < same.count) × (f k).Valid v;
        encode = λ (k, v). (ptr_format a.base b.base).encode (a.vtable k) ⊕ (box_format k).encode v;
        carry = λ (k, v). (k, (f k).carry v);
      }

      call_reader-Reads :
          (k : ℕ) (v : El k)
          → (f k).Valid v
          → Reads (call_reader b k (b.reader k)) ((f k).encode v) ((f k).carry v)
      unfolding call_reader
      call_reader-Reads k v valid =
          rw (eq→== (b.reader k) (b.reader k) refl) ((laws k).reads v valid)

      pub box-Law : (k : ℕ) → Law (box_object a k) (box_object b k) (box_format k)
      unfolding box_serialize box_deserialize
      box-Law k = record {
        writes = λ v. Writes-then (ptr-Writes (a.reader k)) ((laws k).writes v);
        slices = λ xs s. refl;
        reads = λ v valid.
            Reads-bind
              (ptr-Reads (same.reader_offset k) (a.reader k) (b.reader k) (same.reader_a k)
                (same.reader_b k))
              (call_reader b k) (call_reader-Reads k v valid);
      }

      dyn_read-Reads :
          (k : ℕ) (v : El k)
          → k < same.count
          → (f k).Valid v
          → Reads
              (dyn_read b (b.vtable_at (b.vtable k)))
              ((box_format k).encode v)
              (k, (f k).carry v)
      unfolding dyn_read
      dyn_read-Reads k v counted valid =
          rw (same.vtable_at_lem k counted) (Reads-map ((box-Law k).reads v valid) (λ x. (k, x)))

      pub dyn-Law : Law (dyn_object a) (dyn_object b) dyn_format
      unfolding dyn_serialize dyn_deserialize
      dyn-Law = record {
        writes = λ (k, v). Writes-then (ptr-Writes (a.vtable k)) ((box-Law k).writes v);
        slices = λ xs s. refl;
        reads = λ (k, v) (counted, valid).
            Reads-bind
              (ptr-Reads (same.vtable_offset k) (a.vtable k) (b.vtable k) (same.vtable_a k)
                (same.vtable_b k))
              (λ vtable. dyn_read b (b.vtable_at vtable)) (dyn_read-Reads k v counted valid);
      }

      -- A trait object keeps its type and its value. Both processes run the same program, loaded at
      -- whatever addresses, the type is one of those that implement the trait, and each type that
      -- implements the trait arrives as its format says. Then a `Box<dyn Trait>` that one process
      -- serializes is read by the other as a box of the same type, with its value as that type's
      -- format says, and with all bytes and resources used up.
      pub dyn_round_trip :
          (k : ℕ) (v : El k)
          → k < same.count
          → (f k).Valid v
          → deserialize (dyn_object b) (from (serialize (dyn_object a) (k, v) new))
            ≡ ok ((k, (f k).carry v), exhausted (serialize (dyn_object a) (k, v) new))
      dyn_round_trip k v counted valid = deserialize-serialize dyn-Law (k, v) (counted, valid)
