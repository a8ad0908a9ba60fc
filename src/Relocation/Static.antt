-- ===== src/Relocation/Static.antt =====
-- src/static_ref.rs and, of src/fns.rs, `StaticFn`: references to what lies in each process.
--
-- The image of the program tells what lies at an address; the same lies at the same distance from the
-- base in every process.
use crossmist.Common.{ℕ, ◌+◌, ◌%◌, ◌<◌, ◌≡◌, sym, ap, ◌∙◌, Option, none, some, List, [], ◌∷◌, arith}
use crossmist.Serde.{Outcome, ok, undefined, and_then, Object, new, from, serialize, deserialize}
use crossmist.Serde.Law.{Law}
use crossmist.Serde.RoundTrip.{exhausted, deserialize-serialize}
use crossmist.Builtins.Pod.{pod_object, pod_format, pod-Law}
use crossmist.Builtins.Scalars.{phantom_pod, phantom-IsPod}
use crossmist.Builtins.Tuple.{Tuple, Formats, tuple_format}
use crossmist.Derive.{struct_object, struct-Law}
use crossmist.Functions.{FnOnceObject}
use crossmist.Relocation.{
  address_space, ptr_object, ptr_format, ptr-Law, relocated, relocated-offset, to_offset-IsUnsigned,
}

-- `struct StaticRef`
abbrev pub StaticRef : Type 0
StaticRef = Tuple (ℕ ∷ [])

abbrev pub static_ref_object : ℕ → Object StaticRef
static_ref_object base = struct_object (ℕ ∷ []) (ptr_object base, tt)

-- `StaticRef::new_unchecked`
unfoldable pub new_unchecked : ℕ → StaticRef
new_unchecked reference = (reference, tt)

-- Nothing of the type at an address is undefined behaviour.
abbrev pub or_undefined : {T : Type 0} → Option T → Outcome T
or_undefined (some value) = ok value
or_undefined none = undefined

-- `StaticRef::get`
unfoldable pub get : {T : Type 0} → (ℕ → Option T) → StaticRef → Outcome T
get image (ptr, _) = or_undefined (image ptr)

-- `static_ref!`, where the value is promoted to a constant at an address
abbrev pub static_ref : ℕ → StaticRef
static_ref = new_unchecked

-- `struct StaticFn`, with its field `phantom`
abbrev pub StaticFn : Type 0
StaticFn = Tuple (ℕ ∷ Unit {0} ∷ [])

abbrev pub static_fn_object : ℕ → Object StaticFn
static_fn_object base =
    struct_object (ℕ ∷ Unit {0} ∷ []) (ptr_object base, (pod_object phantom_pod, tt))

-- `StaticFn::new` of a function pointer, whose address is `addr`
unfoldable pub new_fn : ℕ → StaticFn
new_fn addr = (addr, (tt, tt))

-- `StaticFn::get_fn`, and the calls.
module _ (Args : List (Type 0)) (Output : Type 0) where
  unfoldable pub get_fn :
      (ℕ → Option (Tuple Args → Output)) → StaticFn → Outcome (Tuple Args → Output)
  get_fn image (ptr, _) = or_undefined (image ptr)

  -- `StaticFn` as `FnOnce`, `FnMut` and `Fn`
  unfoldable pub static_once :
      (ℕ → Option (Tuple Args → Output)) → FnOnceObject StaticFn Args (Outcome Output)
  unfolding get_fn
  static_once image = record {
    call_object_once = λ func args. and_then (get_fn image func) λ f. ok (f args);
  }

-- In two processes the same lies at the same distance from their bases.
abbrev pub SameContents : {T : Type 0} → ℕ → ℕ → (ℕ → Option T) → (ℕ → Option T) → Type 0
SameContents base base' image image' =
    (offset : ℕ)
    → image ((base + offset) % address_space) ≡ image' ((base' + offset) % address_space)

module _ (base base' : ℕ) (in_range : base < address_space) where
  abbrev ref_formats : Formats (ℕ ∷ [])
  ref_formats = (ptr_format base base', tt)

  ref-Law :
      Law (static_ref_object base) (static_ref_object base') (tuple_format (ℕ ∷ []) ref_formats)
  ref-Law =
      struct-Law (ℕ ∷ []) (ptr_object base, tt) (ptr_object base', tt) ref_formats
        (ptr-Law base base', tt)

  abbrev fn_formats : Formats (ℕ ∷ Unit {0} ∷ [])
  fn_formats = (ptr_format base base', (pod_format phantom_pod (λ v. Unit), tt))

  fn-Law :
      Law
        (static_fn_object base)
        (static_fn_object base')
        (tuple_format (ℕ ∷ Unit {0} ∷ []) fn_formats)
  fn-Law =
      struct-Law (ℕ ∷ Unit {0} ∷ []) (ptr_object base, (pod_object phantom_pod, tt))
        (ptr_object base', (pod_object phantom_pod, tt)) fn_formats
        (ptr-Law base base', (pod-Law phantom_pod phantom-IsPod, tt))

  abbrev here : ℕ → ℕ
  here offset = (base + offset) % address_space

  found :
      {T : Type 0} (image image' : ℕ → Option T) (offset : ℕ)
      → SameContents base base' image image'
      → image' (relocated base base' (here offset)) ≡ image (here offset)
  found image image' offset same =
      ap image' (relocated-offset base base' offset in_range) ∙ sym (same offset)

  -- A reference to a constant, made by `static_ref!` and sent to a process of the same program,
  -- which may lie elsewhere in memory, arrives as a reference that gets the same value there. A
  -- `StaticFn` arrives as one that returns on all arguments what it returns here.
  pub statics_arrive :
      {T : Type 0} (Args : List (Type 0)) (Output : Type 0) (image image' : ℕ → Option T)
      (code code' : ℕ → Option (Tuple Args → Output)) (offset : ℕ)
      → SameContents base base' image image'
      → SameContents base base' code code'
      → (args : Tuple Args)
      → ((r : StaticRef) × (deserialize
              (static_ref_object base')
              (from (serialize (static_ref_object base) (static_ref (here offset)) new))
            ≡ ok (r, exhausted (serialize (static_ref_object base) (static_ref (here offset)) new)))
          × (get image' r ≡ get image (static_ref (here offset))))
        × ((f : StaticFn) × (deserialize
                (static_fn_object base')
                (from (serialize (static_fn_object base) (new_fn (here offset)) new))
              ≡ ok (f, exhausted (serialize (static_fn_object base) (new_fn (here offset)) new)))
            × ((static_once Args Output code').call_object_once f args
                ≡ (static_once Args Output code).call_object_once (new_fn (here offset)) args))
  unfolding get static_once new_unchecked new_fn
  statics_arrive Args Output image image' code code' offset same same_code args =
      let small = to_offset-IsUnsigned base (here offset) in
      let valid : here offset < address_space = omega arith in
      (
        (
          (tuple_format (ℕ ∷ []) ref_formats).carry (here offset, tt),
          deserialize-serialize ref-Law (here offset, tt) ((small, valid), tt),
          ap or_undefined (found image image' offset same),
        ),
        (
          (tuple_format (ℕ ∷ Unit {0} ∷ []) fn_formats).carry (here offset, (tt, tt)),
          deserialize-serialize fn-Law (here offset, (tt, tt)) ((small, valid), (tt, tt)),
          ap (λ (f : Option (Tuple Args → Output)). and_then (or_undefined f) λ g. ok (g args))
              (found code code' offset same_code),
        ),
      )
