-- ===== src/Derive.antt =====
-- crossmist-derive/src/lib.rs, `derive_object` for a struct. The fields of a struct are the
-- components of a tuple, in the order of their declaration.
use mathlib.Core.Path.{subst}
use crossmist.Common.{◌≡◌, refl, sym, ap, ◌∙◌, List, [], ◌∷◌}
use crossmist.Serde.{
  Serializer, Object, Reader, ◌>>=◌, pure, serialize, deserialize, serialize_each,
}
use crossmist.Serde.Law.{Law, Reads}
use crossmist.Builtins.Tuple.{
  Tuple, Objects, field_writes, serialize_rev-reverse, in_order, tuple_serialize, tuple_deserialize,
  tuple_object, Formats, tuple_format, Laws, tuple-Law,
}

-- `s.serialize(self.#ident);` for each field
unfoldable pub struct_serialize :
    (Ts : List (Type 0)) → Objects Ts → Tuple Ts → Serializer → Serializer
struct_serialize [] os vs s = s
struct_serialize (T ∷ Ts) (o, os) (v, vs) s = struct_serialize Ts os vs (serialize o v s)

-- `#ident: unsafe { d.deserialize() },` for each field
unfoldable pub struct_deserialize : (Ts : List (Type 0)) → Objects Ts → Reader (Tuple Ts)
struct_deserialize [] os = pure tt
struct_deserialize (T ∷ Ts) (o, os) =
    deserialize o >>= λ x. struct_deserialize Ts os >>= λ xs. pure (x, xs)

abbrev pub struct_object : (Ts : List (Type 0)) → Objects Ts → Object (Tuple Ts)
struct_object Ts os = record {
  serialize_self = struct_serialize Ts os;
  serialize_slice = serialize_each (struct_serialize Ts os);
  deserialize_self = struct_deserialize Ts os;
}

struct_serialize-in_order :
    (Ts : List (Type 0)) (os : Objects Ts) (vs : Tuple Ts) (s : Serializer)
    → struct_serialize Ts os vs s ≡ in_order (field_writes Ts os vs) s
unfolding struct_serialize in_order field_writes
struct_serialize-in_order [] os vs s = refl
struct_serialize-in_order (T ∷ Ts) (o, os) (v, vs) s =
    struct_serialize-in_order Ts os vs (serialize o v s)

struct_deserialize-tuple :
    (Ts : List (Type 0)) (os : Objects Ts) → struct_deserialize Ts os ≡ tuple_deserialize Ts os
unfolding struct_deserialize tuple_deserialize
struct_deserialize-tuple [] os = refl
struct_deserialize-tuple (T ∷ Ts) (o, os) =
    ap (λ (r : Reader (Tuple Ts)). deserialize o >>= λ x. r >>= λ xs. pure (x, xs))
      (struct_deserialize-tuple Ts os)

-- On the wire a struct with a derived implementation and the tuple of its fields are the same, though
-- the one writes its fields in order and the other from macros that reverse them twice: each writes
-- what the other writes after any earlier contents, and reads what the other reads.
pub struct-tuple :
    (Ts : List (Type 0)) (os : Objects Ts) (vs : Tuple Ts) (s : Serializer)
    → (serialize (struct_object Ts os) vs s ≡ serialize (tuple_object Ts os) vs s)
      × (deserialize (struct_object Ts os) ≡ deserialize (tuple_object Ts os))
unfolding tuple_serialize
struct-tuple Ts os vs s = (
  struct_serialize-in_order Ts os vs s ∙ sym (serialize_rev-reverse (field_writes Ts os vs) s),
  struct_deserialize-tuple Ts os,
)

pub struct-Law :
    (Ts : List (Type 0)) (os os' : Objects Ts) (fs : Formats Ts)
    → Laws Ts os os' fs
    → Law (struct_object Ts os) (struct_object Ts os') (tuple_format Ts fs)
struct-Law Ts os os' fs laws =
    let law = tuple-Law Ts os os' fs laws in
    record {
      writes = λ vs. record { to = λ s. (struct-tuple Ts os vs s).0 ∙ (law.writes vs).to s };
      slices = λ xs s. refl;
      reads = λ vs valid.
          subst
            (λ (r : Reader (Tuple Ts)).
              Reads r ((tuple_format Ts fs).encode vs) ((tuple_format Ts fs).carry vs))
            (sym (struct_deserialize-tuple Ts os')) (law.reads vs valid);
    }
