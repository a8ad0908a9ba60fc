-- ===== src/Builtins/Sequence.antt =====
-- src/builtins.rs, `impl_sequence!`, `impl_map!` and `[T; N]`; src/unsized_builtins.rs, `Box<[T]>`.
pub mod Transfer
use crossmist.Common.{ℕ, zero, suc, List, [], ◌∷◌, length}
use crossmist.Serde.{
  Serializer, Object, Reader, ◌>>=◌, pure, serialize, deserialize, serialize_each,
}
use crossmist.Serde.Format.{Format}
use crossmist.Serde.Law.{Law}
use crossmist.Builtins.Pod.{pod_object, pod_format, pod-Law}
use crossmist.Builtins.Scalars.{usize_pod, usize_size, IsUnsigned, IsUnsigned-IsPod}
use crossmist.Builtins.Tuple.{tuple_object, Tuple}

abbrev pub usize_object : Object ℕ
usize_object = pod_object usize_pod

abbrev pub usize_format : Format ℕ
usize_format = pod_format usize_pod (IsUnsigned usize_size)

pub usize-Law : Law usize_object usize_object usize_format
usize-Law = pod-Law usize_pod (IsUnsigned-IsPod usize_size)

-- What the macros use of a collection: `len`, `into_iter` and `collect`.
pub record Collection (C T : Type 0) : Type 0 where
  pub len : C → ℕ
  pub into_iter : C → List T
  pub collect : List T → C

-- `(0..len).map(|_| d.deserialize())`
unfoldable pub read_times : {T : Type 0} → ℕ → Object T → Reader (List T)
read_times zero o = pure []
read_times (suc n) o = deserialize o >>= λ x. read_times n o >>= λ xs. pure (x ∷ xs)

module _ {C T : Type 0} (coll : Collection C T) (o : Object T) where
  unfoldable pub sequence_serialize : C → Serializer → Serializer
  sequence_serialize v s =
      serialize_each (serialize o) (coll.into_iter v) (serialize usize_object (coll.len v) s)

  unfoldable pub sequence_deserialize : Reader C
  sequence_deserialize =
      deserialize usize_object >>= λ len. read_times len o >>= λ xs. pure (coll.collect xs)

  abbrev pub sequence_object : Object C
  sequence_object = record {
    serialize_self = sequence_serialize;
    serialize_slice = serialize_each sequence_serialize;
    deserialize_self = sequence_deserialize;
  }

abbrev pub Entry : Type 0 → Type 0 → Type 0
Entry K V = Tuple (K ∷ V ∷ [])

module _ {C K V : Type 0} (coll : Collection C (Entry K V)) (k : Object K) (v : Object V) where
  abbrev pub entry_object : Object (Entry K V)
  entry_object = tuple_object (K ∷ V ∷ []) (k, (v, tt))

  -- `s.serialize(key); s.serialize(value);`
  abbrev pub entry_serialize : Entry K V → Serializer → Serializer
  entry_serialize (key, (value, _)) s = serialize v value (serialize k key s)

  unfoldable pub map_serialize : C → Serializer → Serializer
  map_serialize m s =
      serialize_each entry_serialize (coll.into_iter m) (serialize usize_object (coll.len m) s)

  -- The items that are read are tuples.
  abbrev pub map_object : Object C
  map_object = record {
    serialize_self = map_serialize;
    serialize_slice = serialize_each map_serialize;
    deserialize_self = sequence_deserialize coll entry_object;
  }

-- `Vec<T>`, and with the same iteration order `VecDeque<T>` and `LinkedList<T>`.
abbrev pub vec : {T : Type 0} → Collection (List T) T
vec = record { len = length; into_iter = λ xs. xs; collect = λ xs. xs }

abbrev pub vec_object : {T : Type 0} → Object T → Object (List T)
vec_object = sequence_object vec

-- `Box<[T]>`: the elements by `serialize_slice`, and back through `Vec<T>`.
module _ {T : Type 0} (o : Object T) where
  unfoldable pub boxed_slice_serialize : List T → Serializer → Serializer
  boxed_slice_serialize xs s = o.serialize_slice xs (serialize usize_object (length xs) s)

  abbrev pub boxed_slice_object : Object (List T)
  boxed_slice_object = record {
    serialize_self = boxed_slice_serialize;
    serialize_slice = serialize_each boxed_slice_serialize;
    deserialize_self = deserialize (vec_object o);
  }

  -- `[T; N]`: no length.
  abbrev pub array_object : ℕ → Object (List T)
  array_object n = record {
    serialize_self = o.serialize_slice;
    serialize_slice = serialize_each o.serialize_slice;
    deserialize_self = read_times n o;
  }
