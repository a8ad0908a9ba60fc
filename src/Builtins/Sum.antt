-- ===== src/Builtins/Sum.antt =====
-- src/builtins.rs, `Option<T>` and `Result<T, E>`: a `bool` and the payload.
use crossmist.Common.{refl, Bool, true, false, Option, none, some}
use crossmist.Serde.{
  Serializer, Object, Reader, ◌>>=◌, pure, serialize, deserialize, serialize_each,
}
use crossmist.Serde.Format.{Format, ◌⊕◌}
use crossmist.Serde.Law.{Law, Writes, Writes-then, Reads, Reads-bind, Reads-map, Reads-last}
use crossmist.Builtins.Pod.{pod_object, pod_format, pod-Law}
use crossmist.Builtins.Scalars.{bool_pod, bool-IsPod}

abbrev pub bool_object : Object Bool
bool_object = pod_object bool_pod

abbrev pub bool_format : Format Bool
bool_format = pod_format bool_pod (λ _. Unit)

pub bool-Law : Law bool_object bool_object bool_format
bool-Law = pod-Law bool_pod bool-IsPod

-- Rust's `Result`
pub data Result (T E : Type 0) : Type 0 where
  ok_value : T → Result T E
  err_value : E → Result T E

module _ {T : Type 0} (o : Object T) where
  unfoldable pub option_serialize : Option T → Serializer → Serializer
  option_serialize none s = serialize bool_object false s
  option_serialize (some x) s = serialize o x (serialize bool_object true s)

  unfoldable pub option_rest : Bool → Reader (Option T)
  option_rest true = deserialize o >>= λ x. pure (some x)
  option_rest false = pure none

  unfoldable pub option_deserialize : Reader (Option T)
  unfolding option_rest
  option_deserialize = deserialize bool_object >>= option_rest

  abbrev pub option_object : Object (Option T)
  option_object = record {
    serialize_self = option_serialize;
    serialize_slice = serialize_each option_serialize;
    deserialize_self = option_deserialize;
  }

module _ {T E : Type 0} (o : Object T) (e : Object E) where
  unfoldable pub result_serialize : Result T E → Serializer → Serializer
  result_serialize (ok_value x) s = serialize o x (serialize bool_object true s)
  result_serialize (err_value x) s = serialize e x (serialize bool_object false s)

  unfoldable pub result_rest : Bool → Reader (Result T E)
  result_rest true = deserialize o >>= λ x. pure (ok_value x)
  result_rest false = deserialize e >>= λ x. pure (err_value x)

  unfoldable pub result_deserialize : Reader (Result T E)
  unfolding result_rest
  result_deserialize = deserialize bool_object >>= result_rest

  abbrev pub result_object : Object (Result T E)
  result_object = record {
    serialize_self = result_serialize;
    serialize_slice = serialize_each result_serialize;
    deserialize_self = result_deserialize;
  }

module _ {T : Type 0} (f : Format T) where
  abbrev OptionValid : Option T → Type 0
  OptionValid none = Unit
  OptionValid (some x) = f.Valid x

  abbrev option_encode : Option T → Serializer
  option_encode none = bool_format.encode false
  option_encode (some x) = bool_format.encode true ⊕ f.encode x

  abbrev option_carry : Option T → Option T
  option_carry none = none
  option_carry (some x) = some (f.carry x)

  abbrev pub option_format : Format (Option T)
  option_format = record { Valid = OptionValid; encode = option_encode; carry = option_carry }

module _ {T E : Type 0} (f : Format T) (g : Format E) where
  abbrev ResultValid : Result T E → Type 0
  ResultValid (ok_value x) = f.Valid x
  ResultValid (err_value x) = g.Valid x

  abbrev result_encode : Result T E → Serializer
  result_encode (ok_value x) = bool_format.encode true ⊕ f.encode x
  result_encode (err_value x) = bool_format.encode false ⊕ g.encode x

  abbrev result_carry : Result T E → Result T E
  result_carry (ok_value x) = ok_value (f.carry x)
  result_carry (err_value x) = err_value (g.carry x)

  abbrev pub result_format : Format (Result T E)
  result_format = record { Valid = ResultValid; encode = result_encode; carry = result_carry }

module _ {T : Type 0} {o o' : Object T} {f : Format T} (law : Law o o' f) where
  option-Writes : (v : Option T) → Writes (option_serialize o v) (option_encode f v)
  unfolding option_serialize
  option-Writes none = bool-Law.writes false
  option-Writes (some x) = Writes-then (bool-Law.writes true) (law.writes x)

  option-Reads :
      (v : Option T)
      → OptionValid f v
      → Reads (option_deserialize o') (option_encode f v) (option_carry f v)
  unfolding option_deserialize
  option-Reads none h = Reads-last (bool-Law.reads false tt) (option_rest o') refl
  option-Reads (some x) h =
      Reads-bind (bool-Law.reads true tt) (option_rest o') (Reads-map (law.reads x h) some)

  pub option-Law : Law (option_object o) (option_object o') (option_format f)
  option-Law = record { writes = option-Writes; slices = λ xs s. refl; reads = option-Reads }

module _ {T E : Type 0} {o o' : Object T} {e e' : Object E} {f : Format T} {g : Format E}
    (law : Law o o' f) (law_e : Law e e' g) where
  result-Writes : (v : Result T E) → Writes (result_serialize o e v) (result_encode f g v)
  unfolding result_serialize
  result-Writes (ok_value x) = Writes-then (bool-Law.writes true) (law.writes x)
  result-Writes (err_value x) = Writes-then (bool-Law.writes false) (law_e.writes x)

  result-Reads :
      (v : Result T E)
      → ResultValid f g v
      → Reads (result_deserialize o' e') (result_encode f g v) (result_carry f g v)
  unfolding result_deserialize
  result-Reads (ok_value x) h =
      Reads-bind (bool-Law.reads true tt) (result_rest o' e') (Reads-map (law.reads x h) ok_value)
  result-Reads (err_value x) h =
      Reads-bind (bool-Law.reads false tt) (result_rest o' e')
        (Reads-map (law_e.reads x h) err_value)

  pub result-Law : Law (result_object o e) (result_object o' e') (result_format f g)
  result-Law = record { writes = result-Writes; slices = λ xs s. refl; reads = result-Reads }
