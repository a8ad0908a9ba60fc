-- ===== src/Builtins/Tuple.antt =====
-- src/builtins.rs, `serialize_rev!` and `impl_tuple!`.
use mathlib.Core.List.{reverse-append}
use crossmist.Common.{◌≡◌, refl, ap, ◌∙◌, List, [], ◌∷◌, ◌++◌, reverse}
use crossmist.Serde.{
  Serializer, Object, Reader, ◌>>=◌, pure, new, serialize, deserialize, serialize_each,
}
use crossmist.Serde.Format.{Format, ◌⊕◌}
use crossmist.Serde.Law.{
  Law, Writes, Writes-none, Writes-then, Reads, Reads-pure, Reads-bind, Reads-map,
}

-- A tuple with one field for each type of the list.
abbrev pub Tuple : List (Type 0) → Type 0
Tuple [] = Unit {0}
Tuple (T ∷ Ts) = T × Tuple Ts

-- The bounds `T: Object` of the fields.
abbrev pub Objects : List (Type 0) → Type 0
Objects [] = Unit {0}
Objects (T ∷ Ts) = Object T × Objects Ts

-- The statements `s.serialize(self.i)`, for i = 0, 1, …
unfoldable pub field_writes :
    (Ts : List (Type 0)) → Objects Ts → Tuple Ts → List (Serializer → Serializer)
field_writes [] os vs = []
field_writes (T ∷ Ts) (o, os) (v, vs) = serialize o v ∷ field_writes Ts os vs

-- `serialize_rev!` runs the tail before the head.
unfoldable pub serialize_rev : List (Serializer → Serializer) → Serializer → Serializer
serialize_rev [] s = s
serialize_rev (head ∷ tail) s = head (serialize_rev tail s)

-- The macro's index tokens count down, so `self.0` is the last argument of `serialize_rev!`.
unfoldable pub tuple_serialize :
    (Ts : List (Type 0)) → Objects Ts → Tuple Ts → Serializer → Serializer
tuple_serialize Ts os vs s = serialize_rev (reverse (field_writes Ts os vs)) s

unfoldable pub tuple_deserialize : (Ts : List (Type 0)) → Objects Ts → Reader (Tuple Ts)
tuple_deserialize [] os = pure tt
tuple_deserialize (T ∷ Ts) (o, os) =
    deserialize o >>= λ x. tuple_deserialize Ts os >>= λ xs. pure (x, xs)

abbrev pub tuple_object : (Ts : List (Type 0)) → Objects Ts → Object (Tuple Ts)
tuple_object Ts os = record {
  serialize_self = tuple_serialize Ts os;
  serialize_slice = serialize_each (tuple_serialize Ts os);
  deserialize_self = tuple_deserialize Ts os;
}

abbrev pub Formats : List (Type 0) → Type 1
Formats [] = Unit {1}
Formats (T ∷ Ts) = Format T × Formats Ts

abbrev TupleValid : (Ts : List (Type 0)) → Formats Ts → Tuple Ts → Type 0
TupleValid [] fs vs = Unit
TupleValid (T ∷ Ts) (f, fs) (v, vs) = f.Valid v × TupleValid Ts fs vs

abbrev tuple_encode : (Ts : List (Type 0)) → Formats Ts → Tuple Ts → Serializer
tuple_encode [] fs vs = new
tuple_encode (T ∷ Ts) (f, fs) (v, vs) = f.encode v ⊕ tuple_encode Ts fs vs

abbrev tuple_carry : (Ts : List (Type 0)) → Formats Ts → Tuple Ts → Tuple Ts
tuple_carry [] fs vs = tt
tuple_carry (T ∷ Ts) (f, fs) (v, vs) = (f.carry v, tuple_carry Ts fs vs)

abbrev pub tuple_format : (Ts : List (Type 0)) → Formats Ts → Format (Tuple Ts)
tuple_format Ts fs = record {
  Valid = TupleValid Ts fs;
  encode = tuple_encode Ts fs;
  carry = tuple_carry Ts fs;
}

abbrev pub Laws : (Ts : List (Type 0)) → Objects Ts → Objects Ts → Formats Ts → Type 0
Laws [] os os' fs = Unit
Laws (T ∷ Ts) (o, os) (o', os') (f, fs) = Law o o' f × Laws Ts os os' fs

-- The statements in the order of the fields.
unfoldable pub in_order : List (Serializer → Serializer) → Serializer → Serializer
in_order [] s = s
in_order (w ∷ ws) s = in_order ws (w s)

serialize_rev-append :
    (ws ws' : List (Serializer → Serializer)) (s : Serializer)
    → serialize_rev (ws ++ ws') s ≡ serialize_rev ws (serialize_rev ws' s)
unfolding serialize_rev
serialize_rev-append [] ws' s = refl
serialize_rev-append (w ∷ ws) ws' s = ap w (serialize_rev-append ws ws' s)

-- `serialize_rev!` on statements in descending order runs them in ascending order.
pub serialize_rev-reverse :
    (ws : List (Serializer → Serializer)) (s : Serializer)
    → serialize_rev (reverse ws) s ≡ in_order ws s
unfolding serialize_rev in_order
serialize_rev-reverse [] s = refl
serialize_rev-reverse (w ∷ ws) s =
    ap (λ l. serialize_rev l s) (reverse-append (w ∷ []) ws)
    ∙ serialize_rev-append (reverse ws) (w ∷ []) s
    ∙ serialize_rev-reverse ws (w s)

fields-Writes :
    (Ts : List (Type 0)) (os os' : Objects Ts) (fs : Formats Ts)
    → Laws Ts os os' fs
    → (vs : Tuple Ts) → Writes (in_order (field_writes Ts os vs)) (tuple_encode Ts fs vs)
unfolding in_order field_writes
fields-Writes [] os os' fs laws vs = Writes-none
fields-Writes (T ∷ Ts) (o, os) (o', os') (f, fs) (law, laws) (v, vs) =
    Writes-then (law.writes v) (fields-Writes Ts os os' fs laws vs)

fields-Reads :
    (Ts : List (Type 0)) (os os' : Objects Ts) (fs : Formats Ts)
    → Laws Ts os os' fs
    → (vs : Tuple Ts) → TupleValid Ts fs vs
    → Reads (tuple_deserialize Ts os') (tuple_encode Ts fs vs) (tuple_carry Ts fs vs)
unfolding tuple_deserialize
fields-Reads [] os os' fs laws vs h = Reads-pure tt
fields-Reads (T ∷ Ts) (o, os) (o', os') (f, fs) (law, laws) (v, vs) (h, hs) =
    Reads-bind (law.reads v h) _
      (Reads-map (fields-Reads Ts os os' fs laws vs hs) (λ xs. (f.carry v, xs)))

pub tuple-Law :
    (Ts : List (Type 0)) (os os' : Objects Ts) (fs : Formats Ts)
    → Laws Ts os os' fs
    → Law (tuple_object Ts os) (tuple_object Ts os') (tuple_format Ts fs)
unfolding tuple_serialize
tuple-Law Ts os os' fs laws = record {
  writes = λ vs. record {
    to = λ s.
        serialize_rev-reverse (field_writes Ts os vs) s ∙ (fields-Writes Ts os os' fs laws vs).to s;
  };
  slices = λ xs s. refl;
  reads = fields-Reads Ts os os' fs laws;
}
