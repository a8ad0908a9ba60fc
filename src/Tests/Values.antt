-- ===== src/Tests/Values.antt =====
-- The serialization at concrete values.
use crossmist.Common.{ℕ, ◌+◌, ◌≡◌, ◌⊎◌, ◌<◌, ◌≤◌, refl, arith, some, List, [], ◌∷◌, ◌++◌, length}
use crossmist.Serde.{
  Deserializer, ok, panicked, out_of_range, new, from, read, get_rest, serialize, deserialize,
  serialize_each,
}
use crossmist.Serde.Reading.{read_exact, IsWithin}
use crossmist.Serde.RoundTrip.{exhausted}
use crossmist.Builtins.Pod.{slice-each, pod_object}
use crossmist.Builtins.Scalars.{unsigned_pod, IsUnsigned-IsPod}
use crossmist.Builtins.Shape.{
  Shape, unsigned, fd, option, vector, tuple, nil, cons, El, object, format,
}
use crossmist.Builtins.Shape.RoundTrip.{round_trip}

abbrev four_bytes : Deserializer
four_bytes = record {
  bytes = 1 ∷ 2 ∷ 3 ∷ 4 ∷ [];
  fds = 9 ∷ [];
  handles = [];
  sockets = [];
  pos = 1;
}

read_exact_example :
    ((length four_bytes.bytes < four_bytes.pos + 2) × (read 2 four_bytes ≡ panicked out_of_range))
    ⊎ ((four_bytes.pos + 2 ≤ length four_bytes.bytes)
        × (chunk : List ℕ) × (d' : Deserializer) × (read 2 four_bytes ≡ ok (chunk, d'))
        × (length chunk ≡ 2)
        × (chunk ++ get_rest d' ≡ get_rest four_bytes)
        × (d'.fds ≡ four_bytes.fds)
        × (d'.handles ≡ four_bytes.handles)
        × (d'.sockets ≡ four_bytes.sockets)
        × IsWithin d')
read_exact_example = read_exact 2 four_bytes

-- `(Option<u16>, OwnedFd, Vec<u16>)`
abbrev pub a_shape : Shape
a_shape = tuple (cons (option (unsigned 2)) (cons fd (cons (vector (unsigned 2)) nil)))

abbrev a_value : El a_shape
a_value = (some 258, (7, (3 ∷ 4 ∷ [], tt)))

a_value-Valid : (format a_shape).Valid a_value
a_value-Valid = (omega arith, (tt, ((omega arith, refl, (omega arith, (omega arith, tt))), tt)))

round_trip_example :
    deserialize (object a_shape) (from (serialize (object a_shape) a_value new))
    ≡ ok (a_value, exhausted (serialize (object a_shape) a_value new))
round_trip_example = round_trip a_shape a_value a_value-Valid

slice-each_example :
    (pod_object (unsigned_pod 2)).serialize_slice (1 ∷ 515 ∷ []) new
    ≡ serialize_each ((pod_object (unsigned_pod 2)).serialize_self) (1 ∷ 515 ∷ []) new
slice-each_example = slice-each (unsigned_pod 2) (IsUnsigned-IsPod 2) (1 ∷ 515 ∷ []) new
