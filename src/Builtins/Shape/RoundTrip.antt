-- ===== src/Builtins/Shape/RoundTrip.antt =====
-- The types of src/builtins.rs, serialized and deserialized.
use crossmist.Common.{◌≡◌, refl, sym, ap, ◌∙◌, Option, none, some, List, [], ◌∷◌, map}
use mathlib.Core.Path.{ap₂}
use crossmist.Serde.{Serializer, Deserializer, ok, new, from, serialize, deserialize}
use crossmist.Serde.Format.{Format}
use crossmist.Serde.RoundTrip.{exhausted, deserialize-serialize}
use crossmist.Builtins.Sum.{Result, ok_value, err_value, option_format, result_format}
use crossmist.Builtins.Tuple.{Tuple, tuple_format}
use crossmist.Builtins.Shape.{
  Shape, Shapes, bool, char, duration, system_time, fd, text, unsigned, signed, nonzero, file,
  tcp_stream, option, vector, boxed_slice, result, array, tuple, nil, cons, El, els, object, format,
  formats, law,
}

map_still {ℓ} : {A : Type ℓ} (f : A → A) → ((x : A) → f x ≡ x) → (xs : List A) → map f xs ≡ xs
map_still f h [] = refl
map_still f h (x ∷ xs) = ap₂ (λ y ys. y ∷ ys) (h x) (map_still f h xs)

option_still :
    {T : Type 0} (f : Format T)
    → ((v : T) → f.carry v ≡ v)
    → (v : Option T) → (option_format f).carry v ≡ v
option_still f h none = refl
option_still f h (some x) = ap some (h x)

result_still :
    {T E : Type 0} (f : Format T) (g : Format E)
    → ((v : T) → f.carry v ≡ v)
    → ((v : E) → g.carry v ≡ v)
    → (v : Result T E) → (result_format f g).carry v ≡ v
result_still f g h k (ok_value x) = ap ok_value (h x)
result_still f g h k (err_value x) = ap err_value (k x)

-- None of these types changes on the way.
mutual
  still : (t : Shape) (v : El t) → (format t).carry v ≡ v
  still bool v = refl
  still char v = refl
  still duration v = refl
  still system_time v = refl
  still fd v = refl
  still text v = refl
  still (unsigned size) v = refl
  still (signed size) v = refl
  still (nonzero size) v = refl
  still (file platform) v = refl
  still (tcp_stream platform) v = refl
  still (option t) v = option_still (format t) (still t) v
  still (vector t) v = map_still (format t).carry (still t) v
  still (boxed_slice t) v = map_still (format t).carry (still t) v
  still (result t e) v = result_still (format t) (format e) (still t) (still e) v
  still (array n t) v = map_still (format t).carry (still t) v
  still (tuple ts) v = stills ts v

  stills : (ts : Shapes) (v : Tuple (els ts)) → (tuple_format (els ts) (formats ts)).carry v ≡ v
  stills nil v = refl
  stills (cons t ts) (v, vs) = ap₂ (λ x xs. (x, xs)) (still t v) (stills ts vs)

ok-injective : {T : Type 0} (p q : T × Deserializer) → ok p ≡ ok q → p.0 ≡ q.0
ok-injective {T} p q h = let e : p ≡ q = cc in ap (λ (r : T × Deserializer). r.0) e

-- For every type built from scalars, texts, times, files and sockets by `Option`, `Result`, `Vec`,
-- `Box<[T]>`, arrays and tuples, and every value of it within the ranges of its integers:
-- serializing the value and deserializing from the result gives the value, with every byte and
-- every resource used up.
pub round_trip :
    (t : Shape) (v : El t)
    → (format t).Valid v
    → deserialize (object t) (from (serialize (object t) v new))
      ≡ ok (v, exhausted (serialize (object t) v new))
round_trip t v h =
    deserialize-serialize (law t) v h
    ∙ ap (λ (x : El t). ok (x, exhausted (serialize (object t) v new))) (still t v)

-- The bytes and resources determine the value: two values of one type that serialize alike are
-- equal.
pub serialize-injective :
    (t : Shape) (v w : El t)
    → (format t).Valid v
    → (format t).Valid w
    → serialize (object t) v new ≡ serialize (object t) w new
    → v ≡ w
serialize-injective t v w hv hw e = ok-injective _ _ (
    sym (round_trip t v hv)
    ∙ ap (λ (s : Serializer). deserialize (object t) (from s)) e
    ∙ round_trip t w hw)
