-- ===== src/Tests/Calls.antt =====
-- Structs and function objects at concrete inputs.
use crossmist.Common.{true, false, some, ℕ, ◌+◌, ◌≡◌, List, [], ◌∷◌}
use crossmist.Serde.{ok, new, from, serialize, deserialize}
use crossmist.Serde.RoundTrip.{exhausted}
use crossmist.Builtins.Resource.{fd_object, fd_format, fd-Law}
use crossmist.Functions.{FnOnceObject}
use crossmist.Functions.Lambda.{
  amp, mut_word, colon, comma, bar, arrow, ident, ty, block, unnamed, bind_value, bind_mut, lambda,
}
use crossmist.Functions.Lambda.Expanding.{by_value, by_mut, lambda-expanded}
use crossmist.Functions.Binding.{Bound, bind_all, once_all, bound_objects, sent_bound-call}

abbrev two_fds : List (Type 0)
two_fds = ℕ ∷ ℕ ∷ []

-- A function that holds a descriptor and adds it to three others.
abbrev adds : FnOnceObject ℕ (ℕ ∷ ℕ ∷ ℕ ∷ []) ℕ
adds = record { call_object_once = λ func (a, (b, (c, _))). func + (a + (b + c)) }

sent_bound-call_example :
    (bound : Bound ℕ two_fds) × (deserialize
        (bound_objects two_fds fd_object (fd_object, (fd_object, tt)))
        (from (
          serialize
            (bound_objects two_fds fd_object (fd_object, (fd_object, tt)))
            (bind_all two_fds 1 (2, (3, tt)))
            new))
      ≡ ok (
        bound,
        exhausted (
            serialize
              (bound_objects two_fds fd_object (fd_object, (fd_object, tt)))
              (bind_all two_fds 1 (2, (3, tt)))
              new),
      ))
    × ((once_all two_fds adds).call_object_once bound (4, tt) ≡ 10)
sent_bound-call_example =
    sent_bound-call two_fds (ℕ ∷ []) (fd_object, (fd_object, tt)) (fd_object, (fd_object, tt))
      (fd_format, (fd_format, tt)) fd-Law (fd-Law, (fd-Law, tt)) adds 1 (2, (3, tt)) (4, tt) tt
      (tt, (tt, tt))

abbrev three : List ℕ
three = 0 ∷ 1 ∷ 2 ∷ []

-- `move(a: 10, &mut b: 11,) |c: 12| -> 13 { 5 }`, where the types are numbers and so is the code.
lambda-expanded_example :
    lambda
      (some
        (ident 0 ∷ colon ∷ ty 10 ∷ comma ∷ amp ∷ mut_word ∷ ident 1 ∷ colon ∷ ty 11 ∷ comma ∷ []))
      (bar ∷ ident 2 ∷ colon ∷ ty 12 ∷ bar ∷ arrow ∷ ty 13 ∷ block 5 ∷ [])
    ≡ some (record {
      args = (0, 10) ∷ (1, 11) ∷ (2, 12) ∷ [];
      return_type = 13;
      code = 5;
      boxed = bind_mut (bind_value unnamed 0) 1;
    })
lambda-expanded_example =
    lambda-expanded true false (by_value 0 10 ∷ by_mut 1 11 ∷ []) (by_value 2 12 ∷ []) 13 5
