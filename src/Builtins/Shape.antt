-- ===== src/Builtins/Shape.antt =====
-- The types that the implementations of src/builtins.rs and src/unsized_builtins.rs build, as a data
-- type, so that a statement can range over all of them.
pub mod RoundTrip
use crossmist.Common.{ℕ, ◌^◌, ◌<◌, ◌≡◌, Bool, true, Option, List, [], ◌∷◌}
use crossmist.Serde.{Object}
use crossmist.Serde.Format.{Format}
use crossmist.Serde.Law.{Law}
use crossmist.Builtins.Pod.{pod_object, pod_format, pod-Law}
use crossmist.Builtins.Scalars.{
  ℤ, unsigned_pod, IsUnsigned, IsUnsigned-IsPod, nonzero_pod, nonzero-IsPod, signed_pod, IsSigned,
  IsSigned-IsPod, char_pod, is_scalar, char-IsPod,
}
use crossmist.Builtins.Sum.{
  bool_object, bool_format, bool-Law, Result, option_object, option_format, option-Law,
  result_object, result_format, result-Law,
}
use crossmist.Builtins.Tuple.{Tuple, Objects, tuple_object, Formats, tuple_format, Laws, tuple-Law}
use crossmist.Builtins.Sequence.{vec, vec_object, boxed_slice_object, array_object}
use crossmist.Builtins.Sequence.Transfer.{
  sequence_format, sequence-Law, boxed_slice-Law, array_format, array-Law,
}
use crossmist.Builtins.Text.{text_object, text_format, text-Law}
use crossmist.Builtins.Time.{
  Duration, duration_object, duration_format, duration-Law, system_time_object, system_time_format,
  system_time-Law,
}
use crossmist.Builtins.Resource.{
  fd_object, fd_format, fd-Law, Platform, file_object, file_format, file-Law, tcp_stream_object,
  tcp_stream_format, tcp_stream-Law,
}

mutual
  pub data Shape : Type 0 where
    bool char duration system_time fd text : Shape
    unsigned signed nonzero : ℕ → Shape
    file tcp_stream : Platform → Shape
    option vector boxed_slice : Shape → Shape
    result : Shape → Shape → Shape
    array : ℕ → Shape → Shape
    tuple : Shapes → Shape

  pub data Shapes : Type 0 where
    nil : Shapes
    cons : Shape → Shapes → Shapes

-- The values of a shape.
abbrev mutual
  pub El : Shape → Type 0
  El bool = Bool
  El char = ℕ
  El duration = Duration
  El system_time = ℤ
  El fd = ℕ
  El text = List ℕ
  El (unsigned size) = ℕ
  El (signed size) = ℤ
  El (nonzero size) = ℕ
  El (file platform) = ℕ
  El (tcp_stream platform) = ℕ
  El (option t) = Option (El t)
  El (vector t) = List (El t)
  El (boxed_slice t) = List (El t)
  El (result t e) = Result (El t) (El e)
  El (array n t) = List (El t)
  El (tuple ts) = Tuple (els ts)

  pub els : Shapes → List (Type 0)
  els nil = []
  els (cons t ts) = El t ∷ els ts

-- The implementation of `Object` for a shape.
abbrev mutual
  pub object : (t : Shape) → Object (El t)
  object bool = bool_object
  object char = pod_object char_pod
  object duration = duration_object
  object system_time = system_time_object
  object fd = fd_object
  object text = text_object (λ _. Unit)
  object (unsigned size) = pod_object (unsigned_pod size)
  object (signed size) = pod_object (signed_pod size)
  object (nonzero size) = pod_object (nonzero_pod size)
  object (file platform) = file_object platform
  object (tcp_stream platform) = tcp_stream_object platform
  object (option t) = option_object (object t)
  object (vector t) = vec_object (object t)
  object (boxed_slice t) = boxed_slice_object (object t)
  object (result t e) = result_object (object t) (object e)
  object (array n t) = array_object (object t) n
  object (tuple ts) = tuple_object (els ts) (objects ts)

  pub objects : (ts : Shapes) → Objects (els ts)
  objects nil = tt
  objects (cons t ts) = (object t, objects ts)

abbrev mutual
  pub format : (t : Shape) → Format (El t)
  format bool = bool_format
  format char = pod_format char_pod (λ v. is_scalar v ≡ true)
  format duration = duration_format
  format system_time = system_time_format
  format fd = fd_format
  format text = text_format (λ _. Unit)
  format (unsigned size) = pod_format (unsigned_pod size) (IsUnsigned size)
  format (signed size) = pod_format (signed_pod size) (IsSigned (256 ^ size))
  format (nonzero size) = pod_format (nonzero_pod size) (λ v. (0 < v) × IsUnsigned size v)
  format (file platform) = file_format platform
  format (tcp_stream platform) = tcp_stream_format platform
  format (option t) = option_format (format t)
  format (vector t) = sequence_format vec (format t)
  format (boxed_slice t) = sequence_format vec (format t)
  format (result t e) = result_format (format t) (format e)
  format (array n t) = array_format n (format t)
  format (tuple ts) = tuple_format (els ts) (formats ts)

  pub formats : (ts : Shapes) → Formats (els ts)
  formats nil = tt
  formats (cons t ts) = (format t, formats ts)

mutual
  pub law : (t : Shape) → Law (object t) (object t) (format t)
  law bool = bool-Law
  law char = pod-Law char_pod char-IsPod
  law duration = duration-Law
  law system_time = system_time-Law
  law fd = fd-Law
  law text = text-Law (λ _. Unit)
  law (unsigned size) = pod-Law (unsigned_pod size) (IsUnsigned-IsPod size)
  law (signed size) = pod-Law (signed_pod size) (IsSigned-IsPod size)
  law (nonzero size) = pod-Law (nonzero_pod size) (nonzero-IsPod size)
  law (file platform) = file-Law platform
  law (tcp_stream platform) = tcp_stream-Law platform
  law (option t) = option-Law (law t)
  law (vector t) = sequence-Law (law t) vec
  law (boxed_slice t) = boxed_slice-Law (law t)
  law (result t e) = result-Law (law t) (law e)
  law (array n t) = array-Law (law t) n
  law (tuple ts) = tuple-Law (els ts) (objects ts) (objects ts) (formats ts) (laws ts)

  pub laws : (ts : Shapes) → Laws (els ts) (objects ts) (objects ts) (formats ts)
  laws nil = tt
  laws (cons t ts) = (law t, laws ts)
