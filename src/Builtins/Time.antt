-- ===== src/Builtins/Time.antt =====
-- src/builtins.rs, `Duration` and `SystemTime`.
use crossmist.Common.{
  ℕ, zero, suc, ◌+◌, ◌*◌, ◌/◌, ◌%◌, ◌^◌, ◌<◌, ◌≡◌, Bool, true, false, [], ◌∷◌, arith, ltb,
  if◌then◌else◌,
}
use crossmist.Serde.{Outcome, Object, ok, panicked, duration_overflow, time_overflow}
use crossmist.Serde.Format.{Format}
use crossmist.Serde.Law.{Law}
use crossmist.Builtins.Pod.{pod_object, pod_format, pod-Law}
use crossmist.Builtins.Scalars.{unsigned_pod, IsUnsigned, IsUnsigned-IsPod, ℤ, pos, negsuc}
use crossmist.Builtins.Sum.{bool_object, bool_format, bool-Law}
use crossmist.Builtins.Tuple.{Tuple, tuple_object, tuple_format, tuple-Law}
use crossmist.Builtins.Wrapper.{wrapper_object, wrapper_format, wrapper-Law}

abbrev pub nanos_per_sec : ℕ
nanos_per_sec = 1_000_000_000

-- `std::time::Duration`: 64 bits of seconds, and nanoseconds below a second.
pub record Duration : Type 0 where
  pub secs : ℕ
  pub nanos : ℕ

pub record IsDuration (d : Duration) : Type 0 where
  pub secs_fit : d.secs < 2 ^ 64
  pub below_second : d.nanos < nanos_per_sec

unfoldable pub as_nanos : Duration → ℕ
as_nanos d = d.secs * nanos_per_sec + d.nanos

abbrev duration_of : ℕ → Duration
duration_of n = record { secs = n / nanos_per_sec; nanos = n % nanos_per_sec }

-- `Duration::from_nanos_u128` panics past `Duration::MAX`.
unfoldable pub from_nanos_u128 : ℕ → Outcome Duration
from_nanos_u128 n =
    if ltb (n / nanos_per_sec) (2 ^ 64) then ok (duration_of n) else panicked duration_overflow

from_nanos_u128-as_nanos : (d : Duration) → IsDuration d → from_nanos_u128 (as_nanos d) ≡ ok d
unfolding from_nanos_u128 as_nanos
from_nanos_u128-as_nanos d h = ground arith

as_nanos-lt : (d : Duration) → IsDuration d → as_nanos d < 256 ^ 16
unfolding as_nanos
as_nanos-lt d h = omega arith

abbrev pub u128_object : Object ℕ
u128_object = pod_object (unsigned_pod 16)

abbrev pub duration_object : Object Duration
duration_object = wrapper_object as_nanos from_nanos_u128 u128_object

abbrev pub duration_format : Format Duration
duration_format =
    wrapper_format as_nanos (λ d. d) IsDuration (pod_format (unsigned_pod 16) (IsUnsigned 16))

pub duration-Law : Law duration_object duration_object duration_format
duration-Law =
    wrapper-Law as_nanos from_nanos_u128 (λ d. d) IsDuration
      (pod-Law (unsigned_pod 16) (IsUnsigned-IsPod 16)) from_nanos_u128-as_nanos

-- `SystemTime` on a 64-bit Unix, as nanoseconds since the epoch: the seconds are an `i64`.
abbrev pub time_limit : ℕ
time_limit = 2 ^ 63 * nanos_per_sec

abbrev pub IsTime : ℤ → Type 0
IsTime (pos n) = n < time_limit
IsTime (negsuc n) = n < time_limit

abbrev pub Parts : Type 0
Parts = Tuple (Bool ∷ Duration ∷ [])

-- `duration_since(UNIX_EPOCH)`: the distance to the epoch, and on which side of it.
unfoldable pub time_parts : ℤ → Parts
time_parts (pos n) = (false, (duration_of n, tt))
time_parts (negsuc n) = (true, (duration_of (n + 1), tt))

unfoldable pub before_epoch : ℕ → Outcome ℤ
before_epoch zero = ok (pos 0)
before_epoch (suc n) = if ltb n time_limit then ok (negsuc n) else panicked time_overflow

unfoldable pub time_of_parts : Parts → Outcome ℤ
unfolding before_epoch as_nanos
time_of_parts (true, (d, _)) = before_epoch (as_nanos d)
time_of_parts (false, (d, _)) =
    if ltb (as_nanos d) time_limit then ok (pos (as_nanos d)) else panicked time_overflow

abbrev pub parts_object : Object Parts
parts_object = tuple_object (Bool ∷ Duration ∷ []) (bool_object, (duration_object, tt))

abbrev pub parts_format : Format Parts
parts_format = tuple_format (Bool ∷ Duration ∷ []) (bool_format, (duration_format, tt))

parts-Law : Law parts_object parts_object parts_format
parts-Law =
    tuple-Law (Bool ∷ Duration ∷ []) (bool_object, (duration_object, tt))
      (bool_object, (duration_object, tt)) (bool_format, (duration_format, tt))
      (bool-Law, (duration-Law, tt))

abbrev pub system_time_object : Object ℤ
system_time_object = wrapper_object time_parts time_of_parts parts_object

abbrev pub system_time_format : Format ℤ
system_time_format = wrapper_format time_parts (λ t. t) IsTime parts_format

as_nanos-duration_of : (n : ℕ) → as_nanos (duration_of n) ≡ n
unfolding as_nanos
as_nanos-duration_of n = omega arith

time_of_parts-time_parts : (t : ℤ) → IsTime t → time_of_parts (time_parts t) ≡ ok t
time_of_parts-time_parts (pos n) h =
    unfold time_of_parts time_parts in ground (arith, as_nanos-duration_of n)
time_of_parts-time_parts (negsuc n) h =
    let e : (n + 1) / nanos_per_sec * nanos_per_sec + (n + 1) % nanos_per_sec ≡ suc n =
      omega arith in
    unfold time_of_parts time_parts in rw (e, before_epoch) (ground arith)

pub system_time-Law : Law system_time_object system_time_object system_time_format
system_time-Law =
    wrapper-Law time_parts time_of_parts (λ t. t) IsTime parts-Law time_of_parts-time_parts
