-- ===== src/Serde.antt =====
-- src/serde.rs: the serializer, the deserializer, and the interface that a serializable type
-- implements.
--
-- A byte is a number, and so is an operating-system resource. Which of the three resource lists
-- exist is decided by `#[cfg(unix)]` and `#[cfg(windows)]`; the model keeps all three, and each
-- implementation touches those of its platform.
pub mod Format
pub mod Law
pub mod Reading
pub mod RoundTrip
use crossmist.Common.{ℕ, ◌+◌, ◌-◌, List, [], ◌∷◌, ◌++◌, length, take, drop, leb, if◌then◌else◌}

-- `struct Serializer`; `bytes` is its field `data`.
pub record Serializer : Type 0 where
  pub bytes : List ℕ
  pub fds : List ℕ
  pub handles : List ℕ
  pub sockets : List ℕ

-- `struct Deserializer`; the resource iterators are the lists of what they have still to yield.
pub record Deserializer : Type 0 where
  pub bytes : List ℕ
  pub fds : List ℕ
  pub handles : List ℕ
  pub sockets : List ℕ
  pub pos : ℕ

-- The panics of the code.
pub data Panic : Type 0 where
  out_of_range mismatched_fd mismatched_handle mismatched_socket unexpected_variant : Panic
  duration_overflow time_overflow : Panic

-- What a call ends in. `undefined` is undefined behaviour: the caller has broken the contract of an
-- `unsafe` function.
pub data Outcome {ℓ} (A : Type ℓ) : Type ℓ where
  ok : A → Outcome A
  panicked : Panic → Outcome A
  undefined : Outcome A

abbrev pub and_then {ℓ κ} : {A : Type ℓ} {B : Type κ} → Outcome A → (A → Outcome B) → Outcome B
and_then (ok a) f = f a
and_then (panicked p) f = panicked p
and_then undefined f = undefined

-- A function that takes `&mut Deserializer`.
abbrev pub Reader {ℓ} : Type ℓ → Type ℓ
Reader A = Deserializer → Outcome (A × Deserializer)

abbrev pub pure {ℓ} : {A : Type ℓ} → A → Reader A
pure a d = ok (a, d)

module _ {ℓ κ} {A : Type ℓ} {B : Type κ} where
  infixl 1 ◌>>=◌
  abbrev pub ◌>>=◌ : Reader A → (A → Reader B) → Reader B
  ◌>>=◌ p f d = and_then (p d) λ (a, d'). f a d'

-- `Serializer::new`
abbrev pub new : Serializer
new = record { bytes = []; fds = []; handles = []; sockets = [] }

-- `Serializer::write`
unfoldable pub write : List ℕ → Serializer → Serializer
write chunk s = record s { bytes = s.bytes ++ chunk }

-- `Deserializer::read`. The slice `data[pos - count..pos]` panics if it ends past the data.
unfoldable pub read : ℕ → Reader (List ℕ)
read count d =
    let pos' = d.pos + count in
    if leb pos' (length d.bytes)
    then ok (take count (drop (pos' - count) d.bytes), record d { pos = pos' })
    else panicked out_of_range

-- `Deserializer::get_rest`
unfoldable pub get_rest : Deserializer → List ℕ
get_rest d = drop d.pos d.bytes

-- `impl From<Serializer> for Deserializer`
abbrev pub from : Serializer → Deserializer
from s = record { bytes = s.bytes; fds = s.fds; handles = s.handles; sockets = s.sockets; pos = 0 }

-- `trait Object`
pub record Object (T : Type 0) : Type 0 where
  pub serialize_self : T → Serializer → Serializer
  pub serialize_slice : List T → Serializer → Serializer
  pub deserialize_self : Reader T

-- The default body of `Object::serialize_slice`.
unfoldable pub serialize_each :
    {T : Type 0} → (T → Serializer → Serializer) → List T → Serializer → Serializer
serialize_each f [] s = s
serialize_each f (x ∷ xs) s = serialize_each f xs (f x s)

-- `Serializer::serialize`
abbrev pub serialize : {T : Type 0} → Object T → T → Serializer → Serializer
serialize o value s = o.serialize_self value s

-- `Deserializer::deserialize`
abbrev pub deserialize : {T : Type 0} → Object T → Reader T
deserialize o = o.deserialize_self
