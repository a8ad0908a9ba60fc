-- ===== src/Windows.antt =====
-- src/platform/windows/internals.rs, `serialize_with_handles` and `deserialize_with_handles`:
-- handles in flight are kept open in the broker, a process that does nothing else. The functions are
-- taken from behind their `expect` that `HANDLE_BROKER` is set.
pub mod Broker
pub mod Entry
pub mod Joining
pub mod Launching
pub mod Pairing
pub mod Remote
pub mod Spawning
pub mod Stream
pub mod Transfer
use crossmist.Common.{ℕ, ◌^◌, ◌<◌, ◌≡◌, ◌≢◌, ◌⊎◌, Option, none, some, List, [], ◌∷◌}
use crossmist.Serde.{
  Serializer, Deserializer, Outcome, ok, and_then, Object, new, from, write, get_rest, serialize,
  deserialize,
}
use crossmist.Builtins.Sum.{Result, ok_value, err_value}
use crossmist.Builtins.Scalars.{IsUnsigned, usize_size}
use crossmist.Builtins.Sequence.{usize_object, vec_object}
use crossmist.Unix.Socket.{Error}

-- The broker's handles: which open file or socket each of them names, and `DuplicateHandle` into the
-- broker and, with `DUPLICATE_CLOSE_SOURCE`, out of it.
pub record HandleBroker : Type 1 where
  pub Table : Type 0
  pub holds : Table → ℕ → Option ℕ
  pub copy : ℕ → Table → Result ℕ Error × Table
  pub steal : ℕ → Table → Result ℕ Error × Table
  pub copy_lem :
      (file : ℕ) (t : Table)
      → ((remote : ℕ) × (t' : Table) × (copy file t ≡ (ok_value remote, t'))
          × IsUnsigned usize_size remote
          × (holds t remote ≡ none)
          × (holds t' remote ≡ some file)
          × ((other : ℕ) → other ≢ remote → holds t' other ≡ holds t other))
        ⊎ ((e : Error) × (t' : Table) × (copy file t ≡ (err_value e, t')))
  pub steal_lem :
      (remote file : ℕ) (t : Table)
      → holds t remote ≡ some file
      → ((t' : Table) × (steal remote t ≡ (ok_value file, t'))
          × ((other : ℕ) → other ≢ remote → holds t' other ≡ holds t other))
        ⊎ ((e : Error) × (t' : Table) × (steal remote t ≡ (err_value e, t')))

abbrev pub remotes_object : Object (List ℕ)
remotes_object = vec_object usize_object

module _ {Table : Type 0} where
  unfoldable pub collected : ℕ → Result (List ℕ) Error × Table → Result (List ℕ) Error × Table
  collected x (ok_value xs, t) = (ok_value (x ∷ xs), t)
  collected x (err_value e, t) = (err_value e, t)

  unfoldable pub and_rest :
      Result ℕ Error × Table
      → (Table → Result (List ℕ) Error × Table)
      → Result (List ℕ) Error × Table
  unfolding collected
  and_rest (ok_value x, t) rest = collected x (rest t)
  and_rest (err_value e, t) rest = (err_value e, t)

  -- `.map(f).collect::<Result<Vec<_>>>()`: the first error ends it.
  unfoldable pub try_each :
      (ℕ → Table → Result ℕ Error × Table) → List ℕ → Table → Result (List ℕ) Error × Table
  unfolding and_rest
  try_each f [] t = (ok_value [], t)
  try_each f (x ∷ xs) t = and_rest (f x t) (try_each f xs)

module _ (broker : HandleBroker) where
  open broker use {Table, copy, steal}

  -- `s1`: the remote handles, the remote sockets and then the bytes.
  unfoldable pub packed : Serializer → List ℕ → List ℕ → List ℕ
  packed s handles sockets =
      (write s.bytes
        (serialize remotes_object sockets (serialize remotes_object handles new))).bytes

  unfoldable pub with_sockets :
      Serializer → List ℕ → Result (List ℕ) Error × Table → Result (List ℕ) Error × Table
  unfolding packed
  with_sockets s handles (ok_value sockets, t) = (ok_value (packed s handles sockets), t)
  with_sockets s handles (err_value e, t) = (err_value e, t)

  unfoldable pub with_handles :
      Serializer → Result (List ℕ) Error × Table → Result (List ℕ) Error × Table
  unfolding with_sockets
  with_handles s (ok_value handles, t) = with_sockets s handles (try_each copy s.sockets t)
  with_handles s (err_value e, t) = (err_value e, t)

  unfoldable pub serialize_with_handles :
      {T : Type 0} → Object T → T → Table → Result (List ℕ) Error × Table
  unfolding with_handles
  serialize_with_handles o value t =
      let s = serialize o value new in with_handles s (try_each copy s.handles t)

  module _ {T : Type 0} (o : Object T) where
    unfoldable pub got_sockets :
        List ℕ → Result (List ℕ) Error × Table → Deserializer → Outcome (Result T Error × Table)
    got_sockets handles (ok_value sockets, t) d =
        and_then
          (deserialize o
            (from (record { bytes = get_rest d; fds = []; handles = handles; sockets = sockets })))
          λ (v, d'). ok (ok_value v, t)
    got_sockets handles (err_value e, t) d = ok (err_value e, t)

    unfoldable pub got_handles :
        Result (List ℕ) Error × Table → Deserializer → Outcome (Result T Error × Table)
    unfolding got_sockets
    got_handles (ok_value handles, t) d =
        and_then (deserialize remotes_object d)
          λ (remotes, d'). got_sockets handles (try_each steal remotes t) d'
    got_handles (err_value e, t) d = ok (err_value e, t)

    unfoldable pub deserialize_with_handles : List ℕ → Table → Outcome (Result T Error × Table)
    unfolding got_handles
    deserialize_with_handles serialized t =
        and_then (deserialize remotes_object (from (record new { bytes = serialized })))
          λ (remotes, d). got_handles (try_each steal remotes t) d
