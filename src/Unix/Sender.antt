-- ===== src/Unix/Sender.antt =====
-- src/platform/unix/internals.rs, `SingleObjectSender`.
pub mod Splitting
pub mod Sends
use crossmist.Common.{
  ℕ, zero, suc, ◌+◌, ◌-◌, Bool, true, false, not, ◌&&◌, List, ◌∷◌, length, take, drop, min, leb,
  ◌==◌, if◌then◌else◌,
}
use crossmist.Serde.{Serializer, Object, new, serialize}
use crossmist.Builtins.Sum.{Result, ok_value, err_value}
use crossmist.Unix.Socket.{Error, SendSocket}
use crossmist.Unix.{max_packet_size, max_packet_fds}

-- `struct SingleObjectSender`, without the socket
pub record Sender : Type 0 where
  pub fds : List ℕ
  pub buffer : List ℕ
  pub data_pos : ℕ
  pub fds_pos : ℕ
  pub dontwait : Bool

-- `SingleObjectSender::new`
unfoldable pub sender_new : {T : Type 0} → Object T → T → Bool → Sender
sender_new o value blocking =
    let s = serialize o value new in
    record { fds = s.fds; buffer = s.bytes; data_pos = 0; fds_pos = 0; dontwait = not blocking }

-- `items[from..to]`, for `from` at most `to` and `to` at most the length
abbrev pub slice : ℕ → ℕ → List ℕ → List ℕ
slice from to items = take (to - from) (drop from items)

module _ (s : Sender) where
  unfoldable pub buffer_end : ℕ
  buffer_end = min (length s.buffer) (s.data_pos + max_packet_size - 1)

  unfoldable pub fds_end : ℕ
  fds_end = min (length s.fds) (s.fds_pos + max_packet_fds)

  unfoldable pub is_last : Bool
  is_last = buffer_end == length s.buffer && fds_end == length s.fds

  -- The marker byte and the payload
  unfoldable pub packet_content : List ℕ
  unfolding is_last
  packet_content = (if is_last then 1 else 0) ∷ slice s.data_pos buffer_end s.buffer

  unfoldable pub packet_rights : List ℕ
  packet_rights = slice s.fds_pos fds_end s.fds

  -- The sender after `sendmsg` has returned `n_written`
  unfoldable pub advance : ℕ → Sender
  advance n_written = record s { data_pos = s.data_pos + (n_written - 1); fds_pos = fds_end }

-- The rounds that are enough: every packet but the last moves one of the positions on.
unfoldable pub send_fuel : Sender → ℕ
send_fuel s = suc (length s.buffer - s.data_pos + (length s.fds - s.fds_pos))

-- What `send_next` ends in. `push_refused` is its failed assertion; `out_of_fuel` has no
-- counterpart in the code.
pub data SendResult : Type 0 where
  finished push_refused out_of_fuel : SendResult
  failed : Error → SendResult

module _ (socket : SendSocket) where
  open socket use {Net, sendmsg}

  -- What follows `sendmsg(…)?`; `again` is the next round of the loop.
  unfoldable pub after_sendmsg :
      Sender
      → Result ℕ Error × Net
      → (Sender → Net → SendResult × Sender × Net)
      → SendResult × Sender × Net
  after_sendmsg s (ok_value n, net') again =
      let more = again (advance s n) net' in
      if is_last s then (finished, advance s n, net') else more
  after_sendmsg s (err_value e, net') again = (failed e, s, net')

  -- `SingleObjectSender::send_next`. The control buffer has room for `max_packet_fds` descriptors,
  -- and `push` returns false if they do not fit.
  unfoldable pub send_loop : ℕ → Sender → Net → SendResult × Sender × Net
  unfolding after_sendmsg
  send_loop zero s net = (out_of_fuel, s, net)
  send_loop (suc fuel) s net =
      let sending =
        after_sendmsg s (sendmsg (packet_content s) (packet_rights s) s.dontwait net)
          (send_loop fuel) in
      if leb (length (packet_rights s)) max_packet_fds then sending else (push_refused, s, net)

  unfoldable pub send_next : Sender → Net → SendResult × Sender × Net
  unfolding send_loop send_fuel
  send_next s net = send_loop (send_fuel s) s net
