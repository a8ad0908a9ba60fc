-- ===== src/Unix/Receiver.antt =====
-- src/platform/unix/internals.rs, `SingleObjectReceiver`.
pub mod Gathering
pub mod Rounds
pub mod Whole
pub mod Closed
use crossmist.Common.{
  ℕ, zero, suc, ◌+◌, ◌-◌, Bool, true, false, not, ◌&&◌, Option, none, some, List, [], ◌∷◌, ◌++◌,
  length, take, drop, replicate, leb, ◌==◌, if◌then◌else◌,
}
use crossmist.Serde.{
  Serializer, Deserializer, Outcome, Panic, ok, panicked, undefined, Object, from, deserialize,
}
use crossmist.Builtins.Sum.{Result, ok_value, err_value}
use crossmist.Unix.Socket.{
  Error, unexpected_cmsg, unterminated_data, Cmsg, scm_rights, other_cmsg, Message, RecvSocket,
}
use crossmist.Unix.{max_packet_size}

-- `struct SingleObjectReceiver`, without the socket
pub record Receiver : Type 0 where
  pub buffer : List ℕ
  pub data_pos : ℕ
  pub fds : List ℕ
  pub dontwait : Bool
  pub terminated : Bool

-- `SingleObjectReceiver::new`
abbrev pub receiver_new : Bool → Receiver
receiver_new blocking = record {
  buffer = [];
  data_pos = 0;
  fds = [];
  dontwait = not blocking;
  terminated = false;
}

-- `Vec::resize(len, 0)`
unfoldable pub resize : ℕ → List ℕ → List ℕ
resize len items = take len items ++ replicate (len - length items) 0

-- What the kernel leaves in `buffer[pos..]` when it has written `chunk` there.
unfoldable pub overwrite : ℕ → List ℕ → List ℕ → List ℕ
overwrite pos chunk items = take pos items ++ (chunk ++ drop (pos + length chunk) items)

-- `self.fds.extend(rights)` for each control message, up to one of another kind.
unfoldable pub extend_fds : List Cmsg → List ℕ → Bool × List ℕ
extend_fds [] fds = (true, fds)
extend_fds (scm_rights rights ∷ cmsgs) fds = extend_fds cmsgs (fds ++ rights)
extend_fds (other_cmsg ∷ cmsgs) fds = (false, fds)

-- What `recv_next` ends in. `misused` is its failed assertion, `receiver_panicked` and
-- `receiver_undefined` come from the deserialization; `out_of_fuel` has no counterpart in the code.
pub data RecvResult (T : Type 0) : Type 0 where
  received : Option T → RecvResult T
  failed : Error → RecvResult T
  receiver_panicked : Panic → RecvResult T
  misused receiver_undefined out_of_fuel : RecvResult T

-- The end of `recv_next`: the object is deserialized from what has been gathered.
unfoldable pub received_object : {T : Type 0} → Outcome (T × Deserializer) → RecvResult T
received_object (ok (v, d)) = received (some v)
received_object (panicked p) = receiver_panicked p
received_object undefined = receiver_undefined

-- The fields that `Serializer { data, fds }` is made of on Unix.
abbrev pub gathered : List ℕ → List ℕ → Serializer
gathered bytes fds = record { bytes = bytes; fds = fds; handles = []; sockets = [] }

module _ {T : Type 0} (o : Object T) where
  -- `self.buffer.truncate(self.data_pos)`, and the two `std::mem::take`
  unfoldable pub finish : Receiver → RecvResult T × Receiver
  unfolding received_object
  finish r = (
    received_object (deserialize o (from (gathered (take r.data_pos r.buffer) r.fds))),
    record r { buffer = []; fds = []; terminated = true },
  )

  module _ (socket : RecvSocket) where
    open socket use {Net, recvmsg}

    abbrev pub Recv : Type 0
    Recv = RecvResult T × Receiver × Net

    -- The loop after the descriptors have been taken over: `bytes` is `message.bytes`.
    unfoldable pub after_fds : List ℕ → Receiver → Net → (Receiver → Net → Recv) → Recv
    unfolding finish
    after_fds [] r net again =
        if r.data_pos == 0 && length r.fds == 0
        then (received none, r, net)
        else (failed unterminated_data, r, net)
    after_fds (marker ∷ payload) r net again =
        let r' = record r {
          buffer = overwrite r.data_pos payload r.buffer;
          data_pos = r.data_pos + length payload;
        } in
        let more = again r' net in
        if marker == 1 then (let (result, r'') = finish r' in (result, r'', net)) else more

    unfoldable pub after_cmsgs :
        Bool × List ℕ → List ℕ → Receiver → Net → (Receiver → Net → Recv) → Recv
    unfolding after_fds
    after_cmsgs (false, fds) content r net again =
        (failed unexpected_cmsg, record r { fds = fds }, net)
    after_cmsgs (true, fds) content r net again =
        after_fds content (record r { fds = fds }) net again

    -- What follows `recvmsg(…)?`.
    unfoldable pub after_recvmsg :
        Receiver → Result Message Error × Net → (Receiver → Net → Recv) → Recv
    unfolding after_cmsgs
    after_recvmsg r (ok_value message, net') again =
        after_cmsgs (extend_fds message.cmsgs r.fds) message.content r net' again
    after_recvmsg r (err_value e, net') again = (failed e, r, net')

    -- The loop of `recv_next`: the two slices take `max_packet_size` bytes together.
    unfoldable pub recv_loop : ℕ → Receiver → Net → Recv
    unfolding after_recvmsg
    recv_loop zero r net = (out_of_fuel, r, net)
    recv_loop (suc fuel) r net =
        after_recvmsg (record r { buffer = resize (r.data_pos + max_packet_size - 1) r.buffer })
          (recvmsg max_packet_size r.dontwait net) (recv_loop fuel)

    -- `SingleObjectReceiver::recv_next`
    unfoldable pub recv_next : ℕ → Receiver → Net → Recv
    unfolding recv_loop
    recv_next fuel r net = if r.terminated then (misused, r, net) else recv_loop fuel r net
