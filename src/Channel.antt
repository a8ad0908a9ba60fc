-- ===== src/Channel.antt =====
-- src/asynchronous.rs, the channels on Unix: `Sender::send`, `Receiver::recv`, `Duplex::request`, with
-- the loops of `blocking_write` and `blocking_read` that retry a call that would block. The blocking
-- channels of src/blocking.rs are those with `is_blocking` true.
pub mod Sending
pub mod Receiving
pub mod Delivery
pub mod Patience
pub mod Outcomes
pub mod Requests
pub mod Blocking
pub mod Keeping
use crossmist.Common.{
  ℕ, zero, suc, Bool, true, false, not, ◌&&◌, Option, none, some, List, [], length, if◌then◌else◌,
}
use crossmist.Serde.{Object, Panic}
use crossmist.Unix.Socket.{Error, would_block, unexpected_eof, SendSocket, RecvSocket}
use crossmist.Unix.Sender
use crossmist.Unix.Sender.{Sender, SendResult, sender_new, send_next}
use crossmist.Unix.Receiver
use crossmist.Unix.Receiver.{Receiver, RecvResult, receiver_new, recv_next}

-- `Blocking`, `Tokio` and `Smol`
pub data Runtime : Type 0 where
  blocking tokio smol : Runtime

-- What a channel operation ends in; `gave_up` has no counterpart in the code: the attempts that the
-- model makes are used up.
pub data Io (T : Type 0) : Type 0 where
  io_ok : T → Io T
  io_err : Error → Io T
  io_panic io_undefined gave_up : Io T

unfoldable pub send_io : SendResult → Io (Unit {0})
send_io SendResult.finished = io_ok tt
send_io SendResult.push_refused = io_panic
send_io SendResult.out_of_fuel = gave_up
send_io (SendResult.failed e) = io_err e

unfoldable pub recv_io : {T : Type 0} → RecvResult T → Io (Option T)
recv_io (RecvResult.received v) = io_ok v
recv_io (RecvResult.failed e) = io_err e
recv_io (RecvResult.receiver_panicked p) = io_panic
recv_io RecvResult.misused = io_panic
recv_io RecvResult.receiver_undefined = io_undefined
recv_io RecvResult.out_of_fuel = gave_up

unfoldable pub is_would_block : {T : Type 0} → Io T → Bool
is_would_block (io_err would_block) = true
is_would_block (io_err _) = false
is_would_block (io_ok v) = false
is_would_block io_panic = false
is_would_block io_undefined = false
is_would_block gave_up = false

-- A blocking stream calls the function once; an asynchronous one calls it again when it would block.
unfoldable pub calls_again : {T : Type 0} → Bool → Io T → Bool
unfolding is_would_block
calls_again is_blocking result = not is_blocking && is_would_block result

module _ (socket : SendSocket) where
  unfoldable pub after_write :
      Bool
      → SendResult × Sender × socket.Net
      → (Sender → socket.Net → Io (Unit {0}) × socket.Net)
      → Io (Unit {0}) × socket.Net
  unfolding calls_again send_io
  after_write is_blocking (result, s, net) again =
      let more = again s net in
      if calls_again is_blocking (send_io result) then more else (send_io result, net)

  -- `blocking_write(|| sender.send_next())`
  unfoldable pub blocking_write : ℕ → Bool → Sender → socket.Net → Io (Unit {0}) × socket.Net
  unfolding after_write
  blocking_write zero is_blocking s net = (gave_up, net)
  blocking_write (suc attempts) is_blocking s net =
      after_write is_blocking (send_next socket s net) (blocking_write attempts is_blocking)

  -- `Sender::send` and `Duplex::send`
  unfoldable pub send :
      {T : Type 0} → Object T → ℕ → Bool → T → socket.Net → Io (Unit {0}) × socket.Net
  unfolding blocking_write sender_new
  send o attempts is_blocking value net =
      blocking_write attempts is_blocking (sender_new o value is_blocking) net

module _ {T : Type 0} (o : Object T) (socket : RecvSocket) where
  unfoldable pub after_read :
      Bool
      → RecvResult T × Receiver × socket.Net
      → (Receiver → socket.Net → Io (Option T) × socket.Net)
      → Io (Option T) × socket.Net
  unfolding calls_again recv_io
  after_read is_blocking (result, r, net) again =
      let more = again r net in
      if calls_again is_blocking (recv_io result) then more else (recv_io result, net)

  -- Each round of `recv_next` takes a packet.
  abbrev pub recv_fuel : socket.Net → ℕ
  recv_fuel net = suc (length (socket.incoming net))

  -- `blocking_read(|| receiver.recv_next())`
  unfoldable pub blocking_read : ℕ → Bool → Receiver → socket.Net → Io (Option T) × socket.Net
  unfolding after_read
  blocking_read zero is_blocking r net = (gave_up, net)
  blocking_read (suc attempts) is_blocking r net =
      after_read is_blocking (recv_next o socket (recv_fuel net) r net)
        (blocking_read attempts is_blocking)

  -- `Receiver::recv` and `Duplex::recv`
  unfoldable pub recv : ℕ → Bool → socket.Net → Io (Option T) × socket.Net
  unfolding blocking_read
  recv attempts is_blocking net = blocking_read attempts is_blocking (receiver_new is_blocking) net

-- `ok_or_else(…)` on the answer to a request
unfoldable pub response : {T : Type 0} → Io (Option T) → Io T
response (io_ok (some v)) = io_ok v
response (io_ok none) = io_err unexpected_eof
response (io_err e) = io_err e
response io_panic = io_panic
response io_undefined = io_undefined
response gave_up = gave_up

module _ {S R : Type 0} (o : Object S) (o' : Object R) (out : SendSocket) (back : RecvSocket) where
  unfoldable pub after_send :
      ℕ → Bool → Io (Unit {0}) × out.Net → back.Net → Io R × out.Net × back.Net
  unfolding response
  after_send attempts is_blocking (io_ok _, net) net' =
      let (result, net'') = recv o' back attempts is_blocking net' in (response result, net, net'')
  after_send attempts is_blocking (io_err e, net) net' = (io_err e, net, net')
  after_send attempts is_blocking (io_panic, net) net' = (io_panic, net, net')
  after_send attempts is_blocking (io_undefined, net) net' = (io_undefined, net, net')
  after_send attempts is_blocking (gave_up, net) net' = (gave_up, net, net')

  -- `Duplex::request`: the two directions of a socket are independent.
  unfoldable pub request : ℕ → Bool → S → out.Net → back.Net → Io R × out.Net × back.Net
  unfolding after_send
  request attempts is_blocking value net net' =
      after_send attempts is_blocking (send out o attempts is_blocking value net) net'
