-- ===== src/Channel/Blocking.antt =====
-- src/blocking.rs: the blocking channels are the asynchronous ones over a stream that calls the
-- function once, and `block_on` polls the future once.
use crossmist.Common.{ℕ, suc, ◌≡◌, refl, true, Option}
use crossmist.Serde.{Object}
use crossmist.Unix.Socket.{SendSocket, RecvSocket}
use crossmist.Unix.Sender.{sender_new, send_next}
use crossmist.Unix.Receiver.{receiver_new, recv_next}
use crossmist.Channel.{
  Io, send_io, recv_io, calls_again, after_write, blocking_write, send, after_read, recv_fuel,
  blocking_read, recv,
}

-- `blocking_write` and `blocking_read` of `Blocking`: `f()`
abbrev pub once {ℓ} : {A : Type ℓ} → A → A
once result = result

-- `Sender::send` of src/blocking.rs
unfoldable pub blocking_send :
    (socket : SendSocket) {T : Type 0} → Object T → T → socket.Net → Io (Unit {0}) × socket.Net
unfolding send_io
blocking_send socket o value net =
    let (result, s, net') = once (send_next socket (sender_new o value true) net) in
    (send_io result, net')

-- `Receiver::recv` of src/blocking.rs
unfoldable pub blocking_recv :
    {T : Type 0} → Object T → (socket : RecvSocket) → socket.Net → Io (Option T) × socket.Net
unfolding recv_io
blocking_recv o socket net =
    let (result, r, net') =
      once (recv_next o socket (recv_fuel o socket net) (receiver_new true) net) in
    (recv_io result, net')

-- The blocking channels send and receive as the asynchronous ones with a blocking stream do, however
-- many attempts these may make: there is one attempt, whatever the kernel answers.
pub blocking-channels :
    {T : Type 0} (o : Object T) (out : SendSocket) (back : RecvSocket) (attempts : ℕ) (value : T)
    (net : out.Net) (net' : back.Net)
    → (send out o (suc attempts) true value net ≡ blocking_send out o value net)
      × (recv o back (suc attempts) true net' ≡ blocking_recv o back net')
unfolding send blocking_write after_write calls_again blocking_send recv blocking_read after_read
    blocking_recv
blocking-channels o out back attempts value net net' = (refl, refl)
