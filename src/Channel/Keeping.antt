-- ===== src/Channel/Keeping.antt =====
-- What every call of `sendmsg` leaves as it was, `send` of src/asynchronous.rs leaves as it was.
use crossmist.Common.{ℕ, zero, suc, Bool, Bool-cases, inl, inr, List, leb, length}
use crossmist.Serde.{Object}
use crossmist.Builtins.Sum.{Result, ok_value, err_value}
use crossmist.Unix.{max_packet_fds}
use crossmist.Unix.Socket.{Error, SendSocket}
use crossmist.Unix.Sender.{
  Sender, SendResult, sender_new, is_last, advance, packet_content, packet_rights, send_fuel,
  after_sendmsg, send_loop, send_next,
}
use crossmist.Channel.{Io, send_io, calls_again, after_write, blocking_write, send}

module _ (socket : SendSocket) (P : socket.Net → Type 0)
    (keep : (content rights : List ℕ) (dontwait : Bool) (net : socket.Net)
      → P net
      → P (socket.sendmsg content rights dontwait net).1) where
  open socket use {Net, sendmsg}

  after_sendmsg-keeps :
      (s : Sender) (t : Result ℕ Error × Net) (again : Sender → Net → SendResult × Sender × Net)
      → P t.1
      → ((s' : Sender) (net : Net) → P net → P (again s' net).2)
      → P (after_sendmsg socket s t again).2
  unfolding after_sendmsg
  after_sendmsg-keeps s (ok_value n, net) again p h = elim (Bool-cases (is_last s)) [
    | inl last ↦ rw last p
    | inr more ↦ rw more (h (advance s n) net p)
  ]
  after_sendmsg-keeps s (err_value e, net) again p h = p

  send_loop-keeps : (fuel : ℕ) (s : Sender) (net : Net) → P net → P (send_loop socket fuel s net).2
  unfolding send_loop
  send_loop-keeps zero s net p = p
  send_loop-keeps (suc fuel) s net p =
      elim (Bool-cases (leb (length (packet_rights s)) max_packet_fds)) [
        | inl fits ↦ rw fits (
            after_sendmsg-keeps s (sendmsg (packet_content s) (packet_rights s) s.dontwait net)
              (send_loop socket fuel) (keep (packet_content s) (packet_rights s) s.dontwait net p)
              (send_loop-keeps fuel))
        | inr many ↦ rw many p
      ]

  after_write-keeps :
      (is_blocking : Bool) (t : SendResult × Sender × Net)
      (again : Sender → Net → Io (Unit {0}) × Net)
      → P t.2
      → ((s : Sender) (net : Net) → P net → P (again s net).1)
      → P (after_write socket is_blocking t again).1
  unfolding after_write
  after_write-keeps is_blocking (result, s, net) again p h =
      elim (Bool-cases (calls_again is_blocking (send_io result))) [
        | inl more ↦ rw more (h s net p)
        | inr done ↦ rw done p
      ]

  blocking_write-keeps :
      (attempts : ℕ) (is_blocking : Bool) (s : Sender) (net : Net)
      → P net
      → P (blocking_write socket attempts is_blocking s net).1
  unfolding blocking_write send_next
  blocking_write-keeps zero is_blocking s net p = p
  blocking_write-keeps (suc attempts) is_blocking s net p =
      after_write-keeps is_blocking (send_next socket s net)
        (blocking_write socket attempts is_blocking) (send_loop-keeps (send_fuel s) s net p)
        (blocking_write-keeps attempts is_blocking)

  pub send-keeps :
      {T : Type 0} (o : Object T) (attempts : ℕ) (is_blocking : Bool) (value : T) (net : Net)
      → P net
      → P (send socket o attempts is_blocking value net).1
  unfolding send
  send-keeps o attempts is_blocking value net p =
      blocking_write-keeps attempts is_blocking (sender_new o value is_blocking) net p
