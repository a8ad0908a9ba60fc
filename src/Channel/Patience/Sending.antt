-- ===== src/Channel/Patience/Sending.antt =====
-- `send` with enough attempts.
use crossmist.Common.{
  ℕ, zero, suc, ◌≤◌, ◌<◌, ◌≡◌, ◌≢◌, ◌⊎◌, inl, inr, refl, ap, Bool, true, false, List, ◌++◌, arith,
  Bool-cases, if◌then◌else◌,
}
use crossmist.Serde.{Object}
use crossmist.Serde.Format.{Format}
use crossmist.Serde.Law.{Law}
use crossmist.Builtins.Sum.{Result, ok_value, err_value}
use crossmist.Unix.Socket.{Error, would_block, Packet, SendSocket}
use crossmist.Unix.Wire.{Splits}
use crossmist.Unix.Sender.{
  Sender, SendResult, finished, push_refused, out_of_fuel, failed, is_last, packet_content,
  packet_rights, advance, after_sendmsg, send_loop, send_fuel, send_next, sender_new,
}
use crossmist.Unix.Sender.Splitting.{IsReady}
use crossmist.Unix.Sender.Sends.{Sends, send_next-Sends}
use crossmist.Channel.{
  Io, io_ok, io_err, io_panic, io_undefined, gave_up, send_io, is_would_block, calls_again,
  after_write, blocking_write, send,
}
use crossmist.Channel.Sending.{Puts, send-Puts, sender_new-IsReady}
use crossmist.Channel.Patience.{SendPatience, would_block-of}

module _ (socket : SendSocket) (patient : SendPatience socket) where
  open socket use {Net, sendmsg, sent}
  open patient use {patience, refuses, keeps}

  -- A call that would block has used some of the patience.
  abbrev Tires : Net → SendResult × Sender × Net → Type 0
  Tires net (result, s, net') =
      (patience net' ≤ patience net) × (result ≡ failed would_block → patience net' < patience net)

  after_sendmsg-Tires :
      (s : Sender) (net : Net) (out : Result ℕ Error × Net)
      (again : Sender → Net → SendResult × Sender × Net)
      → patience out.1 ≤ patience net
      → (out.0 ≡ err_value would_block → patience out.1 < patience net)
      → ((s' : Sender) (net' : Net) → Tires net' (again s' net'))
      → Tires net (after_sendmsg socket s out again)
  unfolding after_sendmsg
  after_sendmsg-Tires s net (ok_value n, net') again le lt h =
      let next = h (advance s n) net' in
      elim (Bool-cases (is_last s)) [
        | inl at_end ↦ rw at_end (le, λ e. cc)
        | inr not_end ↦ rw not_end (omega (arith, next.0), λ e. omega (arith, next.1 e))
      ]
  after_sendmsg-Tires s net (err_value x, net') again le lt h =
      (le, λ e. lt (let same : x ≡ would_block = cc in ap err_value same))

  if-Tires :
      (b : Bool) (net : Net) (out out' : SendResult × Sender × Net)
      → Tires net out
      → Tires net out'
      → Tires net (if b then out else out')
  if-Tires true net out out' h h' = h
  if-Tires false net out out' h h' = h'

  send_loop-Tires : (fuel : ℕ) (s : Sender) (net : Net) → Tires net (send_loop socket fuel s net)
  unfolding send_loop
  send_loop-Tires zero s net = (omega arith, λ e. cc)
  send_loop-Tires (suc fuel) s net =
      let answer = sendmsg (packet_content s) (packet_rights s) s.dontwait net in
      if-Tires _ net _ (push_refused, s, net)
        (after_sendmsg-Tires s net answer (send_loop socket fuel)
          (keeps (packet_content s) (packet_rights s) s.dontwait net answer.1 answer.0 refl)
          (λ e.
            refuses (packet_content s) (packet_rights s) s.dontwait net answer.1
              (ap (λ (a : Result ℕ Error). (a, answer.1)) e))
          (send_loop-Tires fuel))
        (omega arith, λ e. cc)

  send_next-Tires : (s : Sender) (net : Net) → Tires net (send_next socket s net)
  unfolding send_next
  send_next-Tires s net = send_loop-Tires (send_fuel s) s net

  -- The retries after a call.
  after_write-ends :
      (is_blocking : Bool) (s : Sender) (net : Net) (out : SendResult × Sender × Net)
      (again : Sender → Net → Io (Unit {0}) × Net)
      → Sends socket s net out
      → Tires net out
      → ((s' : Sender) (net' : Net)
          → IsReady s'
          → patience net' < patience net
          → (again s' net').0 ≢ gave_up)
      → (after_write socket is_blocking out again).0 ≢ gave_up
  unfolding after_write send_io calls_again is_would_block
  after_write-ends true s net (finished, s', net') again sends tires h = λ e. cc
  after_write-ends false s net (finished, s', net') again sends tires h = λ e. cc
  after_write-ends true s net (failed x, s', net') again sends tires h = λ e. cc
  after_write-ends false s net (failed x, s', net') again (ps, e, ready, k) tires h =
      elim (Bool-cases (is_would_block {T = Unit {0}} (io_err x))) [
        | inl blocks ↦
            rw blocks (h s' net' ready (tires.1 (ap failed (would_block-of (Unit {0}) x blocks))))
        | inr done ↦ rw done (λ e'. cc)
      ]
  after_write-ends is_blocking s net (push_refused, s', net') again none_such tires h =
      absurd none_such
  after_write-ends is_blocking s net (out_of_fuel, s', net') again none_such tires h =
      absurd none_such

  blocking_write-ends :
      (attempts : ℕ) (is_blocking : Bool) (s : Sender) (net : Net)
      → IsReady s
      → patience net < attempts
      → (blocking_write socket attempts is_blocking s net).0 ≢ gave_up
  unfolding blocking_write
  blocking_write-ends zero is_blocking s net ready h = absurd (omega arith)
  blocking_write-ends (suc attempts) is_blocking s net ready h =
      after_write-ends is_blocking s net (send_next socket s net)
        (blocking_write socket attempts is_blocking) (send_next-Sends socket s net ready)
        (send_next-Tires s net)
        (λ s' net' ready' lt. blocking_write-ends attempts is_blocking s' net' ready' (omega arith))

  Puts-cases :
      {P : List Packet → Type 0} (net : Net) (out : Io (Unit {0}) × Net)
      → Puts socket P net out
      → out.0 ≢ gave_up
      → ((ps : List Packet) × (out.0 ≡ io_ok tt) × (sent out.1 ≡ sent net ++ ps) × P ps)
        ⊎ ((e : Error) × (out.0 ≡ io_err e))
  Puts-cases net (io_ok u, net') (ps, e, p) h = inl (ps, refl, e, p)
  Puts-cases net (io_err x, net') puts h = inr (x, refl)
  Puts-cases net (gave_up, net') puts h = absurd (h refl)
  Puts-cases net (io_panic, net') puts h = absurd puts
  Puts-cases net (io_undefined, net') puts h = absurd puts

  pub send-ends :
      {T : Type 0} {o o' : Object T} {f : Format T}
      → Law o o' f
      → (attempts : ℕ) (is_blocking : Bool) (v : T) (net : Net) → patience net < attempts
      → ((ps : List Packet) × ((send socket o attempts is_blocking v net).0 ≡ io_ok tt)
          × (sent (send socket o attempts is_blocking v net).1 ≡ sent net ++ ps)
          × Splits (f.encode v).bytes (f.encode v).fds ps)
        ⊎ ((e : Error) × ((send socket o attempts is_blocking v net).0 ≡ io_err e))
  unfolding send
  send-ends {o} law attempts is_blocking v net h =
      Puts-cases net (send socket o attempts is_blocking v net)
        (send-Puts socket law attempts is_blocking v net)
        (blocking_write-ends attempts is_blocking (sender_new o v is_blocking) net
          (sender_new-IsReady socket o v is_blocking) h)
