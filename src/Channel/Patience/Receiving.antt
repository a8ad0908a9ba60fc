-- ===== src/Channel/Patience/Receiving.antt =====
-- `recv` with enough attempts.
use crossmist.Common.{
  ℕ, zero, suc, ◌+◌, ◌≤◌, ◌<◌, ◌≡◌, ◌≢◌, inl, inr, refl, ap, ◌∙◌, Bool, true, false, Option, none,
  List, [], ◌∷◌, length, arith, Bool-cases, if◌then◌else◌,
}
use crossmist.Serde.{Object, Outcome, Deserializer, ok, panicked, undefined}
use crossmist.Builtins.Sum.{ok_value, err_value}
use crossmist.Unix.{max_packet_size}
use crossmist.Unix.Socket.{Error, would_block, unterminated_data, Message, RecvSocket}
use crossmist.Unix.Receiver.{
  Receiver, received, failed, receiver_panicked, misused, receiver_undefined, out_of_fuel,
  received_object, finish, overwrite, Recv, extend_fds, after_fds, after_cmsgs, after_recvmsg,
  recv_loop, recv_next, receiver_new,
}
use crossmist.Channel.{
  Io, io_err, gave_up, recv_io, is_would_block, calls_again, after_read, recv_fuel, blocking_read,
  recv,
}
use crossmist.Channel.Patience.{RecvPatience, would_block-of}

module _ {T : Type 0} (o : Object T) (socket : RecvSocket) (patient : RecvPatience socket) where
  open socket use {Net, recvmsg, incoming, recvmsg_lem}
  open patient use {patience, refuses, keeps}

  -- A call ends, and if it would block, it has used some of the patience.
  abbrev Tires : Net → Recv o socket → Type 0
  Tires net (result, r, net') =
      (patience net' ≤ patience net)
      × (result ≢ out_of_fuel)
      × (result ≡ failed would_block → patience net' < patience net)

  Tires-trans :
      (net net₁ : Net) (out : Recv o socket)
      → patience net₁ ≤ patience net
      → Tires net₁ out
      → Tires net out
  Tires-trans net net₁ out le (le', ends, lt) = (omega arith, ends, λ e. omega (arith, lt e))

  received_object-ends :
      (p : Outcome (T × Deserializer))
      → (received_object p ≢ out_of_fuel) × (received_object p ≢ failed would_block)
  unfolding received_object
  received_object-ends (ok (v, d)) = (λ e. cc, λ e. cc)
  received_object-ends (panicked p) = (λ e. cc, λ e. cc)
  received_object-ends undefined = (λ e. cc, λ e. cc)

  if-Tires :
      (b : Bool) (net : Net) (out out' : Recv o socket)
      → Tires net out
      → Tires net out'
      → Tires net (if b then out else out')
  if-Tires true net out out' h h' = h
  if-Tires false net out out' h h' = h'

  clean-Tires :
      (net net₁ : Net) (r : Receiver)
      → patience net₁ ≤ patience net
      → Tires net (received none, r, net₁)
  clean-Tires net net₁ r le = (le, λ e. cc, λ e. cc)

  cut-Tires :
      (net net₁ : Net) (r : Receiver)
      → patience net₁ ≤ patience net
      → Tires net (failed unterminated_data, r, net₁)
  cut-Tires net net₁ r le = (le, λ e. cc, λ e. cc)

  -- Nothing but another round follows a message.
  module _ (net net₁ : Net) (le : patience net₁ ≤ patience net)
      (again : Receiver → Net → Recv o socket) where
    after_fds-Tires :
        (content : List ℕ) (r : Receiver)
        → ((content ≢ []) → (r' : Receiver) → Tires net₁ (again r' net₁))
        → Tires net (after_fds o socket content r net₁ again)
    unfolding after_fds finish
    after_fds-Tires [] r h =
        if-Tires _ net _ _ (clean-Tires net net₁ r le) (cut-Tires net net₁ r le)
    after_fds-Tires (marker ∷ payload) r h =
        let r₁ : Receiver = record r {
          buffer = overwrite r.data_pos payload r.buffer;
          data_pos = r.data_pos + length payload;
        } in
        if-Tires _ net _ (again r₁ net₁)
          (le, (received_object-ends _).0, λ e. absurd ((received_object-ends _).1 e))
          (Tires-trans net net₁ (again r₁ net₁) le (h (λ e. cc) r₁))

    after_cmsgs-Tires :
        (taken : Bool × List ℕ) (content : List ℕ) (r : Receiver)
        → ((content ≢ []) → (r' : Receiver) → Tires net₁ (again r' net₁))
        → Tires net (after_cmsgs o socket taken content r net₁ again)
    unfolding after_cmsgs
    after_cmsgs-Tires (false, fds) content r h = (le, λ e. cc, λ e. cc)
    after_cmsgs-Tires (true, fds) content r h = after_fds-Tires content (record r { fds = fds }) h

    after_message-Tires :
        (message : Message) (r : Receiver)
        → ((message.content ≢ []) → (r' : Receiver) → Tires net₁ (again r' net₁))
        → Tires net (after_recvmsg o socket r (ok_value message, net₁) again)
    unfolding after_recvmsg
    after_message-Tires message r h =
        after_cmsgs-Tires (extend_fds message.cmsgs r.fds) message.content r h

  recv_loop-Tires :
      (fuel : ℕ) (r : Receiver) (net : Net)
      → length (incoming net) < fuel
      → Tires net (recv_loop o socket fuel r net)
  unfolding recv_loop
  recv_loop-Tires zero r net h = absurd (omega arith)
  recv_loop-Tires (suc fuel) r net h = elim (recvmsg_lem max_packet_size r.dontwait net) [
    | inl (p, ps, parts, net₁, inc, cat, e, inc') ↦ rw e (
        after_message-Tires net net₁ (keeps _ _ net net₁ _ e) (recv_loop o socket fuel) _ _
          (λ some r'. recv_loop-Tires fuel r' net₁ (omega (arith, ap length inc, ap length inc'))))
    | inr (inl (net₁, inc, e, inc')) ↦ rw e (
        after_message-Tires net net₁ (keeps _ _ net net₁ _ e) (recv_loop o socket fuel) _ _
          (λ some r'. absurd (some refl)))
    | inr (inr (x, net₁, e, inc')) ↦
        rw (e, after_recvmsg)
          (
            keeps _ _ net net₁ _ e,
            λ e'. cc,
            λ e'. refuses max_packet_size r.dontwait net net₁ (
                e
                ∙ ap (λ (y : Error). (err_value y, net₁))
                    (let same : x ≡ would_block = cc in same)),
          )
  ]

  recv_next-Tires :
      (fuel : ℕ) (r : Receiver) (net : Net)
      → length (incoming net) < fuel
      → Tires net (recv_next o socket fuel r net)
  unfolding recv_next
  recv_next-Tires fuel r net h =
      if-Tires r.terminated net (misused, r, net) (recv_loop o socket fuel r net)
        (omega arith, λ e. cc, λ e. cc) (recv_loop-Tires fuel r net h)

  -- The retries after a call.
  after_read-ends :
      (is_blocking : Bool) (net : Net) (out : Recv o socket)
      (again : Receiver → Net → Io (Option T) × Net)
      → Tires net out
      → ((r' : Receiver) (net' : Net) → patience net' < patience net → (again r' net').0 ≢ gave_up)
      → (after_read o socket is_blocking out again).0 ≢ gave_up
  unfolding after_read recv_io calls_again is_would_block
  after_read-ends true net (received v, r', net') again tires h = λ e. cc
  after_read-ends false net (received v, r', net') again tires h = λ e. cc
  after_read-ends true net (failed x, r', net') again tires h = λ e. cc
  after_read-ends false net (failed x, r', net') again (le, ends, lt) h =
      elim (Bool-cases (is_would_block {T = Option T} (io_err x))) [
        | inl blocks ↦ rw blocks (h r' net' (lt (ap failed (would_block-of (Option T) x blocks))))
        | inr done ↦ rw done (λ e. cc)
      ]
  after_read-ends true net (receiver_panicked p, r', net') again tires h = λ e. cc
  after_read-ends false net (receiver_panicked p, r', net') again tires h = λ e. cc
  after_read-ends true net (misused, r', net') again tires h = λ e. cc
  after_read-ends false net (misused, r', net') again tires h = λ e. cc
  after_read-ends true net (receiver_undefined, r', net') again tires h = λ e. cc
  after_read-ends false net (receiver_undefined, r', net') again tires h = λ e. cc
  after_read-ends is_blocking net (out_of_fuel, r', net') again (le, ends, lt) h =
      absurd (ends refl)

  blocking_read-ends :
      (attempts : ℕ) (is_blocking : Bool) (r : Receiver) (net : Net)
      → patience net < attempts
      → (blocking_read o socket attempts is_blocking r net).0 ≢ gave_up
  unfolding blocking_read
  blocking_read-ends zero is_blocking r net h = absurd (omega arith)
  blocking_read-ends (suc attempts) is_blocking r net h =
      after_read-ends is_blocking net (recv_next o socket (recv_fuel o socket net) r net)
        (blocking_read o socket attempts is_blocking)
        (recv_next-Tires (recv_fuel o socket net) r net (omega arith))
        (λ r' net' lt. blocking_read-ends attempts is_blocking r' net' (omega arith))

  -- Whatever is on the socket, be it a value or not, `recv` comes to an end if there are more attempts
  -- than the kernel refuses calls.
  pub recv-ends :
      (attempts : ℕ) (is_blocking : Bool) (net : Net)
      → patience net < attempts
      → (recv o socket attempts is_blocking net).0 ≢ gave_up
  unfolding recv
  recv-ends attempts is_blocking net h =
      blocking_read-ends attempts is_blocking (receiver_new is_blocking) net h
