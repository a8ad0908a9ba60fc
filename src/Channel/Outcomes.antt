-- ===== src/Channel/Outcomes.antt =====
-- All that `recv` of src/asynchronous.rs can end in, for each of the ways in which a peer leaves the
-- socket: an object next, the end between objects, the end within an object.
use crossmist.Common.{
  ℕ, zero, suc, ◌+◌, ◌<◌, ◌≡◌, ◌≢◌, ◌⊎◌, inl, inr, refl, ap, Bool, true, false, Option, none, some,
  List, [], ◌∷◌, ◌++◌, length, arith, Bool-cases,
}
use crossmist.Serde.{Object}
use crossmist.Serde.Format.{Format}
use crossmist.Serde.Law.{Law}
use crossmist.Unix.Socket.{Error, unterminated_data, Packet, RecvSocket, RecvFails, fails_again}
use crossmist.Unix.Wire.{Splits}
use crossmist.Unix.Receiver.{Receiver, failed, Recv, receiver_new, recv_next}
use crossmist.Unix.Receiver.Gathering.{receiver_new-Gathered}
use crossmist.Unix.Receiver.Closed.{AtEnd, IsCut, Ends, Reports, recv_next-Ends, recv_next-Reports}
use crossmist.Channel.{
  Io, io_ok, io_err, io_panic, io_undefined, gave_up, recv_io, is_would_block, calls_again,
  after_read, recv_fuel, blocking_read, recv,
}
use crossmist.Channel.Receiving.{OnUnix, Gets, recv-Gets}
use crossmist.Channel.Patience.{RecvPatience}
use crossmist.Channel.Patience.Receiving.{recv-ends}

abbrev IsError : {T : Type 0} → Io T → Type 0
IsError {T} io = (e : Error) × (io ≡ io_err e)

module _ {T : Type 0} (o : Object T) (socket : RecvSocket) where
  open socket use {Net, incoming}

  -- `None`, or an error of the kernel.
  abbrev pub Closes : Net → Io (Option T) × Net → Type 0
  Closes net (io, net') =
      (io ≡ io_ok none) ⊎ ((e : Error) × (io ≡ io_err e) × RecvFails socket net e net')

  Closes-again :
      {net net₁ : Net} {x : Error} (out : Io (Option T) × Net)
      → RecvFails socket net x net₁
      → Closes net₁ out
      → Closes net out
  Closes-again out fails (inl nothing) = inl nothing
  Closes-again out fails (inr (e, same, fails')) = inr (e, same, fails_again socket fails fails')

  after_read-Ends :
      (is_blocking : Bool) (start : Net) (out : Recv o socket)
      (again : Receiver → Net → Io (Option T) × Net)
      → Ends o socket start out
      → ((r : Receiver) (net : Net)
          → AtEnd o socket r net
          → (again r net).0 ≢ gave_up
          → Closes net (again r net))
      → (after_read o socket is_blocking out again).0 ≢ gave_up
      → Closes start (after_read o socket is_blocking out again)
  unfolding after_read calls_again recv_io
  after_read-Ends true start (result, r, net) again (inl e) h = λ ends. inl (rw e refl)
  after_read-Ends false start (result, r, net) again (inl e) h = λ ends. inl (rw e refl)
  after_read-Ends is_blocking start (result, r, net) again (inr (x, e, fails, end)) h =
      elim (Bool-cases (calls_again is_blocking (recv_io {T = T} (failed x)))) [
        | inl more ↦ rw e (rw more (λ ends. Closes-again (again r net) fails (h r net end ends)))
        | inr done ↦ rw e (rw done (λ ends. inr (x, refl, fails)))
      ]

  blocking_read-Ends :
      (attempts : ℕ) (is_blocking : Bool) (r : Receiver) (net : Net)
      → AtEnd o socket r net
      → (blocking_read o socket attempts is_blocking r net).0 ≢ gave_up
      → Closes net (blocking_read o socket attempts is_blocking r net)
  unfolding blocking_read
  blocking_read-Ends zero is_blocking r net end ends = absurd (ends refl)
  blocking_read-Ends (suc attempts) is_blocking r net end ends =
      after_read-Ends is_blocking net (recv_next o socket (recv_fuel o socket net) r net)
        (blocking_read o socket attempts is_blocking)
        (recv_next-Ends o socket (length (incoming net)) r net end)
        (blocking_read-Ends attempts is_blocking) ends

  after_read-Reports :
      (is_blocking : Bool) (out : Recv o socket) (again : Receiver → Net → Io (Option T) × Net)
      → Reports o socket out
      → ((r : Receiver) (net : Net)
          → IsCut o socket r net
          → (again r net).0 ≢ gave_up
          → IsError (again r net).0)
      → (after_read o socket is_blocking out again).0 ≢ gave_up
      → IsError (after_read o socket is_blocking out again).0
  unfolding after_read calls_again recv_io is_would_block
  after_read-Reports true (result, r, net) again (inl e) h = λ ends. (unterminated_data, rw e refl)
  after_read-Reports false (result, r, net) again (inl e) h = λ ends. (unterminated_data, rw e refl)
  after_read-Reports is_blocking (result, r, net) again (inr (x, e, cut)) h =
      elim (Bool-cases (calls_again is_blocking (recv_io {T = T} (failed x)))) [
        | inl more ↦ rw e (rw more (h r net cut))
        | inr done ↦ rw e (rw done (λ ends. (x, refl)))
      ]

  blocking_read-Reports :
      (attempts : ℕ) (is_blocking : Bool) (r : Receiver) (net : Net)
      → IsCut o socket r net
      → (blocking_read o socket attempts is_blocking r net).0 ≢ gave_up
      → IsError (blocking_read o socket attempts is_blocking r net).0
  unfolding blocking_read
  blocking_read-Reports zero is_blocking r net cut ends = absurd (ends refl)
  blocking_read-Reports (suc attempts) is_blocking r net cut ends =
      after_read-Reports is_blocking (recv_next o socket (recv_fuel o socket net) r net)
        (blocking_read o socket attempts is_blocking)
        (recv_next-Reports o socket (recv_fuel o socket net) r net cut (omega arith))
        (blocking_read-Reports attempts is_blocking) ends

  filled : (ps : List Packet) → ps ≢ [] → 0 < length ps + 0
  filled [] h = absurd (h refl)
  filled (p ∷ ps) h = omega arith

  module _ (patient : RecvPatience socket) where
    -- If the peer has closed its end between objects and there are more attempts than the kernel
    -- refuses calls, `recv` returns `None` or an error of the kernel.
    pub recv_at_end :
        (attempts : ℕ) (is_blocking : Bool) (net : Net)
        → patient.patience net < attempts
        → incoming net ≡ []
        → Closes net (recv o socket attempts is_blocking net)
    recv_at_end attempts is_blocking net h end =
        let ends = recv-ends o socket patient attempts is_blocking net h in
        unfold recv in
        blocking_read-Ends attempts is_blocking (receiver_new is_blocking) net
          (record { gathering = receiver_new-Gathered is_blocking; incoming_lem = end })
          (unfold recv in ends)

    -- If the peer has closed its end after the first packets of an object and before its last, and
    -- there are more attempts than the kernel refuses calls, `recv` returns an error, never an
    -- object and never `None`.
    pub recv_cut :
        (attempts : ℕ) (is_blocking : Bool) (net : Net) {bytes fds : List ℕ} (ps qs : List Packet)
        (q : Packet)
        → patient.patience net < attempts
        → Splits bytes fds (ps ++ (q ∷ qs))
        → ps ≢ []
        → incoming net ≡ ps
        → (e : Error) × ((recv o socket attempts is_blocking net).0 ≡ io_err e)
    recv_cut attempts is_blocking net {bytes} {fds} ps qs q h splits not_none inc =
        let ends = recv-ends o socket patient attempts is_blocking net h in
        unfold recv in
        blocking_read-Reports attempts is_blocking (receiver_new is_blocking) net
          (record {
            got = [];
            got_fds = [];
            left = bytes;
            left_fds = fds;
            before = ps;
            missing = q;
            after = qs;
            gathering = receiver_new-Gathered is_blocking;
            splits = splits;
            incoming_lem = inc;
            some_lem = filled ps not_none;
          })
          (unfold recv in ends)

module _ {T : Type 0} (o : Object T) (socket : RecvSocket) where
  open socket use {Net, incoming}

  -- The object, or an error of the kernel.
  abbrev pub GetsOrFails : T → List Packet → Net → Io (Option T) × Net → Type 0
  GetsOrFails w later net (io, net') =
      ((io ≡ io_ok (some w)) × (incoming net' ≡ later))
      ⊎ ((e : Error) × (io ≡ io_err e) × RecvFails socket net e net')

  pub Gets-cases :
      (w : T) (later : List Packet) (net : Net) (out : Io (Option T) × Net)
      → Gets o socket w later net out
      → out.0 ≢ gave_up
      → GetsOrFails w later net out
  Gets-cases w later net (io_ok got, net') (e, inc) ends = inl (ap io_ok e, inc)
  Gets-cases w later net (io_err x, net') gets ends = inr (x, refl, gets)
  Gets-cases w later net (gave_up, net') gets ends = absurd (ends refl)
  Gets-cases w later net (io_panic, net') gets ends = absurd gets
  Gets-cases w later net (io_undefined, net') gets ends = absurd gets

module _ {T : Type 0} {o o' : Object T} {f : Format T} (law : Law o o' f)
    (socket : RecvSocket) where
  open socket use {Net, incoming}

  -- If the packets that come first on the socket split a valid value that uses nothing but bytes
  -- and descriptors, and there are more attempts than the kernel refuses calls, `recv` returns this
  -- value as the receiving process sees it and leaves the packets behind it, or it returns an error
  -- with which the kernel has answered one of its calls of `recvmsg`.
  pub recv_object :
      (patient : RecvPatience socket) (attempts : ℕ) (is_blocking : Bool) (v : T)
      → f.Valid v
      → OnUnix f v
      → (net : Net) (ps later : List Packet) → patient.patience net < attempts
      → Splits (f.encode v).bytes (f.encode v).fds ps
      → incoming net ≡ ps ++ later
      → GetsOrFails o' socket (f.carry v) later net (recv o' socket attempts is_blocking net)
  recv_object patient attempts is_blocking v valid on_unix net ps later h splits inc =
      Gets-cases o' socket (f.carry v) later net (recv o' socket attempts is_blocking net)
        (recv-Gets law socket v valid on_unix later attempts is_blocking net ps splits inc)
        (recv-ends o' socket patient attempts is_blocking net h)
