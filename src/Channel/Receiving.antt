-- ===== src/Channel/Receiving.antt =====
-- `recv` of src/asynchronous.rs on the packets of an object, across calls that would block.
use crossmist.Common.{
  ℕ, zero, suc, ◌≡◌, inl, inr, refl, ap, ◌∙◌, Bool, true, false, Option, some, List, [], ◌++◌,
  arith, Bool-cases,
}
use crossmist.Serde.{Serializer, Object, from, deserialize}
use crossmist.Serde.Format.{Format}
use crossmist.Serde.Law.{Law}
use crossmist.Serde.RoundTrip.{deserialize-encode}
use crossmist.Unix.Socket.{Error, Packet, RecvSocket, RecvFails, fails_again}
use crossmist.Unix.Wire.{Splits}
use crossmist.Unix.Receiver.{
  Receiver, RecvResult, received, failed, received_object, gathered, receiver_new, recv_next,
}
use crossmist.Unix.Receiver.Gathering.{receiver_new-Gathered}
use crossmist.Unix.Receiver.Rounds.{object_of}
use crossmist.Unix.Receiver.Whole.{Pending, Receives, recv_next-Receives}
use crossmist.Channel.{
  Io, io_ok, io_err, io_panic, io_undefined, gave_up, recv_io, calls_again, after_read, recv_fuel,
  blocking_read, recv,
}

-- On Unix a value is sent as bytes and descriptors alone.
abbrev pub OnUnix : {T : Type 0} → Format T → T → Type 0
OnUnix f v = gathered (f.encode v).bytes (f.encode v).fds ≡ f.encode v

module _ {T : Type 0} (o : Object T) (socket : RecvSocket) where
  open socket use {Net, incoming}

  -- What a receiving operation ends in when an object comes next that is read as `w`, and after it
  -- `later`: it returns the object, or the kernel has failed it; it never panics.
  abbrev pub Gets : T → List Packet → Net → Io (Option T) × Net → Type 0
  Gets w later net (io_ok got, net') = (got ≡ some w) × (incoming net' ≡ later)
  Gets w later net (io_err e, net') = RecvFails socket net e net'
  Gets w later net (gave_up, net') = Unit
  Gets w later net (io_panic, net') = ⊥
  Gets w later net (io_undefined, net') = ⊥

  Gets-again :
      (w : T) (later : List Packet) {net net₁ : Net} {x : Error} (out : Io (Option T) × Net)
      → RecvFails socket net x net₁
      → Gets w later net₁ out
      → Gets w later net out
  Gets-again w later (io_ok got, net') fails gets = gets
  Gets-again w later (io_err e, net') fails gets = fails_again socket fails gets
  Gets-again w later (gave_up, net') fails gets = gets
  Gets-again w later (io_panic, net') fails gets = gets
  Gets-again w later (io_undefined, net') fails gets = gets

  module _ (bytes fds : List ℕ) (w : T)
      (read_lem : object_of o socket bytes fds ≡ received (some w)) (later : List Packet) where
    abbrev Waiting : Receiver → Net → Type 0
    Waiting = Pending o socket bytes fds later

    after_read-Gets :
        (is_blocking : Bool) (start : Net) (out : RecvResult T × Receiver × Net)
        (again : Receiver → Net → Io (Option T) × Net)
        → Receives o socket bytes fds later start out
        → ((r : Receiver) (net : Net) → Waiting r net → Gets w later net (again r net))
        → Gets w later start (after_read o socket is_blocking out again)
    unfolding after_read
    after_read-Gets true start (result, r, net) again (inl (e, inc)) h =
        rw (e ∙ read_lem) (refl, inc)
    after_read-Gets false start (result, r, net) again (inl (e, inc)) h =
        rw (e ∙ read_lem) (refl, inc)
    after_read-Gets is_blocking start (result, r, net) again (inr (x, e, fails, pending)) h =
        elim (Bool-cases (calls_again is_blocking (recv_io {T = T} (failed x)))) [
          | inl more ↦ rw e (rw more (Gets-again w later (again r net) fails (h r net pending)))
          | inr done ↦ rw e (rw done fails)
        ]

    blocking_read-Gets :
        (attempts : ℕ) (is_blocking : Bool) (r : Receiver) (net : Net)
        → Waiting r net
        → Gets w later net (blocking_read o socket attempts is_blocking r net)
    unfolding blocking_read
    blocking_read-Gets zero is_blocking r net pending = tt
    blocking_read-Gets (suc attempts) is_blocking r net pending =
        after_read-Gets is_blocking net (recv_next o socket (recv_fuel o socket net) r net)
          (blocking_read o socket attempts is_blocking)
          (recv_next-Receives o socket (recv_fuel o socket net) r net pending (omega arith))
          (blocking_read-Gets attempts is_blocking)

    -- Packets for these bytes and descriptors, whatever they are read as.
    pub recv-Gets-read :
        (attempts : ℕ) (is_blocking : Bool) (net : Net) (ps : List Packet)
        → Splits bytes fds ps
        → incoming net ≡ ps ++ later
        → Gets w later net (recv o socket attempts is_blocking net)
    unfolding recv
    recv-Gets-read attempts is_blocking net ps splits inc =
        blocking_read-Gets attempts is_blocking (receiver_new is_blocking) net (record {
          got = [];
          got_fds = [];
          left = bytes;
          left_fds = fds;
          packets = ps;
          gathering = receiver_new-Gathered is_blocking;
          splits = splits;
          bytes_lem = refl;
          fds_lem = refl;
          incoming_lem = inc;
        })

module _ {T : Type 0} {o o' : Object T} {f : Format T} (law : Law o o' f)
    (socket : RecvSocket) where
  object_of-encode :
      (v : T)
      → f.Valid v
      → OnUnix f v
      → object_of o' socket (f.encode v).bytes (f.encode v).fds ≡ received (some (f.carry v))
  unfolding received_object
  object_of-encode v valid on_unix =
      ap (λ (s : Serializer). received_object (deserialize o' (from s))) on_unix
      ∙ ap received_object (deserialize-encode law v valid)

  -- If the packets that come first on the socket split the bytes and descriptors of a valid value,
  -- which uses nothing else, then `recv` in the receiving process returns that value and leaves the
  -- packets behind them, unless the kernel fails the call; it never panics, and never takes the
  -- packets for another value.
  pub recv-Gets :
      (v : T)
      → f.Valid v
      → OnUnix f v
      → (later : List Packet) (attempts : ℕ) (is_blocking : Bool) (net : socket.Net)
        (ps : List Packet)
      → Splits (f.encode v).bytes (f.encode v).fds ps
      → socket.incoming net ≡ ps ++ later
      → Gets o' socket (f.carry v) later net (recv o' socket attempts is_blocking net)
  recv-Gets v valid on_unix later attempts is_blocking net ps splits inc =
      recv-Gets-read o' socket (f.encode v).bytes (f.encode v).fds (f.carry v)
        (object_of-encode v valid on_unix) later attempts is_blocking net ps splits inc
