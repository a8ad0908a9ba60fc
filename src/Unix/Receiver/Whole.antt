-- ===== src/Unix/Receiver/Whole.antt =====
-- `recv_next` on the packets of an object, across calls.
use mathlib.Core.Path.{ap₂, subst, subst₂}
use crossmist.Common.{
  ℕ, zero, suc, ◌≤◌, ◌≡◌, ◌⊎◌, inl, inr, refl, ap, ◌∙◌, Bool, false, if◌then◌else◌, List, [], ◌∷◌,
  ◌++◌, length, arith, append_assoc, length-append,
}
use crossmist.Serde.{Object}
use crossmist.Builtins.Sum.{Result, err_value}
use crossmist.Unix.{max_packet_size}
use crossmist.Unix.Socket.{
  Error, Message, Packet, RecvSocket, RecvFails, fails_at_once, fails_later, concat,
}
use crossmist.Unix.Wire.{packet, Splits, last, more}
use crossmist.Unix.Receiver.{Receiver, failed, misused, finish, Recv, recv_loop, recv_next}
use crossmist.Unix.Receiver.Gathering.{
  Gathered, with_room, with_room-Gathered, with_packet, with_packet-Gathered,
}
use crossmist.Unix.Receiver.Rounds.{object_of, round_more, round_last, round_failed, packet_comes}

module _ {T : Type 0} (o : Object T) (socket : RecvSocket) where
  open socket use {Net, incoming}

  -- Part of an object has been gathered, and packets with the rest of it come first; `later` is what
  -- comes after the object.
  pub record Pending (bytes fds : List ℕ) (later : List Packet) (r : Receiver) (net : Net)
      : Type 0 where
    pub got : List ℕ
    pub got_fds : List ℕ
    pub left : List ℕ
    pub left_fds : List ℕ
    pub packets : List Packet
    pub gathering : Gathered r got got_fds
    pub splits : Splits left left_fds packets
    pub bytes_lem : got ++ left ≡ bytes
    pub fds_lem : got_fds ++ left_fds ≡ fds
    pub incoming_lem : incoming net ≡ packets ++ later

  -- A call returns the object and leaves what comes later, or it fails with an error of the kernel
  -- and the object is still to be had from the same receiver.
  abbrev pub Receives : List ℕ → List ℕ → List Packet → Net → Recv o socket → Type 0
  Receives bytes fds later net (result, r, net') =
      ((result ≡ object_of o socket bytes fds) × (incoming net' ≡ later))
      ⊎ ((x : Error) × (result ≡ failed x)
          × RecvFails socket net x net'
          × Pending bytes fds later r net')

  Receives-later :
      {bytes fds : List ℕ} {later : List Packet} {net net₁ : Net} {answer : Result Message Error}
      (dontwait : Bool) (out : Recv o socket)
      → socket.recvmsg max_packet_size dontwait net ≡ (answer, net₁)
      → Receives bytes fds later net₁ out
      → Receives bytes fds later net out
  Receives-later dontwait out e (inl got) = inl got
  Receives-later dontwait out e (inr (x, same, fails, pending)) =
      inr (x, same, fails_later socket max_packet_size dontwait e fails, pending)

  finish-object :
      {r : Receiver} {bytes fds : List ℕ}
      → Gathered r bytes fds
      → (finish o r).0 ≡ object_of o socket bytes fds
  unfolding finish
  finish-object g = ap₂ (λ (b f : List ℕ). object_of o socket b f) g.bytes_lem g.fds_lem

  -- A call that fails at once leaves everything to be had.
  fail-Receives :
      {bytes fds : List ℕ} {later : List Packet} {x : Error} {net₁ : Net} (fuel : ℕ) (r : Receiver)
      (net : Net)
      → Pending bytes fds later r net
      → socket.recvmsg max_packet_size r.dontwait net ≡ (err_value x, net₁)
      → incoming net₁ ≡ incoming net
      → Receives bytes fds later net (recv_loop o socket (suc fuel) r net)
  fail-Receives {x} fuel r net p e same = rw (round_failed o socket fuel r net e) (
      inr (
        x,
        refl,
        fails_at_once socket max_packet_size r.dontwait e,
        record {
          got = p.got;
          got_fds = p.got_fds;
          left = p.left;
          left_fds = p.left_fds;
          packets = p.packets;
          gathering = with_room-Gathered p.gathering;
          splits = p.splits;
          bytes_lem = p.bytes_lem;
          fds_lem = p.fds_lem;
          incoming_lem = same ∙ p.incoming_lem;
        },
      ))

  -- The receiver when a packet of the object has come in.
  pub packet-Gathered :
      {r : Receiver} {got got_fds : List ℕ} (payload fds : List ℕ) (parts : List (List ℕ))
      → concat parts ≡ fds
      → Gathered r got got_fds
      → Gathered
          (with_packet (with_room r) payload (concat parts))
          (got ++ payload)
          (got_fds ++ fds)
  packet-Gathered {r} {got} {got_fds} payload fds parts cat g =
      subst
        (λ l.
          Gathered (with_packet (with_room r) payload (concat parts)) (got ++ payload)
            (got_fds ++ l))
        cat (with_packet-Gathered payload (concat parts) (with_room-Gathered g))

  -- By the packets that are still to come.
  recv_loop-Receives :
      (fuel : ℕ) (r : Receiver) (net : Net) {got got_fds left left_fds : List ℕ}
      {packets later : List Packet}
      → Gathered r got got_fds
      → Splits left left_fds packets
      → incoming net ≡ packets ++ later
      → length packets ≤ fuel
      → Receives (got ++ left) (got_fds ++ left_fds) later net (recv_loop o socket fuel r net)
  recv_loop-Receives zero r net g (last payload fds small few) inc h = absurd (omega arith)
  recv_loop-Receives zero r net g (more payload fds small few some rest) inc h =
      absurd (omega arith)
  recv_loop-Receives (suc fuel) r net {got} {got_fds} {later = later} g (last payload fds small few)
        inc h =
      elim (packet_comes o socket r.dontwait net 1 payload fds later small inc) [
        | inl (parts, net₁, cat, e, inc') ↦
            rw (round_last o socket fuel r net 1 payload parts e refl)
              (inl (finish-object (packet-Gathered payload fds parts cat g), inc'))
        | inr (x, net₁, e, same) ↦
            fail-Receives fuel r net
              (record {
                got = got;
                got_fds = got_fds;
                left = payload;
                left_fds = fds;
                packets = packet 1 payload fds ∷ [];
                gathering = g;
                splits = last payload fds small few;
                bytes_lem = refl;
                fds_lem = refl;
                incoming_lem = inc;
              })
              e same
      ]
  recv_loop-Receives (suc fuel) r net {got} {got_fds} {later = later} g
        (more payload fds {bytes} {more_fds} {ps} small few some rest) inc h =
      elim (packet_comes o socket r.dontwait net 0 payload fds (ps ++ later) small inc) [
        | inl (parts, net₁, cat, e, inc') ↦
            rw (round_more o socket fuel r net 0 payload parts e refl) (
              subst₂
                (λ b f.
                  Receives b f later net (
                    recv_loop o socket fuel (with_packet (with_room r) payload (concat parts))
                      net₁))
                (append_assoc got payload bytes) (append_assoc got_fds fds more_fds)
                (Receives-later r.dontwait
                  (recv_loop o socket fuel (with_packet (with_room r) payload (concat parts)) net₁)
                  e
                  (recv_loop-Receives fuel (with_packet (with_room r) payload (concat parts)) net₁
                    (packet-Gathered payload fds parts cat g) rest inc' (omega arith))))
        | inr (x, net₁, e, same) ↦
            fail-Receives fuel r net
              (record {
                got = got;
                got_fds = got_fds;
                left = payload ++ bytes;
                left_fds = fds ++ more_fds;
                packets = packet 0 payload fds ∷ ps;
                gathering = g;
                splits = more payload fds small few some rest;
                bytes_lem = refl;
                fds_lem = refl;
                incoming_lem = inc;
              })
              e same
      ]

  Receives-subst :
      {bytes bytes' fds fds' : List ℕ} {later : List Packet} (net : Net) (out : Recv o socket)
      → bytes ≡ bytes'
      → fds ≡ fds'
      → Receives bytes fds later net out
      → Receives bytes' fds' later net out
  Receives-subst {later = later} net out e e' = subst₂ (λ b f. Receives b f later net out) e e'

  pub recv_next_running :
      (fuel : ℕ) (r : Receiver) (net : Net)
      → r.terminated ≡ false
      → recv_next o socket fuel r net ≡ recv_loop o socket fuel r net
  unfolding recv_next
  recv_next_running fuel r net h =
      ap (λ (b : Bool). if b then (misused, r, net) else recv_loop o socket fuel r net) h

  -- A receiver that has part of an object, however many calls it took, and to which the rest of the
  -- object comes: a call to `recv_next` returns the object that all the bytes and descriptors stand
  -- for, and takes no packet of what comes later; or the kernel fails the call, and the same holds of
  -- the next call.
  pub recv_next-Receives :
      (fuel : ℕ) {bytes fds : List ℕ} {later : List Packet} (r : Receiver) (net : Net)
      → Pending bytes fds later r net
      → length (incoming net) ≤ fuel
      → Receives bytes fds later net (recv_next o socket fuel r net)
  recv_next-Receives fuel r net p h = rw (recv_next_running fuel r net p.gathering.running) (
      Receives-subst net (recv_loop o socket fuel r net) p.bytes_lem p.fds_lem (
        recv_loop-Receives fuel r net p.gathering p.splits p.incoming_lem
          (omega (arith, ap length p.incoming_lem, length-append p.packets _))))
