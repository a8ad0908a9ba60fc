-- ===== src/Unix/Receiver/Closed.antt =====
-- `recv_next` when the peer has closed its end.
use mathlib.Core.Path.{subst}
use crossmist.Common.{
  ℕ, zero, suc, ◌+◌, ◌<◌, ◌≡◌, ◌⊎◌, inl, inr, refl, ap, ◌∙◌, none, List, [], ◌∷◌, ◌++◌, length,
  arith, length-append,
}
use crossmist.Serde.{Object}
use crossmist.Unix.{max_packet_size}
use crossmist.Unix.Socket.{
  Error, unterminated_data, Packet, RecvSocket, RecvFails, fails_at_once, concat,
}
use crossmist.Unix.Wire.{packet, Splits, last, more}
use crossmist.Unix.Receiver.{Receiver, received, failed, Recv, after_fds, recv_loop, recv_next}
use crossmist.Unix.Receiver.Gathering.{
  Gathered, Gathered-length, with_room, with_room-Gathered, with_packet,
}
use crossmist.Unix.Receiver.Rounds.{round_more, round_failed, round_closed, packet_comes}
use crossmist.Unix.Receiver.Whole.{packet-Gathered, recv_next_running}

module _ {T : Type 0} (o : Object T) (socket : RecvSocket) where
  open socket use {Net, incoming, recvmsg_lem}

  -- Nothing more comes, and nothing has been gathered.
  pub record AtEnd (r : Receiver) (net : Net) : Type 0 where
    pub gathering : Gathered r [] []
    pub incoming_lem : incoming net ≡ []

  -- Some, but not all, packets of an object have come or will come, and nothing more.
  pub record IsCut (r : Receiver) (net : Net) : Type 0 where
    pub got : List ℕ
    pub got_fds : List ℕ
    pub left : List ℕ
    pub left_fds : List ℕ
    pub before : List Packet
    pub missing : Packet
    pub after : List Packet
    pub gathering : Gathered r got got_fds
    pub splits : Splits left left_fds (before ++ (missing ∷ after))
    pub incoming_lem : incoming net ≡ before
    pub some_lem : 0 < length before + (length got + length got_fds)

  -- A call finds the end, or the kernel fails it and the next call finds the end.
  abbrev pub Ends : Net → Recv o socket → Type 0
  Ends net (result, r, net') =
      (result ≡ received none)
      ⊎ ((x : Error) × (result ≡ failed x) × RecvFails socket net x net' × AtEnd r net')

  -- A call reports the missing data, or the kernel fails it and the next call reports them.
  abbrev pub Reports : Recv o socket → Type 0
  Reports (result, r, net) =
      (result ≡ failed unterminated_data) ⊎ ((x : Error) × (result ≡ failed x) × IsCut r net)

  closed_round :
      (fuel : ℕ) (r : Receiver) (net : Net)
      → incoming net ≡ []
      → ((net₁ : Net) × (recv_loop o socket (suc fuel) r net
            ≡ after_fds o socket [] (with_room r) net₁ (recv_loop o socket fuel)))
        ⊎ ((x : Error) × (net₁ : Net) × (recv_loop o socket (suc fuel) r net
              ≡ (failed x, with_room r, net₁))
            × RecvFails socket net x net₁
            × (incoming net₁ ≡ []))
  closed_round fuel r net end = elim (recvmsg_lem max_packet_size r.dontwait net) [
    | inl (q, qs, parts, net₁, inc, cat, e, inc') ↦ cc
    | inr (inl (net₁, inc, e, inc')) ↦ inl (net₁, round_closed o socket fuel r net e)
    | inr (inr (x, net₁, e, inc')) ↦ inr (
      x,
      net₁,
      round_failed o socket fuel r net e,
      fails_at_once socket max_packet_size r.dontwait e,
      inc' ∙ end,
    )
  ]

  something_there :
      {r : Receiver} {got got_fds : List ℕ} (net : Net) (again : Receiver → Net → Recv o socket)
      → Gathered r got got_fds
      → 0 < length got + length got_fds
      → (after_fds o socket [] (with_room r) net again).0 ≡ failed unterminated_data
  unfolding after_fds
  something_there {r} net again g some =
      let n : length r.fds ≡ _ = ap length g.fds_lem in ground (arith, Gathered-length g, n)

  nothing_there :
      {r : Receiver} (net : Net) (again : Receiver → Net → Recv o socket)
      → Gathered r [] []
      → (after_fds o socket [] (with_room r) net again).0 ≡ received none
  unfolding after_fds
  nothing_there {r} net again g =
      let n : length r.fds ≡ _ = ap length g.fds_lem in ground (arith, Gathered-length g, n)

  recv_loop-Reports :
      (fuel : ℕ) (r : Receiver) (net : Net) {got got_fds left left_fds : List ℕ}
      {packets : List Packet} (ps qs : List Packet) (q : Packet)
      → Gathered r got got_fds
      → Splits left left_fds packets
      → packets ≡ ps ++ (q ∷ qs)
      → incoming net ≡ ps
      → (ps ≡ [] → 0 < length got + length got_fds)
      → length ps < fuel
      → Reports (recv_loop o socket fuel r net)
  recv_loop-Reports zero r net ps qs q g splits whole inc some h = absurd (omega arith)
  recv_loop-Reports (suc fuel) r net {got} {got_fds} {left} {left_fds} [] qs q g splits whole inc
        some h =
      elim (closed_round fuel r net inc) [
        | inl (net₁, e) ↦ inl (rw e (something_there net₁ _ g (some refl)))
        | inr (x, net₁, e, fails, inc') ↦ rw e (
            inr (
              x,
              refl,
              record {
                got = got;
                got_fds = got_fds;
                left = left;
                left_fds = left_fds;
                before = [];
                missing = q;
                after = qs;
                gathering = with_room-Gathered g;
                splits = subst (Splits left left_fds) whole splits;
                incoming_lem = inc';
                some_lem = omega (arith, some refl);
              },
            ))
      ]
  recv_loop-Reports (suc fuel) r net (p ∷ ps) qs q g (last payload fds small few) whole inc some h =
      absurd (omega (arith, ap length whole, length-append ps (q ∷ qs)))
  recv_loop-Reports (suc fuel) r net {got} {got_fds} {left} {left_fds} (p ∷ ps) qs q g
        (more payload fds small few filled rest) whole inc some h =
      let same : incoming net ≡ packet 0 payload fds ∷ ps = cc in
      elim (packet_comes o socket r.dontwait net 0 payload fds ps small same) [
        | inl (parts, net₁, cat, e, inc') ↦
            rw (round_more o socket fuel r net 0 payload parts e refl) (
              recv_loop-Reports fuel (with_packet (with_room r) payload (concat parts)) net₁ ps qs q
                (packet-Gathered o socket payload fds parts cat g) rest (cc) inc'
                (λ _. omega (arith, length-append got payload, length-append got_fds fds))
                (omega arith))
        | inr (x, net₁, e, inc') ↦ rw (round_failed o socket fuel r net e) (
            inr (
              x,
              refl,
              record {
                got = got;
                got_fds = got_fds;
                left = left;
                left_fds = left_fds;
                before = p ∷ ps;
                missing = q;
                after = qs;
                gathering = with_room-Gathered g;
                splits =
                    subst (Splits left left_fds) whole (more payload fds small few filled rest);
                incoming_lem = inc' ∙ inc;
                some_lem = omega arith;
              },
            ))
      ]

  pub recv_next-Reports :
      (fuel : ℕ) (r : Receiver) (net : Net)
      → IsCut r net
      → length (incoming net) < fuel
      → Reports (recv_next o socket fuel r net)
  recv_next-Reports fuel r net cut h =
      rw (recv_next_running o socket fuel r net cut.gathering.running) (
        recv_loop-Reports fuel r net cut.before cut.after cut.missing cut.gathering cut.splits refl
          cut.incoming_lem (λ e. omega (arith, cut.some_lem, ap length e))
          (omega (arith, ap length cut.incoming_lem)))

  -- The peer has closed its end between objects. Then a call to `recv_next` returns `None`, or the
  -- kernel fails it and the same holds of the next call.
  pub recv_next-Ends :
      (fuel : ℕ) (r : Receiver) (net : Net)
      → AtEnd r net
      → Ends net (recv_next o socket (suc fuel) r net)
  recv_next-Ends fuel r net end =
      rw (recv_next_running o socket (suc fuel) r net end.gathering.running)
        (elim (closed_round fuel r net end.incoming_lem) [
          | inl (net₁, e) ↦ inl (rw e (nothing_there net₁ _ end.gathering))
          | inr (x, net₁, e, fails, inc') ↦ rw e (
              inr (
                x,
                refl,
                fails,
                record { gathering = with_room-Gathered end.gathering; incoming_lem = inc' },
              ))
        ])
