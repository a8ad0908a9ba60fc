-- ===== src/Unix/Receiver/Rounds.antt =====
-- One round of `recv_next`, for each answer of the kernel.
use crossmist.Common.{
  ℕ, suc, ◌<◌, ◌≡◌, ◌⊎◌, inl, inr, refl, ap, ◌∙◌, Bool, true, false, List, [], ◌∷◌, map, length,
  take, arith, take_all, ◌==◌,
}
use crossmist.Serde.{Object, from, deserialize}
use crossmist.Builtins.Sum.{ok_value, err_value}
use crossmist.Unix.Socket.{Error, Packet, scm_rights, concat, RecvSocket}
use crossmist.Unix.Wire.{packet}
use crossmist.Unix.{max_packet_size}
use crossmist.Unix.Receiver.{
  Receiver, RecvResult, failed, received_object, gathered, finish, after_fds, after_cmsgs,
  after_recvmsg, recv_loop, extend_fds,
}
use crossmist.Unix.Receiver.Gathering.{with_room, with_packet, extend_fds-rights}

module _ {T : Type 0} (o : Object T) (socket : RecvSocket) where
  open socket use {Net, recvmsg, incoming, recvmsg_lem}

  -- The object that these bytes and descriptors stand for, as a result.
  abbrev pub object_of : List ℕ → List ℕ → RecvResult T
  object_of bytes fds = received_object (deserialize o (from (gathered bytes fds)))

  -- The ways in which a round ends.
  module _ (fuel : ℕ) (r : Receiver) (net : Net) where
    module _ {net₁ : Net} (marker : ℕ) (payload : List ℕ) (parts : List (List ℕ))
        (e : recvmsg max_packet_size r.dontwait net ≡ (
          ok_value (record { content = marker ∷ payload; cmsgs = map scm_rights parts }),
          net₁,
        )) where
      abbrev pub r₁ : Receiver
      r₁ = with_packet (with_room r) payload (concat parts)

      pub round_more :
          marker == 1 ≡ false
          → recv_loop o socket (suc fuel) r net ≡ recv_loop o socket fuel r₁ net₁
      unfolding recv_loop
      round_more h = rw (e, after_recvmsg) (rw (extend_fds-rights parts r.fds, after_cmsgs) (rw h))

      pub round_last :
          marker == 1 ≡ true
          → recv_loop o socket (suc fuel) r net ≡ ((finish o r₁).0, (finish o r₁).1, net₁)
      unfolding recv_loop
      round_last h = rw (e, after_recvmsg) (rw (extend_fds-rights parts r.fds, after_cmsgs) (rw h))

    pub round_failed :
        {x : Error} {net₁ : Net}
        → recvmsg max_packet_size r.dontwait net ≡ (err_value x, net₁)
        → recv_loop o socket (suc fuel) r net ≡ (failed x, with_room r, net₁)
    unfolding recv_loop
    round_failed e = rw (e, after_recvmsg)

    pub round_closed :
        {net₁ : Net}
        → recvmsg max_packet_size r.dontwait net
          ≡ (ok_value (record { content = []; cmsgs = [] }), net₁)
        → recv_loop o socket (suc fuel) r net
          ≡ after_fds o socket [] (with_room r) net₁ (recv_loop o socket fuel)
    unfolding recv_loop
    round_closed e = rw (e, after_recvmsg) (unfold extend_fds in refl)

  module _ (dontwait : Bool) (net : Net) where
    -- A packet that is not too large comes in whole, or the call fails.
    pub packet_comes :
        (marker : ℕ) (payload fds : List ℕ) (rest : List Packet)
        → length payload < max_packet_size
        → incoming net ≡ packet marker payload fds ∷ rest
        → ((parts : List (List ℕ)) × (net₁ : Net) × (concat parts ≡ fds)
            × (recvmsg max_packet_size dontwait net ≡ (
              ok_value (record { content = marker ∷ payload; cmsgs = map scm_rights parts }),
              net₁,
            ))
            × (incoming net₁ ≡ rest))
          ⊎ ((x : Error) × (net₁ : Net) × (recvmsg max_packet_size dontwait net
                ≡ (err_value x, net₁))
              × (incoming net₁ ≡ incoming net))
    packet_comes marker payload fds rest small first =
        elim (recvmsg_lem max_packet_size dontwait net) [
          | inl (q, qs, parts, net₁, inc, cat, e, inc') ↦
              let same : q ≡ packet marker payload fds = cc in
              let rest_same : qs ≡ rest = cc in
              let whole : take max_packet_size q.content ≡ marker ∷ payload =
                ap (λ (p : Packet). take max_packet_size p.content) same
                ∙ take_all max_packet_size (marker ∷ payload) (omega arith) in
              inl (
                parts,
                net₁,
                cat ∙ ap (λ (p : Packet). p.rights) same,
                e
                    ∙ ap
                        (λ (l : List ℕ).
                          (ok_value (record { content = l; cmsgs = map scm_rights parts }), net₁))
                        whole,
                inc' ∙ rest_same,
              )
          | inr (inl (net₁, none_left, e, inc')) ↦ cc
          | inr (inr (x, net₁, e, inc')) ↦ inr (x, net₁, e, inc')
        ]
