-- ===== src/Unix/Sender/Sends.antt =====
-- `send_next`, for each answer of the kernel.
use mathlib.Core.Path.{subst₂}
use crossmist.Common.{
  ℕ, zero, suc, ◌≤◌, ◌≡◌, inl, inr, refl, sym, ap, ◌∙◌, true, false, List, [], ◌∷◌, ◌++◌, length,
  arith, append_assoc, append-nil, Bool-cases, leb, le→leb,
}
use crossmist.Builtins.Sum.{ok_value, err_value}
use crossmist.Unix.Socket.{Error, Packet, SendSocket}
use crossmist.Unix.Wire.{packet, Splits, last, more, Begins, nothing_yet, one_more}
use crossmist.Unix.{max_packet_fds}
use crossmist.Unix.Sender.{
  Sender, SendResult, finished, push_refused, out_of_fuel, failed, is_last, packet_content,
  packet_rights, advance, after_sendmsg, send_loop, send_fuel, send_next,
}
use crossmist.Unix.Sender.Splitting.{
  IsReady, left_bytes, left_fds, payload, next, packet_fits, bytes_split, fds_split, next-IsReady,
  last_leaves_nothing, more_progress,
}

abbrev pub Left : Sender → List Packet → Type 0
Left s ps = Splits (left_bytes s) (left_fds s) ps

-- The packet of a round that is not the last, before those of the following rounds.
Left-more :
    {s : Sender} {ps : List Packet}
    → IsReady s
    → is_last s ≡ false
    → Left (next s) ps
    → Left s (packet 0 (payload s) (packet_rights s) ∷ ps)
Left-more {s} {ps} ready h rest =
    subst₂ (λ bytes fds. Splits bytes fds (packet 0 (payload s) (packet_rights s) ∷ ps))
      (sym (bytes_split ready)) (sym (fds_split ready))
      (more (payload s) (packet_rights s) (packet_fits ready).0 (packet_fits ready).1
        (more_progress ready h).0 rest)

Begins-more :
    {s : Sender} {ps : List Packet} {left left_fds' : List ℕ}
    → IsReady s
    → is_last s ≡ false
    → Begins (left_bytes (next s)) (left_fds (next s)) ps left left_fds'
    → Begins
        (left_bytes s)
        (left_fds s)
        (packet 0 (payload s) (packet_rights s) ∷ ps)
        left
        left_fds'
Begins-more {s} {ps} {left} {left_fds'} ready h rest =
    subst₂
      (λ bytes fds. Begins bytes fds (packet 0 (payload s) (packet_rights s) ∷ ps) left left_fds')
      (sym (bytes_split ready)) (sym (fds_split ready))
      (one_more (payload s) (packet_rights s) (packet_fits ready).0 (packet_fits ready).1
        (more_progress ready h).0 rest)

Left-last :
    {s : Sender}
    → IsReady s
    → is_last s ≡ true
    → Left s (packet 1 (payload s) (packet_rights s) ∷ [])
Left-last {s} ready h =
    let (no_bytes, no_fds) = last_leaves_nothing ready h in
    subst₂ (λ bytes fds. Splits bytes fds (packet 1 (payload s) (packet_rights s) ∷ []))
      (sym (bytes_split ready ∙ ap (λ l. payload s ++ l) no_bytes ∙ append-nil (payload s)))
      (sym (fds_split ready ∙ ap (λ l. packet_rights s ++ l) no_fds ∙ append-nil (packet_rights s)))
      (last (payload s) (packet_rights s) (packet_fits ready).0 (packet_fits ready).1)

module _ (socket : SendSocket) where
  open socket use {Net, sendmsg, sent, sendmsg_lem}

  -- What a call has put on the socket, for each way in which it ends. A call that ends with an error
  -- leaves a sender from which the object can be finished.
  abbrev pub Sends : Sender → Net → SendResult × Sender × Net → Type 0
  Sends s net (finished, s', net') = (ps : List Packet) × (sent net' ≡ sent net ++ ps) × Left s ps
  Sends s net (failed e, s', net') =
      (ps : List Packet) × (sent net' ≡ sent net ++ ps)
      × IsReady s'
      × Begins (left_bytes s) (left_fds s) ps (left_bytes s') (left_fds s')
  Sends s net (push_refused, s', net') = ⊥
  Sends s net (out_of_fuel, s', net') = ⊥

  -- A round that is not the last, before the following rounds.
  Sends-more :
      (s : Sender) (net net₁ : Net) (out : SendResult × Sender × Net)
      → IsReady s
      → is_last s ≡ false
      → sent net₁ ≡ sent net ++ packet 0 (payload s) (packet_rights s) ∷ []
      → Sends (next s) net₁ out
      → Sends s net out
  Sends-more s net net₁ (finished, s', net') ready h e (ps, e', left) = (
    packet 0 (payload s) (packet_rights s) ∷ ps,
    e' ∙ ap (λ l. l ++ ps) e ∙ append_assoc (sent net) _ ps,
    Left-more ready h left,
  )
  Sends-more s net net₁ (failed x, s', net') ready h e (ps, e', ready', left) = (
    packet 0 (payload s) (packet_rights s) ∷ ps,
    e' ∙ ap (λ l. l ++ ps) e ∙ append_assoc (sent net) _ ps,
    ready',
    Begins-more ready h left,
  )
  Sends-more s net net₁ (push_refused, s', net') ready h e k = k
  Sends-more s net net₁ (out_of_fuel, s', net') ready h e k = k

  -- The ways in which a round ends.
  module _ (fuel : ℕ) (s : Sender) (net : Net) (ready : IsReady s) where
    pushed : leb (length (packet_rights s)) max_packet_fds ≡ true
    pushed = le→leb _ _ (packet_fits ready).1

    pub round_last :
        {n : ℕ} {net₁ : Net}
        → sendmsg (packet_content s) (packet_rights s) s.dontwait net ≡ (ok_value n, net₁)
        → is_last s ≡ true
        → send_loop socket (suc fuel) s net ≡ (finished, advance s n, net₁)
    unfolding send_loop
    round_last e h = rw pushed (rw (e, after_sendmsg) (rw h))

    pub round_more :
        {n : ℕ} {net₁ : Net}
        → sendmsg (packet_content s) (packet_rights s) s.dontwait net ≡ (ok_value n, net₁)
        → is_last s ≡ false
        → send_loop socket (suc fuel) s net ≡ send_loop socket fuel (advance s n) net₁
    unfolding send_loop
    round_more e h = rw pushed (rw (e, after_sendmsg) (rw h))

    pub round_failed :
        {x : Error} {net₁ : Net}
        → sendmsg (packet_content s) (packet_rights s) s.dontwait net ≡ (err_value x, net₁)
        → send_loop socket (suc fuel) s net ≡ (failed x, s, net₁)
    unfolding send_loop
    round_failed e = rw pushed (rw (e, after_sendmsg))

  content_last : (s : Sender) → is_last s ≡ true → packet_content s ≡ 1 ∷ payload s
  unfolding packet_content
  content_last s h = rw h

  content_more : (s : Sender) → is_last s ≡ false → packet_content s ≡ 0 ∷ payload s
  unfolding packet_content
  content_more s h = rw h

  length-content : (s : Sender) → length (packet_content s) ≡ suc (length (payload s))
  unfolding packet_content
  length-content s = refl

  send_loop-Sends :
      (fuel : ℕ) (s : Sender) (net : Net)
      → IsReady s
      → send_fuel s ≤ fuel
      → Sends s net (send_loop socket fuel s net)
  send_loop-Sends zero s net ready h = absurd (unfold send_fuel in omega arith)
  send_loop-Sends (suc fuel) s net ready h =
      elim (sendmsg_lem (packet_content s) (packet_rights s) s.dontwait net) [
        | inl (net₁, e, put) ↦ elim (Bool-cases (is_last s)) [
          | inl at_end ↦ rw (round_last fuel s net ready e at_end) (
            packet 1 (payload s) (packet_rights s) ∷ [],
            rw (← content_last s at_end) put,
            Left-last ready at_end,
          )
          | inr not_end ↦ rw (round_more fuel s net ready e not_end) (
              rw (length-content s) (
                Sends-more s net net₁ _ ready not_end (rw (← content_more s not_end) put) (
                  send_loop-Sends fuel (next s) net₁ (next-IsReady ready)
                    (omega (arith, more_progress ready not_end)))))
        ]
        | inr (x, net₁, e, same) ↦
            rw (round_failed fuel s net ready e)
              ([], same ∙ sym (append-nil (sent net)), ready, nothing_yet)
      ]

  -- A call to `send_next` on a sender whose positions lie in its buffers never runs out of rounds and
  -- never fails its assertion. If it finishes, it has put packets on the socket that carry all that
  -- was left; if it fails, it has put a beginning of such packets there, and the sender holds exactly
  -- the bytes and descriptors that they do not carry.
  pub send_next-Sends : (s : Sender) (net : Net) → IsReady s → Sends s net (send_next socket s net)
  unfolding send_next
  send_next-Sends s net ready = send_loop-Sends (send_fuel s) s net ready (omega arith)
