-- ===== src/Channel/Sending.antt =====
-- `send` of src/asynchronous.rs, across calls that would block.
use mathlib.Core.Path.{subst}
use crossmist.Common.{
  ℕ, zero, suc, ◌≡◌, inl, inr, sym, ap, ◌∙◌, Bool, true, false, List, [], ◌++◌, arith, append_assoc,
  append-nil, Bool-cases,
}
use crossmist.Serde.{Object}
use crossmist.Serde.Format.{Format}
use crossmist.Serde.Law.{Law}
use crossmist.Serde.RoundTrip.{serialize-new}
use crossmist.Unix.Socket.{Packet, SendSocket}
use crossmist.Unix.Wire.{Splits, Begins-Splits}
use crossmist.Unix.Sender.{
  Sender, SendResult, finished, push_refused, out_of_fuel, failed, sender_new, send_next,
}
use crossmist.Unix.Sender.Splitting.{IsReady}
use crossmist.Unix.Sender.Sends.{Left, Sends, send_next-Sends}
use crossmist.Channel.{
  Io, io_ok, io_err, io_panic, io_undefined, gave_up, send_io, calls_again, after_write,
  blocking_write, send,
}

module _ (socket : SendSocket) where
  open socket use {Net, sent}

  -- What has been put on the socket, for each way in which the operation ends: if it succeeds,
  -- packets with `P`; it never panics.
  abbrev pub Puts : (List Packet → Type 0) → Net → Io (Unit {0}) × Net → Type 0
  Puts P net (io_ok _, net') = (ps : List Packet) × (sent net' ≡ sent net ++ ps) × P ps
  Puts P net (io_err e, net') = (ps : List Packet) × (sent net' ≡ sent net ++ ps)
  Puts P net (gave_up, net') = (ps : List Packet) × (sent net' ≡ sent net ++ ps)
  Puts P net (io_panic, net') = ⊥
  Puts P net (io_undefined, net') = ⊥

  -- An attempt that failed, before the next one.
  Puts-again :
      (s' s : Sender) (net net₁ : Net) (ps : List Packet) (out : Io (Unit {0}) × Net)
      → sent net₁ ≡ sent net ++ ps
      → ((qs : List Packet) → Left s' qs → Left s (ps ++ qs))
      → Puts (Left s') net₁ out
      → Puts (Left s) net out
  Puts-again s' s net net₁ ps (io_ok _, net') e k (qs, e', left) =
      (ps ++ qs, e' ∙ ap (λ l. l ++ qs) e ∙ append_assoc (sent net) ps qs, k qs left)
  Puts-again s' s net net₁ ps (io_err x, net') e k (qs, e') =
      (ps ++ qs, e' ∙ ap (λ l. l ++ qs) e ∙ append_assoc (sent net) ps qs)
  Puts-again s' s net net₁ ps (gave_up, net') e k (qs, e') =
      (ps ++ qs, e' ∙ ap (λ l. l ++ qs) e ∙ append_assoc (sent net) ps qs)
  Puts-again s' s net net₁ ps (io_panic, net') e k h = h
  Puts-again s' s net net₁ ps (io_undefined, net') e k h = h

  after_write-Puts :
      (is_blocking : Bool) (s : Sender) (net : Net) (out : SendResult × Sender × Net)
      (again : Sender → Net → Io (Unit {0}) × Net)
      → Sends socket s net out
      → ((s' : Sender) (net₁ : Net) → IsReady s' → Puts (Left s') net₁ (again s' net₁))
      → Puts (Left s) net (after_write socket is_blocking out again)
  unfolding after_write
  after_write-Puts true s net (finished, s', net₁) again (ps, e, left) h = (ps, e, left)
  after_write-Puts false s net (finished, s', net₁) again (ps, e, left) h = (ps, e, left)
  after_write-Puts is_blocking s net (failed x, s', net₁) again (ps, e, ready, k) h =
      elim (Bool-cases (calls_again is_blocking (send_io (failed x)))) [
        | inl more ↦ rw more (
            Puts-again s' s net net₁ ps (again s' net₁) e (λ qs. Begins-Splits k) (h s' net₁ ready))
        | inr done ↦ rw done (ps, e)
      ]
  after_write-Puts is_blocking s net (push_refused, s', net₁) again none_such h = absurd none_such
  after_write-Puts is_blocking s net (out_of_fuel, s', net₁) again none_such h = absurd none_such

  blocking_write-Puts :
      (attempts : ℕ) (is_blocking : Bool) (s : Sender) (net : Net)
      → IsReady s
      → Puts (Left s) net (blocking_write socket attempts is_blocking s net)
  unfolding blocking_write
  blocking_write-Puts zero is_blocking s net ready = ([], sym (append-nil (sent net)))
  blocking_write-Puts (suc attempts) is_blocking s net ready =
      after_write-Puts is_blocking s net (send_next socket s net)
        (blocking_write socket attempts is_blocking) (send_next-Sends socket s net ready)
        (blocking_write-Puts attempts is_blocking)

  pub sender_new-IsReady :
      {T : Type 0} (o : Object T) (v : T) (is_blocking : Bool)
      → IsReady (sender_new o v is_blocking)
  unfolding sender_new
  sender_new-IsReady o v is_blocking = record {
    data_inside = omega arith;
    fds_inside = omega arith;
  }

  -- `send` never panics, whatever the kernel answers and however often the call would block. If it
  -- succeeds, it has put on the socket packets that split the bytes and descriptors of the value, all
  -- of them, in order and once, and nothing else. If not, it has at most added packets.
  pub send-Puts :
      {T : Type 0} {o o' : Object T} {f : Format T}
      → Law o o' f
      → (attempts : ℕ) (is_blocking : Bool) (v : T) (net : Net)
      → Puts
          (Splits (f.encode v).bytes (f.encode v).fds)
          net
          (send socket o attempts is_blocking v net)
  unfolding send
  send-Puts {o} law attempts is_blocking v net =
      subst (λ s. Puts (Splits s.bytes s.fds) net (send socket o attempts is_blocking v net))
        (serialize-new law v)
        (blocking_write-Puts attempts is_blocking (sender_new o v is_blocking) net
          (sender_new-IsReady o v is_blocking))
