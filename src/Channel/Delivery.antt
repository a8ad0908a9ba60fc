-- ===== src/Channel/Delivery.antt =====
-- The two ends of a channel together: what one process sends with `Sender::send` and the other
-- takes with `Receiver::recv`.
use mathlib.Core.Path.{ap₂, subst}
use crossmist.Common.{
  ℕ, ◌≤◌, ◌≡◌, refl, sym, ap, ◌∙◌, Bool, some, List, [], ◌∷◌, ◌++◌, length, take, drop, map, arith,
  drop-append, append_assoc, append-nil,
}
use crossmist.Serde.{Object}
use crossmist.Serde.Format.{Format}
use crossmist.Serde.Law.{Law}
use crossmist.Unix.Socket.{Packet, SendSocket, RecvSocket}
use crossmist.Unix.Wire.{Splits}
use crossmist.Channel.{io_ok, send, recv}
use crossmist.Channel.Sending.{Puts, send-Puts}
use crossmist.Channel.Receiving.{OnUnix, Gets, recv-Gets}

-- The objects that calls of `send` have put on the socket, one after the other, each with success.
pub data Sent (socket : SendSocket) {T : Type 0} (o : Object T)
    : socket.Net → List T → socket.Net → Type 0 where
  sent_none : {net : socket.Net} → Sent socket o net [] net
  sent_next :
      {net net₁ net₂ : socket.Net} {vs : List T} (attempts : ℕ) (is_blocking : Bool) (v : T)
      → send socket o attempts is_blocking v net ≡ (io_ok tt, net₁)
      → Sent socket o net₁ vs net₂
      → Sent socket o net (v ∷ vs) net₂

-- The objects that calls of `recv` have returned, one after the other.
pub data Got (socket : RecvSocket) {T : Type 0} (o : Object T)
    : socket.Net → List T → socket.Net → Type 0 where
  got_none : {net : socket.Net} → Got socket o net [] net
  got_next :
      {net net₁ net₂ : socket.Net} {vs : List T} (attempts : ℕ) (is_blocking : Bool) (v : T)
      → recv o socket attempts is_blocking net ≡ (io_ok (some v), net₁)
      → Got socket o net₁ vs net₂
      → Got socket o net (v ∷ vs) net₂

-- Packets that carry these objects, one after the other.
data Carries {T : Type 0} (f : Format T) : List T → List Packet → Type 0 where
  carries_none : Carries f [] []
  carries_next :
      (v : T) {vs : List T} (ps : List Packet) {qs : List Packet}
      → Splits (f.encode v).bytes (f.encode v).fds ps
      → Carries f vs qs
      → Carries f (v ∷ vs) (ps ++ qs)

module _ {T : Type 0} {o o' : Object T} {f : Format T} (law : Law o o' f) where
  module _ (out : SendSocket) where
    open out use {Net, sent}

    added :
        (attempts : ℕ) (is_blocking : Bool) (v : T) (net net' : Net)
        → send out o attempts is_blocking v net ≡ (io_ok tt, net')
        → (ps : List Packet) × (sent net' ≡ sent net ++ ps)
          × Splits (f.encode v).bytes (f.encode v).fds ps
    added attempts is_blocking v net net' e =
        subst (Puts out (Splits (f.encode v).bytes (f.encode v).fds) net) e
          (send-Puts out law attempts is_blocking v net)

    Sent-Carries :
        {net net' : Net} {vs : List T}
        → Sent out o net vs net'
        → (ps : List Packet) × (sent net' ≡ sent net ++ ps) × Carries f vs ps
    Sent-Carries {net} sent_none = ([], sym (append-nil (sent net)), carries_none)
    Sent-Carries {net} (sent_next {net₁ = net₁} attempts is_blocking v e rest) =
        let (ps, e₁, splits) = added attempts is_blocking v net net₁ e in
        let (qs, e₂, carries) = Sent-Carries rest in
        (
          ps ++ qs,
          e₂ ∙ ap (λ l. l ++ qs) e₁ ∙ append_assoc (sent net) ps qs,
          carries_next v ps splits carries,
        )

  module _ (valid : (v : T) → f.Valid v) (on_unix : (v : T) → OnUnix f v) (back : RecvSocket) where
    open back use {Net, incoming}

    some-injective : (v w : T) → some v ≡ some w → v ≡ w
    some-injective v w e = cc

    taken :
        (attempts : ℕ) (is_blocking : Bool) (v w : T) (net net₁ : Net) (ps later : List Packet)
        → Splits (f.encode v).bytes (f.encode v).fds ps
        → incoming net ≡ ps ++ later
        → recv o' back attempts is_blocking net ≡ (io_ok (some w), net₁)
        → (w ≡ f.carry v) × (incoming net₁ ≡ later)
    taken attempts is_blocking v w net net₁ ps later splits inc e =
        let (same, inc') = subst (Gets o' back (f.carry v) later net) e (
          recv-Gets law back v (valid v) (on_unix v) later attempts is_blocking net ps splits
            inc) in
        (some-injective _ _ same, inc')

    Got-Carries :
        {net net' : Net} {vs ws : List T} {ps : List Packet} (later : List Packet)
        → Carries f vs ps
        → Got back o' net ws net'
        → incoming net ≡ ps ++ later
        → length ws ≤ length vs
        → ws ≡ map f.carry (take (length ws) vs)
    Got-Carries later carries got_none inc h = refl
    Got-Carries later carries_none (got_next attempts is_blocking w e rest) inc h =
        absurd (omega arith)
    Got-Carries {net} later (carries_next v ps {qs} splits carries)
          (got_next {net₁ = net₁} attempts is_blocking w e rest) inc h =
        let (same, inc') =
          taken attempts is_blocking v w net net₁ ps (qs ++ later) splits
            (inc ∙ append_assoc ps qs later) e in
        ap₂ (λ x xs. x ∷ xs) same (Got-Carries later carries rest inc' (omega arith))

  -- A channel is first in, first out, and neither loses, duplicates nor mixes objects. One process
  -- sends the objects `vs`, of a type of which all values are valid and use nothing but bytes and
  -- descriptors, each call with success, and the packets that this has put on the socket come first in
  -- the other process. If calls of `recv` there, one directly after the other, have
  -- returned the objects `ws`, no more than were sent, then these are the first of `vs` as they
  -- arrive, in order, however the objects were split into packets and however often a system call
  -- would have blocked on the way.
  pub first_in_first_out :
      (valid : (v : T) → f.Valid v) (on_unix : (v : T) → OnUnix f v) (out : SendSocket)
      (back : RecvSocket) (net₀ net₁ : out.Net) (net₂ net₃ : back.Net) (vs ws : List T)
      (later : List Packet)
      → Sent out o net₀ vs net₁
      → back.incoming net₂ ≡ drop (length (out.sent net₀)) (out.sent net₁) ++ later
      → Got back o' net₂ ws net₃
      → length ws ≤ length vs
      → ws ≡ map f.carry (take (length ws) vs)
  first_in_first_out valid on_unix out back net₀ net₁ net₂ net₃ vs ws later sending link got h =
      let (ps, e, carries) = Sent-Carries out sending in
      let same : back.incoming net₂ ≡ ps ++ later =
        link
        ∙ ap (λ l. drop (length (out.sent net₀)) l ++ later) e
        ∙ ap (λ l. l ++ later) (drop-append (out.sent net₀) ps) in
      Got-Carries valid on_unix back later carries got same h
