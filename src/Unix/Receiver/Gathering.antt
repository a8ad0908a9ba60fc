-- ===== src/Unix/Receiver/Gathering.antt =====
-- What a receiver has gathered so far, and how a packet adds to it.
use crossmist.Common.{
  ℕ, zero, suc, ◌+◌, ◌-◌, ◌≤◌, ◌≡◌, refl, sym, ap, ◌∙◌, true, List, [], ◌∷◌, ◌++◌, map, length,
  take, drop, replicate, arith, length-append, length-replicate, take-append, append_assoc,
  length-take_le, length-take, append-nil,
}
use crossmist.Unix.Socket.{scm_rights, concat}
use crossmist.Unix.{max_packet_size}
use crossmist.Unix.Receiver.{Receiver, resize, overwrite, extend_fds, receiver_new}
use mathlib.Core.Bool.{Bool, false}

-- The receiver holds these bytes and these descriptors.
pub record Gathered (r : Receiver) (bytes fds : List ℕ) : Type 0 where
  pub bytes_lem : take r.data_pos r.buffer ≡ bytes
  pub inside : r.data_pos ≤ length r.buffer
  pub fds_lem : r.fds ≡ fds
  pub running : r.terminated ≡ false

pub receiver_new-Gathered : (blocking : Bool) → Gathered (receiver_new blocking) [] []
receiver_new-Gathered blocking = record {
  bytes_lem = refl;
  inside = omega arith;
  fds_lem = refl;
  running = refl;
}

pub Gathered-length :
    {r : Receiver} {bytes fds : List ℕ} → Gathered r bytes fds → length bytes ≡ r.data_pos
Gathered-length {r} g = ap length (sym g.bytes_lem) ∙ length-take_le r.data_pos r.buffer g.inside

module _ {ℓ} {A : Type ℓ} where
  take-take-append :
      (m n : ℕ) (xs ys : List A) → m ≤ n → m ≤ length xs → take m (take n xs ++ ys) ≡ take m xs
  take-take-append zero n xs ys h k = refl
  take-take-append (suc m) zero xs ys h k = elim h [ ]
  take-take-append (suc m) (suc n) [] ys h k = elim k [ ]
  take-take-append (suc m) (suc n) (x ∷ xs) ys h k =
      ap (λ l. x ∷ l) (take-take-append m n xs ys (omega arith) (omega arith))

length-resize : (len : ℕ) (items : List ℕ) → len ≤ length (resize len items)
unfolding resize
length-resize len items =
    let k : ℕ = 0 in
    omega (
      arith,
      length-append (take len items) (replicate (len - length items) k),
      length-take len items,
      length-replicate (len - length items) k,
    )

length-overwrite :
    (pos : ℕ) (chunk items : List ℕ)
    → pos ≤ length items
    → pos + length chunk ≤ length (overwrite pos chunk items)
unfolding overwrite
length-overwrite pos chunk items h =
    let rest = drop (pos + length chunk) items in
    omega (
      arith,
      length-append (take pos items) (chunk ++ rest),
      length-append chunk rest,
      length-take pos items,
    )

take-overwrite :
    (pos : ℕ) (chunk items : List ℕ)
    → pos ≤ length items
    → take (pos + length chunk) (overwrite pos chunk items) ≡ take pos items ++ chunk
unfolding overwrite
take-overwrite pos chunk items h =
    let rest = drop (pos + length chunk) items in
    let front = take pos items ++ chunk in
    let e : pos + length chunk ≡ length front =
      omega (arith, length-append (take pos items) chunk, length-take pos items) in
    ap (λ (l : List ℕ). take (pos + length chunk) l)
      (sym (append_assoc (take pos items) chunk rest))
    ∙ ap (λ (n : ℕ). take n (front ++ rest)) e
    ∙ take-append front rest

-- The receiver when room has been made for the next packet.
abbrev pub with_room : Receiver → Receiver
with_room r = record r { buffer = resize (r.data_pos + max_packet_size - 1) r.buffer }

pub with_room-Gathered :
    {r : Receiver} {bytes fds : List ℕ} → Gathered r bytes fds → Gathered (with_room r) bytes fds
with_room-Gathered {r} g = record {
  bytes_lem =
      unfold resize in
      take-take-append r.data_pos (r.data_pos + max_packet_size - 1) r.buffer _ (omega arith)
        g.inside
      ∙ g.bytes_lem;
  inside = omega (arith, length-resize (r.data_pos + max_packet_size - 1) r.buffer);
  fds_lem = g.fds_lem;
  running = g.running;
}

-- The receiver when a packet has come in.
abbrev pub with_packet : Receiver → List ℕ → List ℕ → Receiver
with_packet r payload fds = record r {
  buffer = overwrite r.data_pos payload r.buffer;
  data_pos = r.data_pos + length payload;
  fds = r.fds ++ fds;
}

pub with_packet-Gathered :
    {r : Receiver} {bytes got_fds : List ℕ} (payload fds : List ℕ)
    → Gathered r bytes got_fds
    → Gathered (with_packet r payload fds) (bytes ++ payload) (got_fds ++ fds)
with_packet-Gathered {r} payload fds g = record {
  bytes_lem =
      take-overwrite r.data_pos payload r.buffer g.inside
      ∙ ap (λ (l : List ℕ). l ++ payload) g.bytes_lem;
  inside = length-overwrite r.data_pos payload r.buffer g.inside;
  fds_lem = ap (λ (l : List ℕ). l ++ fds) g.fds_lem;
  running = g.running;
}

-- The descriptors of a packet, in however many control messages they come.
pub extend_fds-rights :
    (parts : List (List ℕ)) (fds : List ℕ)
    → extend_fds (map scm_rights parts) fds ≡ (true, fds ++ concat parts)
unfolding extend_fds
extend_fds-rights [] fds = ap {B = Bool × List ℕ} (λ (l : List ℕ). (true, l)) (sym (append-nil fds))
extend_fds-rights (rights ∷ parts) fds =
    extend_fds-rights parts (fds ++ rights)
    ∙ ap {B = Bool × List ℕ} (λ (l : List ℕ). (true, l)) (append_assoc fds rights (concat parts))
