-- ===== src/Unix/Sender/Splitting.antt =====
-- One round of `send_next`: which part of what is left goes into the packet.
use crossmist.Common.{
  ℕ, suc, ◌+◌, ◌-◌, ◌≤◌, ◌<◌, ◌≡◌, refl, sym, ap, ◌∙◌, true, false, List, [], ◌++◌, ◌⊎◌, inl, inr,
  length, drop, arith, length-take_le, length-drop, drop-drop, take-append-drop, drop_all,
}
use crossmist.Unix.{max_packet_size, max_packet_fds}
use crossmist.Unix.Sender.{
  Sender, slice, buffer_end, fds_end, is_last, packet_rights, advance, send_fuel,
}

module _ (from to : ℕ) (items : List ℕ) (ordered : from ≤ to) (inside : to ≤ length items) where
  length-slice : length (slice from to items) ≡ to - from
  length-slice = length-take_le _ (drop from items) (omega (arith, length-drop from items))

  drop-slice : drop from items ≡ slice from to items ++ drop to items
  drop-slice =
      let e : from + (to - from) ≡ to = omega arith in
      sym (
        ap (λ (k : ℕ). slice from to items ++ drop k items) (sym e)
        ∙ ap (λ l. slice from to items ++ l) (sym (drop-drop from (to - from) items))
        ∙ take-append-drop (to - from) (drop from items))

-- The positions lie in the buffers.
pub record IsReady (s : Sender) : Type 0 where
  pub data_inside : s.data_pos ≤ length s.buffer
  pub fds_inside : s.fds_pos ≤ length s.fds

abbrev pub left_bytes : Sender → List ℕ
left_bytes s = drop s.data_pos s.buffer

abbrev pub left_fds : Sender → List ℕ
left_fds s = drop s.fds_pos s.fds

abbrev pub payload : Sender → List ℕ
payload s = slice s.data_pos (buffer_end s) s.buffer

-- The sender when the kernel has taken the packet.
abbrev pub next : Sender → Sender
next s = advance s (suc (length (payload s)))

-- The ends of the windows.
pub record Window (s : Sender) : Type 0 where
  pub data_ordered : s.data_pos ≤ buffer_end s
  pub data_inside : buffer_end s ≤ length s.buffer
  pub data_small : buffer_end s - s.data_pos < max_packet_size
  pub fds_ordered : s.fds_pos ≤ fds_end s
  pub fds_inside : fds_end s ≤ length s.fds
  pub fds_small : fds_end s - s.fds_pos ≤ max_packet_fds

window : {s : Sender} → IsReady s → Window s
unfolding buffer_end fds_end
window ready = record {
  data_ordered = omega arith;
  data_inside = omega arith;
  data_small = omega arith;
  fds_ordered = omega arith;
  fds_inside = omega arith;
  fds_small = omega arith;
}

module _ {s : Sender} (ready : IsReady s) where
  length-payload : length (payload s) ≡ buffer_end s - s.data_pos
  length-payload =
      let w = window ready in
      length-slice s.data_pos (buffer_end s) s.buffer w.data_ordered w.data_inside

  length-rights : length (packet_rights s) ≡ fds_end s - s.fds_pos
  unfolding packet_rights
  length-rights =
      let w = window ready in length-slice s.fds_pos (fds_end s) s.fds w.fds_ordered w.fds_inside

  next_data_pos : (next s).data_pos ≡ buffer_end s
  unfolding advance
  next_data_pos = omega (arith, length-payload, (window ready).data_ordered)

  next_fds_pos : (next s).fds_pos ≡ fds_end s
  unfolding advance
  next_fds_pos = refl

  -- The packet is not too large.
  pub packet_fits :
      (length (payload s) < max_packet_size) × (length (packet_rights s) ≤ max_packet_fds)
  packet_fits = omega (arith, length-payload, length-rights, window ready)

  -- What is left is the packet and what is left afterwards.
  pub bytes_split : left_bytes s ≡ payload s ++ left_bytes (next s)
  unfolding advance
  bytes_split =
      let w = window ready in
      drop-slice s.data_pos (buffer_end s) s.buffer w.data_ordered w.data_inside
      ∙ ap (λ (k : ℕ). payload s ++ drop k s.buffer) (sym next_data_pos)

  pub fds_split : left_fds s ≡ packet_rights s ++ left_fds (next s)
  unfolding advance packet_rights
  fds_split =
      let w = window ready in drop-slice s.fds_pos (fds_end s) s.fds w.fds_ordered w.fds_inside

  pub next-IsReady : IsReady (next s)
  unfolding advance
  next-IsReady = record {
    data_inside = omega (arith, next_data_pos, window ready);
    fds_inside = (window ready).fds_inside;
  }

  last_ends : is_last s ≡ true → (buffer_end s ≡ length s.buffer) × (fds_end s ≡ length s.fds)
  unfolding is_last
  last_ends h = ground arith

  -- The last packet leaves nothing.
  pub last_leaves_nothing : is_last s ≡ true → (left_bytes (next s) ≡ []) × (left_fds (next s) ≡ [])
  unfolding advance
  last_leaves_nothing h = (
    drop_all _ s.buffer (omega (arith, next_data_pos, last_ends h)),
    drop_all _ s.fds (omega (arith, last_ends h)),
  )

  not_last_ends : is_last s ≡ false → (buffer_end s < length s.buffer) ⊎ (fds_end s < length s.fds)
  unfolding is_last
  not_last_ends h = ground (arith, window ready)

  window_moves :
      (buffer_end s < length s.buffer → s.data_pos < buffer_end s)
      × (fds_end s < length s.fds → s.fds_pos < fds_end s)
  unfolding buffer_end fds_end
  window_moves = (λ h. omega arith, λ h. omega arith)

  -- Any other packet has something in it, and leaves less to do.
  pub more_progress :
      is_last s ≡ false
      → (0 < length (payload s) + length (packet_rights s)) × (send_fuel (next s) < send_fuel s)
  unfolding send_fuel buffer_end advance
  more_progress h =
      let w = window ready in
      elim (not_last_ends h) [
        | inl k ↦
            omega (
              arith,
              length-payload,
              length-rights,
              next_data_pos,
              next_fds_pos,
              w,
              window_moves.0 k,
            )
        | inr k ↦
            omega (
              arith,
              length-payload,
              length-rights,
              next_data_pos,
              next_fds_pos,
              w,
              window_moves.1 k,
            )
      ]
