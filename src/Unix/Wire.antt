-- ===== src/Unix/Wire.antt =====
-- The format of an object on the socket, whoever splits it: packets that are not too large, each
-- with something in it, of which only the last has the marker 1.
use crossmist.Common.{ℕ, ◌+◌, ◌≤◌, ◌<◌, List, [], ◌∷◌, ◌++◌, length}
use crossmist.Unix.Socket.{Packet}
use crossmist.Unix.{max_packet_size, max_packet_fds}

abbrev pub packet : ℕ → List ℕ → List ℕ → Packet
packet marker payload fds = record { content = marker ∷ payload; rights = fds }

-- The packets carry these bytes and these descriptors.
pub data Splits : List ℕ → List ℕ → List Packet → Type 0 where
  last :
      (payload fds : List ℕ)
      → length payload < max_packet_size
      → length fds ≤ max_packet_fds
      → Splits payload fds (packet 1 payload fds ∷ [])
  more :
      (payload fds : List ℕ) {bytes more_fds : List ℕ} {ps : List Packet}
      → length payload < max_packet_size
      → length fds ≤ max_packet_fds
      → 0 < length payload + length fds
      → Splits bytes more_fds ps
      → Splits (payload ++ bytes) (fds ++ more_fds) (packet 0 payload fds ∷ ps)

-- The packets `ps` carry the first of these bytes and descriptors; the last two lists are left.
pub data Begins : List ℕ → List ℕ → List Packet → List ℕ → List ℕ → Type 0 where
  nothing_yet : {bytes fds : List ℕ} → Begins bytes fds [] bytes fds
  one_more :
      (payload fds : List ℕ) {bytes more_fds left left_fds : List ℕ} {ps : List Packet}
      → length payload < max_packet_size
      → length fds ≤ max_packet_fds
      → 0 < length payload + length fds
      → Begins bytes more_fds ps left left_fds
      → Begins (payload ++ bytes) (fds ++ more_fds) (packet 0 payload fds ∷ ps) left left_fds

-- A beginning and packets for the rest.
pub Begins-Splits :
    {bytes fds left left_fds : List ℕ} {ps qs : List Packet}
    → Begins bytes fds ps left left_fds
    → Splits left left_fds qs
    → Splits bytes fds (ps ++ qs)
Begins-Splits nothing_yet splits = splits
Begins-Splits (one_more payload fds small few filled rest) splits =
    more payload fds small few filled (Begins-Splits rest splits)
