-- ===== src/Unix.antt =====
-- src/platform/unix/internals.rs: one object as a series of packets on a SOCK_SEQPACKET socket.
pub mod Socket
pub mod Wire
pub mod Sender
pub mod Receiver
use crossmist.Common.{ℕ}

-- `MAX_PACKET_SIZE`
abbrev pub max_packet_size : ℕ
max_packet_size = 16384

-- `MAX_PACKET_FDS`
abbrev pub max_packet_fds : ℕ
max_packet_fds = 253
