-- ===== src/Tests.antt =====
-- The code and its theorems at concrete inputs.
pub mod Queue
pub mod Values
pub mod Packets
pub mod Channels
pub mod Processes
pub mod Images
pub mod Handles
pub mod Calls
pub mod Starting
pub mod Launching
pub mod Maps
pub mod Entering
pub mod Pairing
pub mod Streams
pub mod Spawning
