-- ===== src/Tests.antt =====
-- The theorems at concrete inputs.
pub mod Instance
pub mod Run
pub mod Monitoring
pub mod Mirroring
pub mod Starting
pub mod Looping
pub mod Keys
pub mod Interleaving
pub mod Running
pub mod Isolating
