-- ===== src/Phoebus.antt =====
-- phoebus/: the synchronizer from Phoebus to Controls.
pub mod Sync
pub mod KeyErrors
pub mod Monitor
pub mod Init
pub mod Synchronizer
