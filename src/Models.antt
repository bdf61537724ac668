-- ===== src/Models.antt =====
-- models/: the data structures that the synchronizers share.
pub mod Proto
pub mod Cache
pub mod Outcomes
pub mod Phoebus
pub mod Metadata
