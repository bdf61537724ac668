-- ===== src/Models/Outcomes.antt =====
-- models/outcomes/mod.rs
pub data SyncDirection : Type 0 where
  controls_to_phoebus phoebus_to_controls : SyncDirection

pub data IgnoreReason : Type 0 where
  external_source state_noise suppressed_by_policy : IgnoreReason

pub data SkipReason : Type 0 where
  missing_topic missing_publisher malformed_message : SkipReason

pub data AttemptResult : Type 0 where
  succeeded failed : AttemptResult

pub data SyncOutcome : Type 0 where
  duplicate : SyncOutcome
  ignored : IgnoreReason → SyncOutcome
  out_of_scope : SyncOutcome
  skipped : SkipReason → SyncOutcome
  attempted : SyncDirection → AttemptResult → SyncOutcome
  hydrated : SyncOutcome

pub data OutboundSyncResult : Type 0 where
  succeeded failed : OutboundSyncResult
  skipped : SkipReason → OutboundSyncResult

unfoldable pub into_sync_outcome : OutboundSyncResult → SyncDirection → SyncOutcome
into_sync_outcome OutboundSyncResult.succeeded direction =
    attempted direction AttemptResult.succeeded
into_sync_outcome OutboundSyncResult.failed direction = attempted direction AttemptResult.failed
into_sync_outcome (OutboundSyncResult.skipped reason) direction = SyncOutcome.skipped reason
