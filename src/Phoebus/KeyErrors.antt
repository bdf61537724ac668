-- ===== src/Phoebus/KeyErrors.antt =====
-- `map_key_parse_error` of phoebus/mod.rs, which only logs its texts.
use alarms_actions_synchroni.Models.Outcomes.{SyncOutcome, ignored, IgnoreReason, SkipReason}
use alarms_actions_synchroni.Models.Phoebus.Key.{
  KeyParseError, malformed_structure, unsupported_operation, empty_device,
}

unfoldable pub map_key_parse_error : KeyParseError → SyncOutcome
map_key_parse_error unsupported_operation = ignored IgnoreReason.state_noise
map_key_parse_error malformed_structure = SyncOutcome.skipped SkipReason.malformed_message
map_key_parse_error empty_device = SyncOutcome.skipped SkipReason.malformed_message
