-- ===== src/Tests/Keys.antt =====
-- Keys and topics at concrete texts.
use alarms_actions_synchroni.Prelude.{String, ◌≡◌, ◌≢◌, ◌↔◌, refl, ap, none, ok, err}
use alarms_actions_synchroni.Prelude.Text.{◌++◌, strip_suffix}
use alarms_actions_synchroni.Prelude.Text.Suffixes.{strip_suffix-append}
use alarms_actions_synchroni.Prelude.Text.Splitting.{Lacks}
use alarms_actions_synchroni.Models.Phoebus.{from_unmapped}
use alarms_actions_synchroni.Models.Phoebus.Key.{
  Operation, parse, empty_device, unsupported_operation, malformed_structure, get_key_prefix,
}
use alarms_actions_synchroni.Utils.{get_command_topic}
use alarms_actions_synchroni.Controls.Topics.{RoutesTo, RoutesTo-from_unmapped, IsBaseTopic}
use alarms_actions_synchroni.Controls.Transform.{get_phoebus_key}
use alarms_actions_synchroni.Controls.Transform.Keys.{IsDeviceName, parse_iff}
use alarms_actions_synchroni.Controls.Transform.Rejections.{
  parse-empty_device_iff, parse-unsupported_operation_iff,
}
use alarms_actions_synchroni.Tests.Instance.{enabled_key, topic}
use alarms_actions_synchroni.Tests.Run.{run}

parse_tests :
    (parse "config:/Vacuum/M:OUTTMP" ≡ ok enabled_key)
    × (parse "config:/Vacuum/" ≡ err empty_device)
    × (parse "talk:/Vacuum/M:OUTTMP" ≡ err unsupported_operation)
    × (parse ":/Vacuum/M:OUTTMP" ≡ err malformed_structure)
unfolding run
parse_tests = (refl, refl, refl, refl)

parse_iff_example : (parse "config:/Vacuum/M:OUTTMP" ≡ ok enabled_key) ↔ (
    ("config:/Vacuum/M:OUTTMP"
      ≡ get_phoebus_key enabled_key.operation enabled_key.display_path enabled_key.device)
    × IsDeviceName enabled_key.device)
parse_iff_example = parse_iff "config:/Vacuum/M:OUTTMP" enabled_key

parse-empty_device_iff_example : (parse "config:/Vacuum/" ≡ err empty_device) ↔ (
    (operation : Operation) × (display_path : String) × ("config:/Vacuum/"
      ≡ get_phoebus_key operation display_path ""))
parse-empty_device_iff_example = parse-empty_device_iff "config:/Vacuum/"

parse-unsupported_operation_iff_example :
    (parse "talk:/Vacuum/M:OUTTMP" ≡ err unsupported_operation) ↔ (
      (prefix rest : String) × ("talk:/Vacuum/M:OUTTMP" ≡ prefix ++ ":" ++ rest)
      × Lacks ":" prefix
      × (prefix ≢ "")
      × ((operation : Operation) → prefix ≢ get_key_prefix operation))
parse-unsupported_operation_iff_example = parse-unsupported_operation_iff "talk:/Vacuum/M:OUTTMP"

no_suffix : strip_suffix topic "Command" ≡ none
unfolding run
no_suffix = refl

topic-IsBaseTopic : IsBaseTopic topic
unfolding run
topic-IsBaseTopic base same = cc (
  no_suffix,
  ap (λ (t : String). strip_suffix t "Command") same,
  strip_suffix-append base "Command",
)

RoutesTo-from_unmapped_example :
    RoutesTo (from_unmapped {V = String} enabled_key topic) topic
    × RoutesTo (from_unmapped {V = String} enabled_key (get_command_topic topic)) topic
RoutesTo-from_unmapped_example = RoutesTo-from_unmapped String enabled_key topic topic-IsBaseTopic
