-- ===== src/Controls/Transform.antt =====
-- controls/transform/mod.rs
pub mod Keys
pub mod Rejections
pub mod Enablement
use alarms_actions_synchroni.Prelude.{
  String, Option, none, some, Result, ok, err, ◌==◌, if◌then◌else◌,
}
use alarms_actions_synchroni.Prelude.Int.{as_u32}
use alarms_actions_synchroni.Prelude.Text.{◌++◌}
use alarms_actions_synchroni.External.Chrono.{Chrono}
use alarms_actions_synchroni.External.SerdeJson.{SerdeJson}
use alarms_actions_synchroni.External.PubSub.{StringMessage}
use alarms_actions_synchroni.Models.Proto.{State, Status, Timestamp, state_eq}
use alarms_actions_synchroni.Models.Phoebus.{
  NormalizedEnablement, active, bypassed, snoozed_until, Config, PvMetadata, as_enabled_string,
}
use alarms_actions_synchroni.Models.Phoebus.Key.{Operation, get_key_prefix}
use alarms_actions_synchroni.Utils.{get_command_topic}

-- `CONTROLS_HOST` of this module
abbrev pub controls_app : String
controls_app = "Flutter Alarms App"

-- `ACK_COMMAND` of models/mod.rs
abbrev pub ack_command : String
ack_command = "acknowledge"

unfoldable pub state_to_operation : State → Option Operation
state_to_operation State.acknowledged = some Operation.command
state_to_operation State.bypassed = some Operation.config
state_to_operation State.unbypassed = some Operation.config
state_to_operation _ = none

unfoldable pub get_phoebus_key : Operation → String → String → String
unfolding get_key_prefix
get_phoebus_key operation display_path device =
    get_key_prefix operation ++ ":" ++ display_path ++ "/" ++ device

unfoldable pub get_topic_for_operation : {V : Type 0} → Operation → PvMetadata V → Option String
get_topic_for_operation Operation.command metadata = some (get_command_topic metadata.phoebus_topic)
get_topic_for_operation Operation.config metadata = some metadata.phoebus_topic
get_topic_for_operation Operation.state metadata = none

-- `Option::and_then`
abbrev and_then {ℓ κ} : {A : Type ℓ} {B : Type κ} → Option A → (A → Option B) → Option B
and_then none f = none
and_then (some a) f = f a

abbrev ok_message : String → Option String → Result StringMessage (Unit {0})
ok_message key none = err tt
ok_message key (some value) = ok (record { key = some key; value = value })

module _ {D : Type 0} (chrono : Chrono D) where
  snooze_time : Timestamp → Option D
  snooze_time t = chrono.timestamp_opt t.seconds (as_u32 t.nanos)

  -- The `match` on the time at which a bypassed alarm wakes.
  bypass_enablement : Option D → NormalizedEnablement D
  bypass_enablement none = bypassed
  bypass_enablement (some dt) = snoozed_until (chrono.fixed_offset dt)

  unfoldable pub normalized_enablement_from_controls : Status → NormalizedEnablement D
  unfolding snooze_time bypass_enablement
  normalized_enablement_from_controls controls_alarm =
      if controls_alarm.state == State.bypassed
      then bypass_enablement (and_then controls_alarm.wake snooze_time)
      else active

module _ {V D : Type 0} (json : SerdeJson V) (chrono : Chrono D) where
  unfoldable pub controls_to_phoebus :
      Status → Operation → PvMetadata V → Result StringMessage (Unit {0})
  controls_to_phoebus controls_alarm Operation.command metadata =
      ok_message (get_phoebus_key Operation.command metadata.display_path controls_alarm.device) (
        json.command_to_string
          (record { user = controls_alarm.user; host = controls_app; command = ack_command }))
  controls_to_phoebus controls_alarm Operation.config metadata =
      ok_message (get_phoebus_key Operation.config metadata.display_path controls_alarm.device) (
        json.config_to_string (record {
          enabled =
              as_enabled_string chrono (normalized_enablement_from_controls chrono controls_alarm);
          host = controls_app;
          user = controls_alarm.user;
          phoebus_specific = metadata.phoebus_config_metadata;
        }))
  controls_to_phoebus controls_alarm Operation.state metadata = err tt
