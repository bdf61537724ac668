-- ===== src/Phoebus/Monitor.antt =====
-- phoebus/monitor/mod.rs: the runtime messages of one Phoebus topic.
pub mod Effect
pub mod Commands
pub mod Runtime
pub mod Repeats
pub mod Scope
pub mod Tasks
pub mod Loop
use alarms_actions_synchroni.Prelude.{
  String, Bool, true, false, Option, none, some, Result, ok, err, ok_or, unwrap_or, ◌==◌, string_eq,
  not, if◌then◌else◌, ◌>>=◌,
}
use alarms_actions_synchroni.Prelude.Int.{ℤ}
use alarms_actions_synchroni.Prelude.HashMap.{equals}
use alarms_actions_synchroni.External.PubSub.{StringMessage}
use alarms_actions_synchroni.Models.Proto.{State, Timestamp}
use alarms_actions_synchroni.Models.Cache.{
  CachedState, ObservedStatePolicy, suppresses_incoming, read_observed_state_policy,
  record_alarm_state,
}
use alarms_actions_synchroni.Models.Outcomes.{
  SyncOutcome, ignored, SyncDirection, IgnoreReason, OutboundSyncResult, SkipReason,
  into_sync_outcome,
}
use alarms_actions_synchroni.Models.Phoebus.{
  Command, Config, PvMetadata, PhoebusParseError, malformed_message, unexpected_state,
  as_cached_state, from_unmapped,
}
use alarms_actions_synchroni.Models.Phoebus.Key
use alarms_actions_synchroni.Models.Phoebus.Key.{Key, Operation, KeyParseError}
use alarms_actions_synchroni.Models.Phoebus.Wire.{bool_or_string}
use alarms_actions_synchroni.Models.Metadata.{lookup_metadata_by_device, update_cached_metadata}
use alarms_actions_synchroni.Controls.Transform.{ack_command}
use alarms_actions_synchroni.World.{World, Env}
use alarms_actions_synchroni.Phoebus.Sync.{
  ControlsClient, acknowledge_alarm, activate_alarm, bypass_alarm, snooze_alarm,
}

-- `Monitor` without the two shared caches, which stand in the world.
pub record Monitor : Type 0 where
  pub controls_client : ControlsClient
  pub phoebus_host : String
  pub topic : String

pub data PhoebusCommandDecision : Type 0 where
  ignore_unsupported_command suppressed_by_policy : PhoebusCommandDecision
  acknowledge : String → CachedState → PhoebusCommandDecision

pub data PhoebusConfigDecision : Type 0 where
  duplicate_config no_enablement_change : PhoebusConfigDecision
  activate bypass snooze : CachedState → PhoebusConfigDecision

-- The state that an acknowledgement is recorded as.
abbrev pub acknowledged_state : CachedState
acknowledged_state = record { state = State.acknowledged; wake = none }

decide_ack : Command → ObservedStatePolicy → PhoebusCommandDecision
decide_ack command_msg observed_policy =
    if not (command_msg.command == ack_command)
    then ignore_unsupported_command
    else if suppresses_incoming observed_policy acknowledged_state
    then suppressed_by_policy
    else acknowledge command_msg.user acknowledged_state

decide_by_wake : CachedState → Option Timestamp → PhoebusConfigDecision
decide_by_wake updated_state none = bypass updated_state
decide_by_wake updated_state (some wake) = snooze updated_state

decide_by_state : CachedState → State → Result PhoebusConfigDecision PhoebusParseError
unfolding decide_by_wake
decide_by_state updated_state State.bypassed = ok (decide_by_wake updated_state updated_state.wake)
decide_by_state updated_state State.unbypassed = ok (activate updated_state)
decide_by_state updated_state _ = err unexpected_state

abbrev pub is_duplicate : SyncOutcome → Bool
is_duplicate SyncOutcome.duplicate = true
is_duplicate _ = false

-- The outcome of a runtime message is only logged.
abbrev pub world_after : {V : Type 0} → Option (SyncOutcome × World V) → Option (World V)
world_after none = none
world_after (some (outcome, w)) = some w

-- `log_parse_error`
unfoldable pub log_parse_error : SyncOutcome
log_parse_error = SyncOutcome.skipped SkipReason.malformed_message

module _ {V D : Type 0} (env : Env V D) where
  unfoldable pub decide_phoebus_command :
      String → ObservedStatePolicy → Result PhoebusCommandDecision PhoebusParseError
  unfolding decide_ack
  decide_phoebus_command msg_text observed_policy = do
    command_msg ← ok_or (env.json.command_from_str msg_text) malformed_message
    ok (decide_ack command_msg observed_policy)

  decide_on :
      Config V
      → PvMetadata V
      → ObservedStatePolicy
      → CachedState
      → Result PhoebusConfigDecision PhoebusParseError
  unfolding decide_by_state
  decide_on config cached_metadata last_observed_state updated_state =
      if suppresses_incoming last_observed_state updated_state
      then ok (
          if equals env.json.same_value config.phoebus_specific
            cached_metadata.phoebus_config_metadata
          then duplicate_config
          else no_enablement_change)
      else decide_by_state updated_state updated_state.state

  -- `now` is the time at which the snooze date is compared.
  unfoldable pub decide_phoebus_config :
      ℤ
      → Config V
      → PvMetadata V
      → ObservedStatePolicy
      → Result PhoebusConfigDecision PhoebusParseError
  unfolding decide_on
  decide_phoebus_config now config cached_metadata last_observed_state = do
    updated_state ← as_cached_state env.chrono now config
    decide_on config cached_metadata last_observed_state updated_state

  module _ (monitor : Monitor) where
    unfoldable pub get_pv_metadata : Key → World V → PvMetadata V
    get_pv_metadata key w =
        unwrap_or (lookup_metadata_by_device w.metadata_scope key.device)
          (from_unmapped key monitor.topic)

    -- What every arm does after its request: the observed state is recorded, whatever the result.
    record_after : Key → CachedState → OutboundSyncResult × World V → SyncOutcome × World V
    record_after key updated_state (outbound_result, w) = (
      into_sync_outcome outbound_result SyncDirection.phoebus_to_controls,
      record w { alarm_states = record_alarm_state w.alarm_states key.device updated_state },
    )

    act_on_command :
        Key → Result PhoebusCommandDecision PhoebusParseError → World V → SyncOutcome × World V
    unfolding record_after log_parse_error
    act_on_command key (err e) w = (log_parse_error, w)
    act_on_command key (ok ignore_unsupported_command) w = (ignored IgnoreReason.state_noise, w)
    act_on_command key (ok suppressed_by_policy) w = (ignored IgnoreReason.suppressed_by_policy, w)
    act_on_command key (ok (acknowledge user updated_state)) w =
        record_after key updated_state
          (acknowledge_alarm env monitor.controls_client key.device user w)

    unfoldable pub process_command : Key → String → World V → SyncOutcome × World V
    unfolding act_on_command
    process_command key msg_text w =
        act_on_command key
          (decide_phoebus_command msg_text (read_observed_state_policy w.alarm_states key.device)) w

    -- `wake.unwrap()`, whose panic is `none`.
    snooze_until :
        Key → String → CachedState → Option Timestamp → World V → Option (SyncOutcome × World V)
    unfolding record_after
    snooze_until key user updated_state none w = none
    snooze_until key user updated_state (some wake) w = some (
        record_after key updated_state
          (snooze_alarm env monitor.controls_client key.device user wake w))

    act_on_config : Key → String → PhoebusConfigDecision → World V → Option (SyncOutcome × World V)
    unfolding record_after snooze_until
    act_on_config key user duplicate_config w = some (SyncOutcome.duplicate, w)
    act_on_config key user no_enablement_change w = some (ignored IgnoreReason.state_noise, w)
    act_on_config key user (bypass updated_state) w = some (
        record_after key updated_state (bypass_alarm env monitor.controls_client key.device user w))
    act_on_config key user (activate updated_state) w = some (
        record_after key updated_state
          (activate_alarm env monitor.controls_client key.device user w))
    act_on_config key user (snooze updated_state) w =
        snooze_until key user updated_state updated_state.wake w

    -- The metadata are stored unless the config was a duplicate.
    store_metadata :
        Key
        → Config V
        → PvMetadata V
        → Option (SyncOutcome × World V)
        → Option (SyncOutcome × World V)
    store_metadata key config cached_metadata none = none
    store_metadata key config cached_metadata (some (outcome, w)) =
        if is_duplicate outcome
        then some (outcome, w)
        else some (
          outcome,
          record w {
            metadata_scope =
                update_cached_metadata w.metadata_scope key.device
                  (record cached_metadata { phoebus_config_metadata = config.phoebus_specific });
          },
        )

    act_on_config_decision :
        Key
        → Config V
        → PvMetadata V
        → Result PhoebusConfigDecision PhoebusParseError
        → World V
        → Option (SyncOutcome × World V)
    unfolding act_on_config store_metadata log_parse_error
    act_on_config_decision key config cached_metadata (err e) w = some (log_parse_error, w)
    act_on_config_decision key config cached_metadata (ok decision) w =
        store_metadata key config cached_metadata (act_on_config key config.user decision w)

    unfoldable pub process_parsed_config :
        ℤ → Key → Option (Config V) → World V → Option (SyncOutcome × World V)
    unfolding act_on_config_decision log_parse_error
    process_parsed_config now key none w = some (log_parse_error, w)
    process_parsed_config now key (some config) w =
        let cached_metadata = get_pv_metadata key w in
        act_on_config_decision key config cached_metadata
          (decide_phoebus_config now config cached_metadata
            (read_observed_state_policy w.alarm_states key.device))
          w

    -- `none` is a panic.
    unfoldable pub process_config : ℤ → Key → String → World V → Option (SyncOutcome × World V)
    process_config now key msg_text w =
        process_parsed_config now key (env.json.config_from_str (bool_or_string env.json) msg_text)
          w

    unfoldable pub dispatch :
        ℤ → Key → Operation → String → World V → Option (SyncOutcome × World V)
    dispatch now key Operation.command value w = some (process_command key value w)
    dispatch now key Operation.config value w = process_config now key value w
    dispatch now key Operation.state value w = some (ignored IgnoreReason.state_noise, w)

    process_parsed : ℤ → Result Key KeyParseError → String → World V → Option (World V)
    process_parsed now (err e) value w = some w
    process_parsed now (ok key) value w = world_after (dispatch now key key.operation value w)

    process_keyed : ℤ → Option String → String → World V → Option (World V)
    unfolding process_parsed
    process_keyed now none value w = some w
    process_keyed now (some key_str) value w = process_parsed now (Key.parse key_str) value w

    unfoldable pub process_runtime_message : ℤ → StringMessage → World V → Option (World V)
    unfolding process_keyed
    process_runtime_message now msg w = process_keyed now msg.key msg.value w
