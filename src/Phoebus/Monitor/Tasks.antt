-- ===== src/Phoebus/Monitor/Tasks.antt =====
-- The handling of a runtime message in phoebus/monitor/mod.rs as a task.
pub mod Alone
pub mod Guarding
pub mod Bounds
pub mod Devices
pub mod Settling
use alarms_actions_synchroni.Prelude.{
  String, Option, none, some, Result, ok, err, Result-cases, Option-cases, Bool-cases, ◌≡◌, refl,
  ◌∙◌, inl, inr, if◌then◌else◌, true, false, unwrap_or,
}
use alarms_actions_synchroni.Prelude.Int.{ℤ}
use alarms_actions_synchroni.Prelude.HashMap.{get}
use alarms_actions_synchroni.External.PubSub.{StringMessage}
use alarms_actions_synchroni.Models.Proto.{Timestamp}
use alarms_actions_synchroni.Models.Cache.{
  CachedState, ObservedStatePolicy, read_observed_state_policy,
}
use alarms_actions_synchroni.Models.Outcomes.{
  SyncOutcome, ignored, SyncDirection, IgnoreReason, OutboundSyncResult, into_sync_outcome,
}
use alarms_actions_synchroni.Models.Phoebus.{Config, PvMetadata, PhoebusParseError, from_unmapped}
use alarms_actions_synchroni.Models.Phoebus.Key
use alarms_actions_synchroni.Models.Phoebus.Key.{Key, Operation, KeyParseError}
use alarms_actions_synchroni.Models.Phoebus.Wire.{bool_or_string}
use alarms_actions_synchroni.Models.Metadata.{lookup_metadata_by_device}
use alarms_actions_synchroni.World
use alarms_actions_synchroni.World.{World, Env, Request}
use alarms_actions_synchroni.Tasks.{
  Task, returned, panicked, read_state, read_scope, write_state, write_scope, ◌>>=◌, run_alone,
}
use alarms_actions_synchroni.Tasks.Binding.{continued, run_alone->>=}
use alarms_actions_synchroni.Phoebus.Sync.{
  devices, execute_command, acknowledge_alarm, activate_alarm, bypass_alarm, snooze_alarm,
}
use alarms_actions_synchroni.Phoebus.Sync.Tasks.{execute_command_task, alone-execute_command}
use alarms_actions_synchroni.Phoebus.Monitor.{
  Monitor, PhoebusCommandDecision, ignore_unsupported_command, suppressed_by_policy, acknowledge,
  PhoebusConfigDecision, duplicate_config, no_enablement_change, activate, bypass, snooze,
  is_duplicate, world_after, log_parse_error, decide_phoebus_command, decide_phoebus_config,
  get_pv_metadata, record_after, act_on_command, process_command, snooze_until, act_on_config,
  store_metadata, act_on_config_decision, process_parsed_config, process_config, dispatch,
  process_parsed, process_keyed, process_runtime_message,
}

module _ {V D : Type 0} (env : Env V D) (monitor : Monitor) where
  -- The request, and then the record of the observed state whatever the result is.
  request_and_record : Key → CachedState → Request → Task V SyncOutcome
  request_and_record key updated_state request = do
    outbound_result ← execute_command_task env monitor.controls_client request
    write_state key.device updated_state
        (returned (into_sync_outcome outbound_result SyncDirection.phoebus_to_controls))

  act_on_command_task : Key → Result PhoebusCommandDecision PhoebusParseError → Task V SyncOutcome
  unfolding request_and_record log_parse_error
  act_on_command_task key (err e) = returned log_parse_error
  act_on_command_task key (ok ignore_unsupported_command) =
      returned (ignored IgnoreReason.state_noise)
  act_on_command_task key (ok suppressed_by_policy) =
      returned (ignored IgnoreReason.suppressed_by_policy)
  act_on_command_task key (ok (acknowledge user updated_state)) =
      request_and_record key updated_state (World.acknowledge (devices key.device) user)

  unfoldable pub process_command_task : Key → String → Task V SyncOutcome
  unfolding act_on_command_task
  process_command_task key msg_text = read_state key.device (λ observed.
      act_on_command_task key
        (decide_phoebus_command env msg_text (record { observed = observed })))

  snooze_until_task : Key → String → CachedState → Option Timestamp → Task V SyncOutcome
  unfolding request_and_record
  snooze_until_task key user updated_state none = panicked
  snooze_until_task key user updated_state (some wake) =
      request_and_record key updated_state (World.snooze (devices key.device) user (some wake))

  act_on_config_task : Key → String → PhoebusConfigDecision → Task V SyncOutcome
  unfolding request_and_record snooze_until_task
  act_on_config_task key user duplicate_config = returned SyncOutcome.duplicate
  act_on_config_task key user no_enablement_change = returned (ignored IgnoreReason.state_noise)
  act_on_config_task key user (bypass updated_state) =
      request_and_record key updated_state (World.bypass (devices key.device) user)
  act_on_config_task key user (activate updated_state) =
      request_and_record key updated_state (World.activate (devices key.device) user)
  act_on_config_task key user (snooze updated_state) =
      snooze_until_task key user updated_state updated_state.wake

  store_metadata_task : Key → Config V → PvMetadata V → SyncOutcome → Task V SyncOutcome
  store_metadata_task key config cached_metadata outcome =
      if is_duplicate outcome
      then returned outcome
      else write_scope key.device
          (record cached_metadata { phoebus_config_metadata = config.phoebus_specific })
          (returned outcome)

  act_on_config_decision_task :
      Key
      → Config V
      → PvMetadata V
      → Result PhoebusConfigDecision PhoebusParseError
      → Task V SyncOutcome
  unfolding act_on_config_task store_metadata_task log_parse_error
  act_on_config_decision_task key config cached_metadata (err e) = returned log_parse_error
  act_on_config_decision_task key config cached_metadata (ok decision) = do
    outcome ← act_on_config_task key config.user decision
    store_metadata_task key config cached_metadata outcome

  with_config : ℤ → Key → Option (Config V) → Task V SyncOutcome
  unfolding act_on_config_decision_task log_parse_error
  with_config now key none = returned log_parse_error
  with_config now key (some config) = read_scope key.device (λ known.
      let cached_metadata = unwrap_or known (from_unmapped key monitor.topic) in
      read_state key.device (λ observed.
        act_on_config_decision_task key config cached_metadata
          (decide_phoebus_config env now config cached_metadata (record { observed = observed }))))

  unfoldable pub process_config_task : ℤ → Key → String → Task V SyncOutcome
  unfolding with_config
  process_config_task now key msg_text =
      with_config now key (env.json.config_from_str (bool_or_string env.json) msg_text)

  dispatch_task : ℤ → Key → Operation → String → Task V SyncOutcome
  dispatch_task now key Operation.command value = process_command_task key value
  dispatch_task now key Operation.config value = process_config_task now key value
  dispatch_task now key Operation.state value = returned (ignored IgnoreReason.state_noise)

  parsed_task : ℤ → Result Key KeyParseError → String → Task V (Unit {0})
  unfolding dispatch_task
  parsed_task now (err e) value = returned tt
  parsed_task now (ok key) value = do
    outcome ← dispatch_task now key key.operation value
    returned tt

  keyed_task : ℤ → Option String → String → Task V (Unit {0})
  unfolding parsed_task
  keyed_task now none value = returned tt
  keyed_task now (some key_str) value = parsed_task now (Key.parse key_str) value

  unfoldable pub process_runtime_message_task : ℤ → StringMessage → Task V (Unit {0})
  unfolding keyed_task
  process_runtime_message_task now msg = keyed_task now msg.key msg.value
