-- ===== src/Phoebus/Monitor/Tasks/Alone.antt =====
-- The tasks of the monitor, run alone.
use alarms_actions_synchroni.Prelude.{
  String, Option, none, some, Result, ok, err, Bool-cases, ◌≡◌, refl, ◌∙◌, inl, inr, unwrap_or, ap,
}
use alarms_actions_synchroni.Prelude.Int.{ℤ}
use alarms_actions_synchroni.External.PubSub.{StringMessage}
use alarms_actions_synchroni.Models.Proto.{Timestamp}
use alarms_actions_synchroni.Models.Cache.{CachedState, read_observed_state_policy}
use alarms_actions_synchroni.Models.Outcomes.{SyncOutcome}
use alarms_actions_synchroni.Models.Phoebus.{Config, PvMetadata, PhoebusParseError}
use alarms_actions_synchroni.Models.Phoebus.Key
use alarms_actions_synchroni.Models.Phoebus.Key.{Key, Operation, KeyParseError}
use alarms_actions_synchroni.Models.Phoebus.Wire.{bool_or_string}
use alarms_actions_synchroni.Models.Metadata.{lookup_metadata_by_device}
use alarms_actions_synchroni.World.{World, Env, Request}
use alarms_actions_synchroni.Tasks.{returned, run_alone}
use alarms_actions_synchroni.Tasks.Binding.{continued, left_by, run_alone->>=}
use alarms_actions_synchroni.Phoebus.Sync.{
  execute_command, acknowledge_alarm, activate_alarm, bypass_alarm, snooze_alarm,
}
use alarms_actions_synchroni.Phoebus.Sync.Tasks.{execute_command_task, alone-execute_command}
use alarms_actions_synchroni.Phoebus.Monitor.{
  Monitor, PhoebusCommandDecision, ignore_unsupported_command, suppressed_by_policy, acknowledge,
  PhoebusConfigDecision, duplicate_config, no_enablement_change, activate, bypass, snooze,
  is_duplicate, world_after, get_pv_metadata, record_after, act_on_command, process_command,
  snooze_until, act_on_config, store_metadata, act_on_config_decision, process_parsed_config,
  process_config, dispatch, process_parsed, process_keyed, process_runtime_message,
}
use alarms_actions_synchroni.Phoebus.Monitor.Tasks.{
  request_and_record, act_on_command_task, process_command_task, snooze_until_task,
  act_on_config_task, store_metadata_task, act_on_config_decision_task, with_config,
  process_config_task, dispatch_task, parsed_task, keyed_task, process_runtime_message_task,
}

module _ {V D : Type 0} (env : Env V D) (monitor : Monitor) where
  alone-request_and_record :
      (key : Key) (state : CachedState) (request : Request) (w : World V)
      → run_alone env (request_and_record env monitor key state request) w
        ≡ some (
            record_after env monitor key state
              (execute_command env monitor.controls_client request w))
  unfolding request_and_record record_after run_alone
  alone-request_and_record key state request w =
      run_alone->>= env _ (execute_command_task env monitor.controls_client request) w
      ∙ rw (alone-execute_command env monitor.controls_client request w) refl

  alone-act_on_command :
      (key : Key) (decision : Result PhoebusCommandDecision PhoebusParseError) (w : World V)
      → run_alone env (act_on_command_task env monitor key decision) w
        ≡ some (act_on_command env monitor key decision w)
  unfolding act_on_command act_on_command_task acknowledge_alarm
  alone-act_on_command key (err e) w = unfold run_alone in refl
  alone-act_on_command key (ok ignore_unsupported_command) w = unfold run_alone in refl
  alone-act_on_command key (ok suppressed_by_policy) w = unfold run_alone in refl
  alone-act_on_command key (ok (acknowledge user state)) w = alone-request_and_record key state _ w

  alone-process_command :
      (key : Key) (text : String) (w : World V)
      → run_alone env (process_command_task env monitor key text) w
        ≡ some (process_command env monitor key text w)
  unfolding process_command process_command_task read_observed_state_policy run_alone
  alone-process_command key text w = alone-act_on_command key _ w

  alone-snooze_until :
      (key : Key) (user : String) (state : CachedState) (wake : Option Timestamp) (w : World V)
      → run_alone env (snooze_until_task env monitor key user state wake) w
        ≡ snooze_until env monitor key user state wake w
  unfolding snooze_until snooze_until_task snooze_alarm
  alone-snooze_until key user state none w = unfold run_alone in refl
  alone-snooze_until key user state (some wake) w = alone-request_and_record key state _ w

  alone-act_on_config :
      (key : Key) (user : String) (decision : PhoebusConfigDecision) (w : World V)
      → run_alone env (act_on_config_task env monitor key user decision) w
        ≡ act_on_config env monitor key user decision w
  unfolding act_on_config act_on_config_task bypass_alarm activate_alarm
  alone-act_on_config key user duplicate_config w = unfold run_alone in refl
  alone-act_on_config key user no_enablement_change w = unfold run_alone in refl
  alone-act_on_config key user (bypass state) w = alone-request_and_record key state _ w
  alone-act_on_config key user (activate state) w = alone-request_and_record key state _ w
  alone-act_on_config key user (snooze state) w = alone-snooze_until key user state state.wake w

  alone-store_metadata :
      (key : Key) (config : Config V) (cached : PvMetadata V)
      (result : Option (SyncOutcome × World V))
      → continued env (store_metadata_task env monitor key config cached) result
        ≡ store_metadata env monitor key config cached result
  unfolding store_metadata store_metadata_task run_alone
  alone-store_metadata key config cached none = refl
  alone-store_metadata key config cached (some (outcome, w)) =
      elim (Bool-cases (is_duplicate outcome)) [
        | inl same ↦ rw same refl
        | inr other ↦ rw other refl
      ]

  alone-act_on_config_decision :
      (key : Key) (config : Config V) (cached : PvMetadata V)
      (decision : Result PhoebusConfigDecision PhoebusParseError) (w : World V)
      → run_alone env (act_on_config_decision_task env monitor key config cached decision) w
        ≡ act_on_config_decision env monitor key config cached decision w
  unfolding act_on_config_decision act_on_config_decision_task
  alone-act_on_config_decision key config cached (err e) w = unfold run_alone in refl
  alone-act_on_config_decision key config cached (ok decision) w =
      run_alone->>= env (store_metadata_task env monitor key config cached)
        (act_on_config_task env monitor key config.user decision) w
      ∙ rw (alone-act_on_config key config.user decision w)
          (alone-store_metadata key config cached _)

  alone-with_config :
      (now : ℤ) (key : Key) (config : Option (Config V)) (w : World V)
      → run_alone env (with_config env monitor now key config) w
        ≡ process_parsed_config env monitor now key config w
  unfolding process_parsed_config with_config read_observed_state_policy get_pv_metadata
      lookup_metadata_by_device run_alone
  alone-with_config now key none w = refl
  alone-with_config now key (some config) w =
      alone-act_on_config_decision key config
        (unwrap_or (lookup_metadata_by_device w.metadata_scope key.device) _) _ w

  alone-dispatch :
      (now : ℤ) (key : Key) (operation : Operation) (value : String) (w : World V)
      → run_alone env (dispatch_task env monitor now key operation value) w
        ≡ dispatch env monitor now key operation value w
  unfolding dispatch dispatch_task
  alone-dispatch now key Operation.command value w = alone-process_command key value w
  alone-dispatch now key Operation.config value w =
      unfold process_config process_config_task in
      alone-with_config now key (env.json.config_from_str (bool_or_string env.json) value) w
  alone-dispatch now key Operation.state value w = unfold run_alone in refl

  drop_outcome :
      (result : Option (SyncOutcome × World V))
      → left_by (continued env (λ outcome. returned tt) result) ≡ world_after result
  unfolding run_alone
  drop_outcome none = refl
  drop_outcome (some (outcome, w)) = refl

  alone-parsed :
      (now : ℤ) (key : Result Key KeyParseError) (value : String) (w : World V)
      → left_by (run_alone env (parsed_task env monitor now key value) w)
        ≡ process_parsed env monitor now key value w
  unfolding process_parsed parsed_task
  alone-parsed now (err e) value w = unfold run_alone in refl
  alone-parsed now (ok key) value w =
      ap left_by (
        run_alone->>= env (λ outcome. returned tt)
          (dispatch_task env monitor now key key.operation value) w)
      ∙ drop_outcome _
      ∙ ap world_after (alone-dispatch now key key.operation value w)

  alone-keyed :
      (now : ℤ) (key : Option String) (value : String) (w : World V)
      → left_by (run_alone env (keyed_task env monitor now key value) w)
        ≡ process_keyed env monitor now key value w
  unfolding process_keyed keyed_task
  alone-keyed now none value w = unfold run_alone in refl
  alone-keyed now (some text) value w = alone-parsed now (Key.parse text) value w

  pub alone-process_runtime_message :
      (now : ℤ) (msg : StringMessage) (w : World V)
      → left_by (run_alone env (process_runtime_message_task env monitor now msg) w)
        ≡ process_runtime_message env monitor now msg w
  unfolding process_runtime_message process_runtime_message_task
  alone-process_runtime_message now msg w = alone-keyed now msg.key msg.value w
