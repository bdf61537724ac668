-- ===== src/Phoebus/Monitor/Tasks/Devices.antt =====
-- The devices that the task of a runtime message works on: that of its key.
use alarms_actions_synchroni.Prelude.{
  String, List, [], ◌∷◌, Option, none, some, Result, ok, err, Bool-cases, inl, inr, unwrap_or,
}
use alarms_actions_synchroni.Prelude.Int.{ℤ}
use alarms_actions_synchroni.External.PubSub.{StringMessage}
use alarms_actions_synchroni.Models.Proto.{Timestamp}
use alarms_actions_synchroni.Models.Cache.{CachedState}
use alarms_actions_synchroni.Models.Outcomes.{SyncOutcome}
use alarms_actions_synchroni.Models.Phoebus.{Config, PvMetadata, PhoebusParseError, from_unmapped}
use alarms_actions_synchroni.Models.Phoebus.Key
use alarms_actions_synchroni.Models.Phoebus.Key.{Key, Operation, KeyParseError}
use alarms_actions_synchroni.World.{Env, Request}
use alarms_actions_synchroni.Tasks.{returned}
use alarms_actions_synchroni.Tasks.Silent.{Uses-silent}
use alarms_actions_synchroni.Tasks.Isolated.{Uses, Each, Uses->>=}
use alarms_actions_synchroni.Phoebus.Sync.Tasks.{
  execute_command_task, execute_command_task-IsSilent,
}
use alarms_actions_synchroni.Phoebus.Monitor.{
  Monitor, PhoebusCommandDecision, ignore_unsupported_command, suppressed_by_policy, acknowledge,
  PhoebusConfigDecision, duplicate_config, no_enablement_change, activate, bypass, snooze,
  is_duplicate, decide_phoebus_command,
}
use alarms_actions_synchroni.Phoebus.Monitor.Tasks.{
  request_and_record, act_on_command_task, process_command_task, snooze_until_task,
  act_on_config_task, store_metadata_task, act_on_config_decision_task, with_config,
  process_config_task, dispatch_task, parsed_task, keyed_task, process_runtime_message_task,
}

-- The device of a key that could be read.
abbrev pub parsed_devices : Result Key KeyParseError → List String
parsed_devices (err e) = []
parsed_devices (ok key) = key.device ∷ []

abbrev pub key_devices : Option String → List String
key_devices none = []
key_devices (some text) = parsed_devices (Key.parse text)

module _ {V D : Type 0} (env : Env V D) where
  module _ (monitor : Monitor) where
    Uses-request_and_record :
        (P : String → Type 0) (key : Key) (state : CachedState) (request : Request)
        → P key.device
        → Uses P (request_and_record env monitor key state request)
    unfolding request_and_record
    Uses-request_and_record P key state request p =
        Uses->>= _ P (execute_command_task env monitor.controls_client request)
          (Uses-silent P _ (execute_command_task-IsSilent env monitor.controls_client request))
          (λ r. (p, tt))

    Uses-process_command :
        (P : String → Type 0) (key : Key) (text : String)
        → P key.device
        → Uses P (process_command_task env monitor key text)
    unfolding process_command_task
    Uses-process_command P key text p =
        (p, λ o. of_decision (decide_phoebus_command env text (record { observed = o })))
      where
        of_decision :
            (d : Result PhoebusCommandDecision PhoebusParseError)
            → Uses P (act_on_command_task env monitor key d)
        of_decision (err e) = tt
        of_decision (ok ignore_unsupported_command) = tt
        of_decision (ok suppressed_by_policy) = tt
        of_decision (ok (acknowledge user state)) = Uses-request_and_record P key state _ p

    Uses-act_on_config :
        (P : String → Type 0) (key : Key) (user : String) (decision : PhoebusConfigDecision)
        → P key.device
        → Uses P (act_on_config_task env monitor key user decision)
    unfolding act_on_config_task
    Uses-act_on_config P key user duplicate_config p = tt
    Uses-act_on_config P key user no_enablement_change p = tt
    Uses-act_on_config P key user (bypass state) p = Uses-request_and_record P key state _ p
    Uses-act_on_config P key user (activate state) p = Uses-request_and_record P key state _ p
    Uses-act_on_config P key user (snooze state) p = until state.wake
      where
        until :
            (wake : Option Timestamp) → Uses P (snooze_until_task env monitor key user state wake)
        until none = tt
        until (some wake) = Uses-request_and_record P key state _ p

    module _ (key : Key) (config : Config V) (cached : PvMetadata V) where
      Uses-store_metadata :
          (P : String → Type 0) (outcome : SyncOutcome)
          → P key.device
          → Uses P (store_metadata_task env monitor key config cached outcome)
      unfolding store_metadata_task
      Uses-store_metadata P outcome p = elim (Bool-cases (is_duplicate outcome)) [
        | inl same ↦ rw same tt
        | inr other ↦ rw other (p, tt)
      ]

      Uses-act_on_config_decision :
          (P : String → Type 0) (d : Result PhoebusConfigDecision PhoebusParseError)
          → P key.device
          → Uses P (act_on_config_decision_task env monitor key config cached d)
      unfolding act_on_config_decision_task
      Uses-act_on_config_decision P (err f) p = tt
      Uses-act_on_config_decision P (ok decision) p =
          Uses->>= _ P (act_on_config_task env monitor key config.user decision)
            (Uses-act_on_config P key config.user decision p)
            (λ outcome. Uses-store_metadata P outcome p)

    Uses-with_config :
        (P : String → Type 0) (now : ℤ) (key : Key) (config : Option (Config V))
        → P key.device
        → Uses P (with_config env monitor now key config)
    unfolding with_config
    Uses-with_config P now key none p = tt
    Uses-with_config P now key (some config) p = (
      p,
      λ known. (
        p,
        λ o.
            Uses-act_on_config_decision key config
              (unwrap_or known (from_unmapped key monitor.topic)) P _ p,
      ),
    )

    Uses-dispatch :
        (P : String → Type 0) (now : ℤ) (key : Key) (operation : Operation) (value : String)
        → P key.device
        → Uses P (dispatch_task env monitor now key operation value)
    unfolding dispatch_task process_config_task
    Uses-dispatch P now key Operation.command value p = Uses-process_command P key value p
    Uses-dispatch P now key Operation.config value p = Uses-with_config P now key _ p
    Uses-dispatch P now key Operation.state value p = tt

    pub Uses-process_runtime_message :
        (P : String → Type 0) (now : ℤ) (msg : StringMessage)
        → Each P (key_devices msg.key)
        → Uses P (process_runtime_message_task env monitor now msg)
    unfolding process_runtime_message_task
    Uses-process_runtime_message P now msg = of_key msg.key
      where
        of_parsed :
            (key : Result Key KeyParseError)
            → Each P (parsed_devices key)
            → Uses P (parsed_task env monitor now key msg.value)
        of_parsed (err e) each = tt
        of_parsed (ok key) each =
            Uses->>= (λ outcome. returned tt) P
              (dispatch_task env monitor now key key.operation msg.value)
              (Uses-dispatch P now key key.operation msg.value each.0) (λ outcome. tt)

        of_key :
            (key : Option String)
            → Each P (key_devices key)
            → Uses P (keyed_task env monitor now key msg.value)
        of_key none each = tt
        of_key (some text) each = of_parsed (Key.parse text) each
