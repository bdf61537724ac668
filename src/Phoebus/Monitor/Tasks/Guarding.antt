-- ===== src/Phoebus/Monitor/Tasks/Guarding.antt =====
-- The task of a runtime message writes no state that may not follow what it has read.
use alarms_actions_synchroni.Prelude.{
  String, Option, none, some, Result, ok, err, Bool-cases, ◌≡◌, refl, inl, inr, false, arith,
  unwrap_or,
}
use alarms_actions_synchroni.Prelude.Int.{ℤ}
use alarms_actions_synchroni.External.PubSub.{StringMessage}
use alarms_actions_synchroni.Models.Proto.{Timestamp}
use alarms_actions_synchroni.Models.Cache.{CachedState, ObservedStatePolicy, suppresses_incoming}
use alarms_actions_synchroni.Models.Outcomes.{SyncOutcome}
use alarms_actions_synchroni.Models.Phoebus.{Config, PvMetadata, PhoebusParseError, from_unmapped}
use alarms_actions_synchroni.Models.Phoebus.Key
use alarms_actions_synchroni.Models.Phoebus.Key.{Key, Operation, KeyParseError}
use alarms_actions_synchroni.Models.Phoebus.Wire.{bool_or_string}
use alarms_actions_synchroni.World.{Env, Request}
use alarms_actions_synchroni.Phoebus.Sync.Tasks.{
  execute_command_task, execute_command_task-IsSilent,
}
use alarms_actions_synchroni.Phoebus.Monitor.{
  Monitor, PhoebusCommandDecision, ignore_unsupported_command, suppressed_by_policy, acknowledge,
  PhoebusConfigDecision, duplicate_config, no_enablement_change, activate, bypass, snooze,
  is_duplicate, decide_ack, decide_by_state, decide_by_wake, decide_on, decide_phoebus_command,
  decide_phoebus_config,
}
use alarms_actions_synchroni.Phoebus.Monitor.Tasks.{
  request_and_record, act_on_command_task, process_command_task, snooze_until_task,
  act_on_config_task, store_metadata_task, act_on_config_decision_task, with_config,
  process_config_task, dispatch_task, parsed_task, keyed_task, process_runtime_message_task,
}
use alarms_actions_synchroni.System.Touching.{MayFollow, MayFollow_of_fresh}
use alarms_actions_synchroni.System.Interleaving.{Seen}
use alarms_actions_synchroni.System.Interleaving.Guards.{
  Permits, Guarded, Guarded->>=, Guarded-silent,
}

-- The state that a decision records.
abbrev pub recorded_by_command : PhoebusCommandDecision → Option CachedState
recorded_by_command (acknowledge user state) = some state
recorded_by_command _ = none

abbrev pub recorded_by_config : PhoebusConfigDecision → Option CachedState
recorded_by_config duplicate_config = none
recorded_by_config no_enablement_change = none
recorded_by_config (activate state) = some state
recorded_by_config (bypass state) = some state
recorded_by_config (snooze state) = some state

module _ {V D : Type 0} (env : Env V D) where
  fresh_command :
      (text : String) (policy : ObservedStatePolicy) (decision : PhoebusCommandDecision)
      (state : CachedState)
      → decide_phoebus_command env text policy ≡ ok decision
      → recorded_by_command decision ≡ some state
      → suppresses_incoming policy state ≡ false
  unfolding decide_phoebus_command decide_ack
  fresh_command text policy decision state e r = ground arith

  fresh_config :
      (now : ℤ) (config : Config V) (cached : PvMetadata V) (policy : ObservedStatePolicy)
      (decision : PhoebusConfigDecision) (state : CachedState)
      → decide_phoebus_config env now config cached policy ≡ ok decision
      → recorded_by_config decision ≡ some state
      → suppresses_incoming policy state ≡ false
  unfolding decide_phoebus_config decide_on decide_by_state decide_by_wake
  fresh_config now config cached policy decision state e r = ground arith

  module _ (monitor : Monitor) where
    Guarded-request_and_record :
        (Q : Seen → SyncOutcome → Type 0) (seen : Seen) (key : Key) (state : CachedState)
        (request : Request)
        → Permits seen key.device state
        → ((outcome : SyncOutcome) → Q seen outcome)
        → Guarded Q seen (request_and_record env monitor key state request)
    unfolding request_and_record
    Guarded-request_and_record Q seen key state request permitted q =
        Guarded->>= _ _ seen (execute_command_task env monitor.controls_client request) (
          Guarded-silent _ seen _
            (execute_command_task-IsSilent env monitor.controls_client request)
            (λ r. (permitted, q _)))

    Guarded-process_command :
        (key : Key) (text : String) (seen : Seen)
        → Guarded (λ later a. Unit {0}) seen (process_command_task env monitor key text)
    unfolding process_command_task
    Guarded-process_command key text seen = λ o.
        of_decision o (decide_phoebus_command env text (record { observed = o }))
          (λ decision state e r.
            MayFollow_of_fresh o state
              (fresh_command text (record { observed = o }) decision state e r))
      where
        of_decision :
            (o : Option CachedState) (d : Result PhoebusCommandDecision PhoebusParseError)
            → ((decision : PhoebusCommandDecision) (state : CachedState)
                → d ≡ ok decision
                → recorded_by_command decision ≡ some state
                → MayFollow o state)
            → Guarded
                (λ later a. Unit {0})
                (some (key.device, o))
                (act_on_command_task env monitor key d)
        of_decision o (err e) h = tt
        of_decision o (ok ignore_unsupported_command) h = tt
        of_decision o (ok suppressed_by_policy) h = tt
        of_decision o (ok (acknowledge user state)) h =
            Guarded-request_and_record _ _ key state _
              (refl, h (acknowledge user state) state refl refl) (λ outcome. tt)

    Guarded-act_on_config :
        (Q : Seen → SyncOutcome → Type 0) (seen : Seen) (key : Key) (user : String)
        (decision : PhoebusConfigDecision)
        → ((state : CachedState)
            → recorded_by_config decision ≡ some state
            → Permits seen key.device state)
        → ((outcome : SyncOutcome) → Q seen outcome)
        → Guarded Q seen (act_on_config_task env monitor key user decision)
    unfolding act_on_config_task
    Guarded-act_on_config Q seen key user duplicate_config h q = q _
    Guarded-act_on_config Q seen key user no_enablement_change h q = q _
    Guarded-act_on_config Q seen key user (bypass state) h q =
        Guarded-request_and_record Q seen key state _ (h state refl) q
    Guarded-act_on_config Q seen key user (activate state) h q =
        Guarded-request_and_record Q seen key state _ (h state refl) q
    Guarded-act_on_config Q seen key user (snooze state) h q = until state.wake
      where
        until :
            (wake : Option Timestamp)
            → Guarded Q seen (snooze_until_task env monitor key user state wake)
        until none = tt
        until (some wake) = Guarded-request_and_record Q seen key state _ (h state refl) q

    Guarded-store_metadata :
        (seen : Seen) (key : Key) (config : Config V) (cached : PvMetadata V)
        (outcome : SyncOutcome)
        → Guarded
            (λ later a. Unit {0})
            seen
            (store_metadata_task env monitor key config cached outcome)
    unfolding store_metadata_task
    Guarded-store_metadata seen key config cached outcome =
        elim (Bool-cases (is_duplicate outcome)) [ inl same ↦ rw same tt | inr other ↦ rw other tt ]

    Guarded-with_config :
        (now : ℤ) (key : Key) (seen : Seen) (config : Option (Config V))
        → Guarded (λ later a. Unit {0}) seen (with_config env monitor now key config)
    unfolding with_config
    Guarded-with_config now key seen none = tt
    Guarded-with_config now key seen (some config) = λ known o.
        let cached = unwrap_or known (from_unmapped key monitor.topic) in
        of_decision o cached (decide_phoebus_config env now config cached (record { observed = o }))
          (λ decision state e r.
            MayFollow_of_fresh o state
              (fresh_config now config cached (record { observed = o }) decision state e r))
      where
        of_decision :
            (o : Option CachedState) (cached : PvMetadata V)
            (d : Result PhoebusConfigDecision PhoebusParseError)
            → ((decision : PhoebusConfigDecision) (state : CachedState)
                → d ≡ ok decision
                → recorded_by_config decision ≡ some state
                → MayFollow o state)
            → Guarded
                (λ later a. Unit {0})
                (some (key.device, o))
                (act_on_config_decision_task env monitor key config cached d)
        of_decision o cached (err e) h = tt
        of_decision o cached (ok decision) h =
            Guarded->>= _ _ _ (act_on_config_task env monitor key config.user decision) (
              Guarded-act_on_config _ _ key config.user decision
                (λ state r. (refl, h decision state refl r))
                (λ outcome. Guarded-store_metadata _ key config cached outcome))

    Guarded-dispatch :
        (now : ℤ) (key : Key) (seen : Seen) (operation : Operation) (value : String)
        → Guarded (λ later a. Unit {0}) seen (dispatch_task env monitor now key operation value)
    unfolding dispatch_task process_config_task
    Guarded-dispatch now key seen Operation.command value = Guarded-process_command key value seen
    Guarded-dispatch now key seen Operation.config value =
        Guarded-with_config now key seen (env.json.config_from_str (bool_or_string env.json) value)
    Guarded-dispatch now key seen Operation.state value = tt

    pub Guarded-process_runtime_message :
        (now : ℤ) (msg : StringMessage) (seen : Seen)
        → Guarded (λ later a. Unit {0}) seen (process_runtime_message_task env monitor now msg)
    unfolding process_runtime_message_task
    Guarded-process_runtime_message now msg seen = of_key msg.key
      where
        of_parsed :
            (key : Result Key KeyParseError)
            → Guarded (λ later a. Unit {0}) seen (parsed_task env monitor now key msg.value)
        of_parsed (err e) = tt
        of_parsed (ok key) =
            Guarded->>= _ _ seen (dispatch_task env monitor now key key.operation msg.value)
              (Guarded-dispatch now key seen key.operation msg.value)

        of_key :
            (key : Option String)
            → Guarded (λ later a. Unit {0}) seen (keyed_task env monitor now key msg.value)
        of_key none = tt
        of_key (some text) = of_parsed (Key.parse text)
