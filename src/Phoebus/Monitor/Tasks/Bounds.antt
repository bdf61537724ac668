-- ===== src/Phoebus/Monitor/Tasks/Bounds.antt =====
-- What the task of a runtime message of Phoebus costs.
use alarms_actions_synchroni.Prelude.{
  String, Option, none, some, Result, ok, err, Bool-cases, ◌≡◌, ◌≢◌, refl, inl, inr, true, false,
  arith, unwrap_or, Bool, if◌then◌else◌,
}
use alarms_actions_synchroni.Prelude.Int.{ℤ}
use alarms_actions_synchroni.External.PubSub.{StringMessage}
use alarms_actions_synchroni.Models.Proto.{Timestamp}
use alarms_actions_synchroni.Models.Cache.{CachedState, ObservedStatePolicy}
use alarms_actions_synchroni.Models.Outcomes.{SyncOutcome, OutboundSyncResult}
use alarms_actions_synchroni.Models.Phoebus.{Config, PvMetadata, PhoebusParseError, from_unmapped}
use alarms_actions_synchroni.Models.Phoebus.Key
use alarms_actions_synchroni.Models.Phoebus.Key.{Key, Operation, KeyParseError}
use alarms_actions_synchroni.Models.Phoebus.Wire.{bool_or_string}
use alarms_actions_synchroni.World.{Env, Request}
use alarms_actions_synchroni.Tasks.{returned, send}
use alarms_actions_synchroni.Tasks.Bounds.{Within, Within-more, Within->>=}
use alarms_actions_synchroni.Phoebus.Sync.{ControlsClient}
use alarms_actions_synchroni.Phoebus.Sync.Tasks.{execute_command_task}
use alarms_actions_synchroni.Phoebus.Monitor.{
  Monitor, PhoebusCommandDecision, ignore_unsupported_command, suppressed_by_policy, acknowledge,
  PhoebusConfigDecision, duplicate_config, no_enablement_change, activate, bypass, snooze,
  is_duplicate, decide_by_state, decide_by_wake, decide_on, decide_phoebus_command,
  decide_phoebus_config,
}
use alarms_actions_synchroni.Phoebus.Monitor.Tasks.{
  request_and_record, act_on_command_task, process_command_task, snooze_until_task,
  act_on_config_task, store_metadata_task, act_on_config_decision_task, with_config,
  process_config_task, dispatch_task, parsed_task, keyed_task, process_runtime_message_task,
}

module _ {V D : Type 0} (env : Env V D) where
  -- A snooze has a time at which it ends.
  pub wake_of_snooze :
      (now : ℤ) (config : Config V) (cached : PvMetadata V) (policy : ObservedStatePolicy)
      (state : CachedState)
      → decide_phoebus_config env now config cached policy ≡ ok (snooze state)
      → state.wake ≢ none
  unfolding decide_phoebus_config decide_on decide_by_state decide_by_wake
  wake_of_snooze now config cached policy state e = ground arith

  Within-execute_command :
      (Q : OutboundSyncResult → Type 0) (client : ControlsClient) (request : Request)
      → ((r : OutboundSyncResult) → Q r)
      → Within {V = V} Q 0 2 0 (execute_command_task env client request)
  unfolding execute_command_task
  Within-execute_command Q client request q =
      elim (Bool-cases (env.connects client.grpc_alarms_svc_host)) [
        | inr off ↦ rw off (q _)
        | inl on ↦ rw on (1, refl, first)
      ]
    where
      first :
          (b : Bool)
          → Within {V = V} Q 0 1 0 (
              if b
              then returned OutboundSyncResult.succeeded
              else send client.grpc_alarms_svc_host request (λ done.
                returned
                  (if done then OutboundSyncResult.succeeded else OutboundSyncResult.failed)))
      first true = q _
      first false = (0, refl, λ b. q _)

  module _ (monitor : Monitor) where
    Within-request_and_record :
        (Q : SyncOutcome → Type 0) (key : Key) (state : CachedState) (request : Request)
        → ((outcome : SyncOutcome) → Q outcome)
        → Within {V = V} Q 1 2 0 (request_and_record env monitor key state request)
    unfolding request_and_record
    Within-request_and_record Q key state request q =
        Within->>= Q _ 1 0 0 0 2 0 (execute_command_task env monitor.controls_client request)
          (Within-execute_command _ monitor.controls_client request (λ r. (0, refl, q _)))

    Within-process_command :
        (key : Key) (text : String)
        → Within (λ outcome. Unit {0}) 4 2 0 (process_command_task env monitor key text)
    unfolding process_command_task
    Within-process_command key text =
        (3, refl, λ o. of_decision (decide_phoebus_command env text (record { observed = o })))
      where
        of_decision :
            (d : Result PhoebusCommandDecision PhoebusParseError)
            → Within (λ outcome. Unit {0}) 3 2 0 (act_on_command_task env monitor key d)
        of_decision (err e) = unfold act_on_command_task in tt
        of_decision (ok ignore_unsupported_command) = unfold act_on_command_task in tt
        of_decision (ok suppressed_by_policy) = unfold act_on_command_task in tt
        of_decision (ok (acknowledge user state)) =
            unfold act_on_command_task in
            Within-more _ 2 0 0 1 2 0 (request_and_record env monitor key state _)
              (Within-request_and_record _ key state _ (λ outcome. tt))

    Within-act_on_config :
        (Q : SyncOutcome → Type 0) (key : Key) (user : String) (decision : PhoebusConfigDecision)
        → ((state : CachedState) → decision ≡ snooze state → state.wake ≢ none)
        → ((outcome : SyncOutcome) → Q outcome)
        → Within {V = V} Q 1 2 0 (act_on_config_task env monitor key user decision)
    unfolding act_on_config_task
    Within-act_on_config Q key user duplicate_config h q = q _
    Within-act_on_config Q key user no_enablement_change h q = q _
    Within-act_on_config Q key user (bypass state) h q = Within-request_and_record Q key state _ q
    Within-act_on_config Q key user (activate state) h q = Within-request_and_record Q key state _ q
    Within-act_on_config Q key user (snooze state) h q = until state.wake (h state refl)
      where
        until :
            (wake : Option Timestamp)
            → wake ≢ none
            → Within {V = V} Q 1 2 0 (snooze_until_task env monitor key user state wake)
        until none some_wake = absurd (some_wake refl)
        until (some wake) some_wake =
            unfold snooze_until_task in Within-request_and_record Q key state _ q

    Within-store_metadata :
        (key : Key) (config : Config V) (cached : PvMetadata V) (outcome : SyncOutcome)
        → Within
            (λ outcome. Unit {0})
            1
            0
            0
            (store_metadata_task env monitor key config cached outcome)
    unfolding store_metadata_task
    Within-store_metadata key config cached outcome = elim (Bool-cases (is_duplicate outcome)) [
      | inl same ↦ rw same tt
      | inr other ↦ rw other (0, refl, tt)
    ]

    Within-with_config :
        (now : ℤ) (key : Key) (config : Option (Config V))
        → Within (λ outcome. Unit {0}) 4 2 0 (with_config env monitor now key config)
    unfolding with_config
    Within-with_config now key none = tt
    Within-with_config now key (some config) = (
      3,
      refl,
      λ known. (
        2,
        refl,
        λ o.
            let cached = unwrap_or known (from_unmapped key monitor.topic) in
            of_decision cached
              (decide_phoebus_config env now config cached (record { observed = o }))
              (wake_of_snooze now config cached (record { observed = o })),
      ),
    )
      where
        of_decision :
            (cached : PvMetadata V) (d : Result PhoebusConfigDecision PhoebusParseError)
            → ((state : CachedState) → d ≡ ok (snooze state) → state.wake ≢ none)
            → Within
                (λ outcome. Unit {0})
                2
                2
                0
                (act_on_config_decision_task env monitor key config cached d)
        of_decision cached (err e) h = unfold act_on_config_decision_task in tt
        of_decision cached (ok decision) h =
            unfold act_on_config_decision_task in
            Within->>= _ _ 1 0 0 1 2 0 (act_on_config_task env monitor key config.user decision) (
              Within-act_on_config _ key config.user decision (λ state e. h state (rw e refl))
                (λ outcome. Within-store_metadata key config cached outcome))

    Within-dispatch :
        (now : ℤ) (key : Key) (operation : Operation) (value : String)
        → Within (λ outcome. Unit {0}) 4 2 0 (dispatch_task env monitor now key operation value)
    unfolding dispatch_task process_config_task
    Within-dispatch now key Operation.command value = Within-process_command key value
    Within-dispatch now key Operation.config value =
        Within-with_config now key (env.json.config_from_str (bool_or_string env.json) value)
    Within-dispatch now key Operation.state value = tt

    pub Within-process_runtime_message :
        (now : ℤ) (msg : StringMessage)
        → Within (λ a. Unit {0}) 4 2 0 (process_runtime_message_task env monitor now msg)
    unfolding process_runtime_message_task
    Within-process_runtime_message now msg = of_key msg.key
      where
        of_parsed :
            (key : Result Key KeyParseError)
            → Within (λ a. Unit {0}) 4 2 0 (parsed_task env monitor now key msg.value)
        of_parsed (err e) = unfold parsed_task in tt
        of_parsed (ok key) =
            unfold parsed_task in
            Within->>= _ _ 0 0 0 4 2 0 (dispatch_task env monitor now key key.operation msg.value)
              (Within-dispatch now key key.operation msg.value)

        of_key :
            (key : Option String)
            → Within (λ a. Unit {0}) 4 2 0 (keyed_task env monitor now key msg.value)
        of_key none = unfold keyed_task in tt
        of_key (some text) = unfold keyed_task in of_parsed (Key.parse text)
