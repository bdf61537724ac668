-- ===== src/Phoebus/Monitor/Tasks/Settling.antt =====
-- What the task of a runtime message leaves of its device is settled by what it finds.
use alarms_actions_synchroni.Prelude.{
  String, Option, none, some, Result, ok, err, ◌≡◌, refl, inl, unwrap_or, ◌≢◌,
}
use alarms_actions_synchroni.Prelude.Int.{ℤ}
use alarms_actions_synchroni.External.PubSub.{StringMessage}
use alarms_actions_synchroni.Models.Proto.{Timestamp}
use alarms_actions_synchroni.Models.Cache.{CachedState}
use alarms_actions_synchroni.Models.Outcomes.{
  SyncOutcome, SyncDirection, OutboundSyncResult, into_sync_outcome,
}
use alarms_actions_synchroni.Models.Phoebus.{Config, PvMetadata, PhoebusParseError, from_unmapped}
use alarms_actions_synchroni.Models.Phoebus.Key
use alarms_actions_synchroni.Models.Phoebus.Key.{Key, Operation, KeyParseError}
use alarms_actions_synchroni.Models.Phoebus.Wire.{bool_or_string}
use alarms_actions_synchroni.World.{Env, Request}
use alarms_actions_synchroni.Tasks.{returned, write_state}
use alarms_actions_synchroni.Tasks.Silent.{Isolated-silent}
use alarms_actions_synchroni.Tasks.Isolated.{Entry, Isolated, Settles, Each, Isolated->>=}
use alarms_actions_synchroni.Phoebus.Sync.Tasks.{
  execute_command_task, execute_command_task-IsSilent,
}
use alarms_actions_synchroni.Phoebus.Monitor.{
  Monitor, PhoebusCommandDecision, ignore_unsupported_command, suppressed_by_policy, acknowledge,
  PhoebusConfigDecision, duplicate_config, no_enablement_change, activate, bypass, snooze,
  decide_phoebus_command, decide_phoebus_config,
}
use alarms_actions_synchroni.Phoebus.Monitor.Tasks.Devices.{parsed_devices, key_devices}
use alarms_actions_synchroni.Phoebus.Monitor.Tasks.Bounds.{wake_of_snooze}
use alarms_actions_synchroni.Phoebus.Monitor.Tasks.{
  request_and_record, act_on_command_task, process_command_task, snooze_until_task,
  act_on_config_task, store_metadata_task, act_on_config_decision_task, with_config,
  process_config_task, dispatch_task, parsed_task, keyed_task, process_runtime_message_task,
}

module _ {V D : Type 0} (env : Env V D) where
  module _ (monitor : Monitor) where
    Isolated-request_and_record :
        (Q : SyncOutcome → Entry V → Type 0) (key : Key) (e : Entry V) (state : CachedState)
        (request : Request)
        → ((r : OutboundSyncResult)
            → Q (into_sync_outcome r SyncDirection.phoebus_to_controls) (some state, e.1))
        → Isolated key.device Q (e.0, e.1) (request_and_record env monitor key state request)
    unfolding request_and_record
    Isolated-request_and_record Q key e state request q =
        Isolated->>= _ key.device Q e.0 e.1
          (execute_command_task env monitor.controls_client request)
          (Isolated-silent key.device
            (λ r found.
              Isolated key.device Q (found.0, found.1)
                (write_state key.device state
                  (returned (into_sync_outcome r SyncDirection.phoebus_to_controls))))
            e.0 e.1 _ (execute_command_task-IsSilent env monitor.controls_client request)
            (λ r. inl (refl, q r)))

    Settles-process_command :
        (key : Key) (text : String) (e : Entry V)
        → Settles key.device e (process_command_task env monitor key text)
    unfolding process_command_task
    Settles-process_command key text e =
        let (left, settled) =
          of_decision (decide_phoebus_command env text (record { observed = e.0 })) in
        (left, inl (refl, settled))
      where
        of_decision :
            (d : Result PhoebusCommandDecision PhoebusParseError)
            → Settles key.device e (act_on_command_task env monitor key d)
        of_decision (err f) = (e, refl)
        of_decision (ok ignore_unsupported_command) = (e, refl)
        of_decision (ok suppressed_by_policy) = (e, refl)
        of_decision (ok (acknowledge user state)) = (
          (some state, e.1),
          Isolated-request_and_record (λ a found. found ≡ (some state, e.1)) key e state _
              (λ r. refl),
        )

    module _ (key : Key) (config : Config V) (cached : PvMetadata V) where
      -- The metadata that are stored with a config.
      abbrev renewed : PvMetadata V
      renewed = record cached { phoebus_config_metadata = config.phoebus_specific }

      -- The entry that a decision on a config leaves.
      abbrev left_by_config : Entry V → PhoebusConfigDecision → Entry V
      left_by_config e duplicate_config = e
      left_by_config e no_enablement_change = (e.0, some renewed)
      left_by_config e (activate state) = (some state, some renewed)
      left_by_config e (bypass state) = (some state, some renewed)
      left_by_config e (snooze state) = (some state, some renewed)

      -- What is then stored leaves this entry.
      abbrev Stores : Entry V → SyncOutcome → Entry V → Type 0
      Stores left outcome found =
          Isolated key.device (λ a f. f ≡ left) (found.0, found.1)
            (store_metadata_task env monitor key config cached outcome)

      Isolated-record_and_store :
          (e : Entry V) (state : CachedState) (request : Request)
          → Isolated key.device
              (Stores (some state, some renewed))
              (e.0, e.1)
              (request_and_record env monitor key state request)
      Isolated-record_and_store e state request =
          Isolated-request_and_record (Stores (some state, some renewed)) key e state request
            recorded
        where
          recorded :
              (r : OutboundSyncResult)
              → Stores
                  (some state, some renewed)
                  (into_sync_outcome r SyncDirection.phoebus_to_controls)
                  (some state, e.1)
          recorded OutboundSyncResult.succeeded =
              unfold store_metadata_task into_sync_outcome in inl (refl, refl)
          recorded OutboundSyncResult.failed =
              unfold store_metadata_task into_sync_outcome in inl (refl, refl)
          recorded (OutboundSyncResult.skipped reason) =
              unfold store_metadata_task into_sync_outcome in inl (refl, refl)

      Isolated-act_on_config :
          (e : Entry V) (user : String) (decision : PhoebusConfigDecision)
          → ((state : CachedState) → decision ≡ snooze state → state.wake ≢ none)
          → Isolated key.device
              (Stores (left_by_config e decision))
              (e.0, e.1)
              (act_on_config_task env monitor key user decision)
      unfolding act_on_config_task store_metadata_task
      Isolated-act_on_config e user duplicate_config h = refl
      Isolated-act_on_config e user no_enablement_change h = inl (refl, refl)
      Isolated-act_on_config e user (bypass state) h = Isolated-record_and_store e state _
      Isolated-act_on_config e user (activate state) h = Isolated-record_and_store e state _
      Isolated-act_on_config e user (snooze state) h = until state.wake (h state refl)
        where
          until :
              (wake : Option Timestamp)
              → wake ≢ none
              → Isolated key.device
                  (Stores (some state, some renewed))
                  (e.0, e.1)
                  (snooze_until_task env monitor key user state wake)
          until none some_wake = absurd (some_wake refl)
          until (some wake) some_wake =
              unfold snooze_until_task in Isolated-record_and_store e state _

      Settles-act_on_config_decision :
          (e : Entry V) (d : Result PhoebusConfigDecision PhoebusParseError)
          → ((state : CachedState) → d ≡ ok (snooze state) → state.wake ≢ none)
          → Settles key.device e (act_on_config_decision_task env monitor key config cached d)
      unfolding act_on_config_decision_task
      Settles-act_on_config_decision e (err f) h = (e, refl)
      Settles-act_on_config_decision e (ok decision) h = (
        left_by_config e decision,
        Isolated->>= _ key.device (λ a f. f ≡ left_by_config e decision) e.0 e.1
            (act_on_config_task env monitor key config.user decision)
            (Isolated-act_on_config e config.user decision (λ state same. h state (rw same refl))),
      )

    Settles-with_config :
        (now : ℤ) (key : Key) (config : Option (Config V)) (e : Entry V)
        → Settles key.device e (with_config env monitor now key config)
    unfolding with_config
    Settles-with_config now key none e = (e, refl)
    Settles-with_config now key (some config) e =
        let cached = unwrap_or e.1 (from_unmapped key monitor.topic) in
        let (left, settled) =
          Settles-act_on_config_decision key config cached e
            (decide_phoebus_config env now config cached (record { observed = e.0 }))
            (wake_of_snooze env now config cached (record { observed = e.0 })) in
        (left, inl (refl, inl (refl, settled)))

    Settles-dispatch :
        (now : ℤ) (key : Key) (operation : Operation) (value : String) (e : Entry V)
        → Settles key.device e (dispatch_task env monitor now key operation value)
    unfolding dispatch_task process_config_task
    Settles-dispatch now key Operation.command value e = Settles-process_command key value e
    Settles-dispatch now key Operation.config value e =
        Settles-with_config now key (env.json.config_from_str (bool_or_string env.json) value) e
    Settles-dispatch now key Operation.state value e = (e, refl)

    pub Settles-process_runtime_message :
        (now : ℤ) (msg : StringMessage) (d : String) (e : Entry V)
        → Each (λ f. f ≡ d) (key_devices msg.key)
        → Settles d e (process_runtime_message_task env monitor now msg)
    unfolding process_runtime_message_task
    Settles-process_runtime_message now msg d e = of_key msg.key
      where
        of_parsed :
            (key : Result Key KeyParseError)
            → Each (λ f. f ≡ d) (parsed_devices key)
            → Settles d e (parsed_task env monitor now key msg.value)
        of_parsed (err f) each = (e, refl)
        of_parsed (ok key) each =
            let (left, settled) = Settles-dispatch now key key.operation msg.value e in
            (
              left,
              rw (← each.0) (
                  Isolated->>= (λ outcome. returned tt) key.device (λ a found. found ≡ left) e.0 e.1
                    (dispatch_task env monitor now key key.operation msg.value) settled),
            )

        of_key :
            (key : Option String)
            → Each (λ f. f ≡ d) (key_devices key)
            → Settles d e (keyed_task env monitor now key msg.value)
        of_key none each = (e, refl)
        of_key (some text) each = of_parsed (Key.parse text) each
