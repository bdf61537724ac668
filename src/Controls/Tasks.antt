-- ===== src/Controls/Tasks.antt =====
-- The handling of a Controls message in controls/mod.rs as a task, and that it does, run alone,
-- what the handler of the parent module does.
pub mod Guarding
pub mod Bounds
pub mod Posting
pub mod Settling
use alarms_actions_synchroni.Prelude.{
  String, Option, none, some, Result, ok, err, Result-cases, Bool-cases, ◌≡◌, refl, ◌∙◌, ap, inl,
  inr, not, ◌==◌, if◌then◌else◌, true, false, arith,
}
use alarms_actions_synchroni.Prelude.HashMap.{get}
use alarms_actions_synchroni.External.PubSub.{StringMessage, Publisher}
use alarms_actions_synchroni.Models.Proto.{Source, Status, source_eq}
use alarms_actions_synchroni.Models.Cache.{ObservedStatePolicy, read_observed_state_policy}
use alarms_actions_synchroni.Models.Outcomes.{
  SyncOutcome, ignored, SyncDirection, IgnoreReason, OutboundSyncResult, SkipReason,
  into_sync_outcome,
}
use alarms_actions_synchroni.Models.Metadata.{lookup_metadata_by_device}
use alarms_actions_synchroni.Models.Phoebus.{PvMetadata}
use alarms_actions_synchroni.Models.Phoebus.Key.{Operation}
use alarms_actions_synchroni.World.{World, Env}
use alarms_actions_synchroni.Tasks.{
  Task, returned, read_state, read_scope, write_state, post, ◌>>=◌, run_alone,
}
use alarms_actions_synchroni.Tasks.Binding.{run_alone->>=}
use alarms_actions_synchroni.Controls.Transform
use alarms_actions_synchroni.Controls.Transform.{get_topic_for_operation}
use alarms_actions_synchroni.Controls.{
  SyncImpl, ControlsInboundDecision, handle_acnet_device, handle_non_sync_controls_state,
  handle_out_of_scope_decision, handle_suppressed_by_policy, sync_to_phoebus, decide_controls_sync,
  deserialize_status, publish, publish_result, sync_on_topic, sync_epics_message_to_phoebus, act,
  process_controls_message, process_status, process_runtime_message,
}

module _ {V D : Type 0} (env : Env V D) (sync : SyncImpl) where
  publish_task : Option Publisher → StringMessage → Task V OutboundSyncResult
  publish_task none message = returned (OutboundSyncResult.skipped SkipReason.missing_publisher)
  publish_task (some publisher) message = post publisher message (λ delivered.
      returned (if delivered then OutboundSyncResult.succeeded else OutboundSyncResult.failed))

  publish_result_task : String → Result StringMessage (Unit {0}) → Task V OutboundSyncResult
  unfolding publish_task
  publish_result_task topic (err e) =
      returned (OutboundSyncResult.skipped SkipReason.malformed_message)
  publish_result_task topic (ok message) = publish_task (get topic sync.phoebus_publishers) message

  sync_on_topic_task : Option String → Status → Operation → PvMetadata V → Task V OutboundSyncResult
  unfolding publish_result_task
  sync_on_topic_task none controls_alarm operation pv_metadata =
      returned (OutboundSyncResult.skipped SkipReason.missing_topic)
  sync_on_topic_task (some topic) controls_alarm operation pv_metadata =
      publish_result_task topic
        (Transform.controls_to_phoebus env.json env.chrono controls_alarm operation pv_metadata)

  unfoldable pub sync_epics_message_task :
      Status → Operation → PvMetadata V → Task V OutboundSyncResult
  unfolding sync_on_topic_task
  sync_epics_message_task controls_alarm operation pv_metadata =
      sync_on_topic_task (get_topic_for_operation operation pv_metadata) controls_alarm operation
        pv_metadata

  act_task : Status → ControlsInboundDecision V → Task V SyncOutcome
  act_task controls_alarm ControlsInboundDecision.ignore_non_sync_state =
      returned (handle_non_sync_controls_state controls_alarm.device controls_alarm.state)
  act_task controls_alarm ControlsInboundDecision.out_of_scope =
      returned (handle_out_of_scope_decision controls_alarm.device)
  act_task controls_alarm ControlsInboundDecision.suppressed_by_policy =
      returned (handle_suppressed_by_policy controls_alarm)
  act_task controls_alarm (sync_to_phoebus operation pv_metadata updated_state) = do
    outbound_result ← sync_epics_message_task controls_alarm operation pv_metadata
    write_state controls_alarm.device updated_state
        (returned (into_sync_outcome outbound_result SyncDirection.controls_to_phoebus))

  unfoldable pub process_controls_message_task : Status → ObservedStatePolicy → Task V SyncOutcome
  unfolding act_task
  process_controls_message_task controls_alarm previous =
      read_scope controls_alarm.device (λ metadata.
        act_task controls_alarm (decide_controls_sync controls_alarm previous metadata))

  process_status_task : Status → Task V SyncOutcome
  process_status_task controls_alarm =
      if not (controls_alarm.source == Source.epics)
      then returned (handle_acnet_device controls_alarm.device controls_alarm.source)
      else read_state controls_alarm.device (λ observed.
        process_controls_message_task controls_alarm (record { observed = observed }))

  with_status : Result Status (Unit {0}) → Task V (Result SyncOutcome (Unit {0}))
  unfolding process_status_task
  with_status (err e) = returned (err e)
  with_status (ok controls_alarm) = do
    outcome ← process_status_task controls_alarm
    returned (ok outcome)

  unfoldable pub process_runtime_message_task :
      StringMessage → Task V (Result SyncOutcome (Unit {0}))
  unfolding with_status deserialize_status
  process_runtime_message_task msg = with_status (deserialize_status env sync msg)

  alone-publish :
      (publisher : Option Publisher) (message : StringMessage) (w : World V)
      → run_alone env (publish_task publisher message) w
        ≡ some (publish env sync publisher message w)
  unfolding run_alone publish publish_task
  alone-publish none message w = refl
  alone-publish (some publisher) message w = refl

  alone-sync_epics_message :
      (alarm : Status) (operation : Operation) (metadata : PvMetadata V) (w : World V)
      → run_alone env (sync_epics_message_task alarm operation metadata) w
        ≡ some (sync_epics_message_to_phoebus env sync alarm operation metadata w)
  unfolding sync_epics_message_task sync_epics_message_to_phoebus
  alone-sync_epics_message alarm operation metadata w =
      on_topic (get_topic_for_operation operation metadata)
    where
      on_message :
          (topic : String) (r : Result StringMessage (Unit {0}))
          → run_alone env (publish_result_task topic r) w ≡ some (publish_result env sync topic r w)
      on_message topic (err e) = unfold run_alone in refl
      on_message topic (ok message) = alone-publish (get topic sync.phoebus_publishers) message w

      on_topic :
          (topic : Option String)
          → run_alone env (sync_on_topic_task topic alarm operation metadata) w
            ≡ some (sync_on_topic env sync topic alarm operation metadata w)
      on_topic none = unfold run_alone in refl
      on_topic (some topic) =
          on_message topic
            (Transform.controls_to_phoebus env.json env.chrono alarm operation metadata)

  alone-act :
      (alarm : Status) (decision : ControlsInboundDecision V) (w : World V)
      → run_alone env (act_task alarm decision) w ≡ some (act env sync alarm decision w)
  unfolding act act_task run_alone
  alone-act alarm ControlsInboundDecision.ignore_non_sync_state w = refl
  alone-act alarm ControlsInboundDecision.out_of_scope w = refl
  alone-act alarm ControlsInboundDecision.suppressed_by_policy w = refl
  alone-act alarm (sync_to_phoebus operation metadata state) w =
      run_alone->>= env _ (sync_epics_message_task alarm operation metadata) w
      ∙ rw (alone-sync_epics_message alarm operation metadata w) refl

  alone-process_status :
      (alarm : Status) (w : World V)
      → run_alone env (process_status_task alarm) w ≡ some (process_status env sync alarm w)
  unfolding process_status process_status_task process_controls_message
      process_controls_message_task read_observed_state_policy lookup_metadata_by_device
  alone-process_status alarm w = elim (Bool-cases (alarm.source == Source.epics)) [
    | inr other ↦ rw other (unfold run_alone in refl)
    | inl epics ↦ rw epics (
        unfold run_alone in
        alone-act alarm
          (decide_controls_sync alarm (read_observed_state_policy w.alarm_states alarm.device)
            (lookup_metadata_by_device w.metadata_scope alarm.device))
          w)
  ]

  pub alone-process_runtime_message :
      (msg : StringMessage) (w : World V)
      → run_alone env (process_runtime_message_task msg) w
        ≡ some (process_runtime_message env sync msg w)
  unfolding process_runtime_message process_runtime_message_task run_alone
  alone-process_runtime_message msg w = elim (Result-cases (deserialize_status env sync msg)) [
    | inr (e, malformed) ↦ rw (malformed, with_status, process_runtime_message) refl
    | inl (alarm, decoded) ↦
        rw (decoded, with_status, process_runtime_message)
          (run_alone->>= env (λ outcome. returned (ok outcome)) (process_status_task alarm) w
            ∙ rw (alone-process_status alarm w) refl)
  ]
