-- ===== src/Controls/Tasks/Bounds.antt =====
-- What the task of a Controls message costs.
use alarms_actions_synchroni.Prelude.{
  String, Option, none, some, Result, ok, err, Bool-cases, refl, inl, inr, ◌==◌,
}
use alarms_actions_synchroni.Prelude.HashMap.{get}
use alarms_actions_synchroni.External.PubSub.{StringMessage, Publisher}
use alarms_actions_synchroni.Models.Proto.{Source, Status, source_eq}
use alarms_actions_synchroni.Models.Outcomes.{OutboundSyncResult}
use alarms_actions_synchroni.Models.Phoebus.{PvMetadata}
use alarms_actions_synchroni.Models.Phoebus.Key.{Operation}
use alarms_actions_synchroni.World.{Env}
use alarms_actions_synchroni.Tasks.Bounds.{Within, Within->>=}
use alarms_actions_synchroni.Controls.Transform
use alarms_actions_synchroni.Controls.Transform.{get_topic_for_operation}
use alarms_actions_synchroni.Controls.{
  SyncImpl, ControlsInboundDecision, sync_to_phoebus, decide_controls_sync, deserialize_status,
}
use alarms_actions_synchroni.Controls.Tasks.{
  publish_task, publish_result_task, sync_on_topic_task, sync_epics_message_task, act_task,
  process_controls_message_task, process_status_task, with_status, process_runtime_message_task,
}

module _ {V D : Type 0} (env : Env V D) (sync : SyncImpl) where
  Within-publish :
      (Q : OutboundSyncResult → Type 0) (publisher : Option Publisher) (message : StringMessage)
      → ((r : OutboundSyncResult) → Q r)
      → Within {V = V} Q 0 0 1 (publish_task env sync publisher message)
  unfolding publish_task
  Within-publish Q none message q = q _
  Within-publish Q (some publisher) message q = (0, refl, λ b. q _)

  Within-sync_on_topic :
      (Q : OutboundSyncResult → Type 0) (topic : Option String) (alarm : Status)
      (operation : Operation) (metadata : PvMetadata V)
      → ((r : OutboundSyncResult) → Q r)
      → Within {V = V} Q 0 0 1 (sync_on_topic_task env sync topic alarm operation metadata)
  Within-sync_on_topic Q none alarm operation metadata q = unfold sync_on_topic_task in q _
  Within-sync_on_topic Q (some topic) alarm operation metadata q =
      unfold sync_on_topic_task in
      on_message (Transform.controls_to_phoebus env.json env.chrono alarm operation metadata)
    where
      on_message :
          (r : Result StringMessage (Unit {0}))
          → Within {V = V} Q 0 0 1 (publish_result_task env sync topic r)
      on_message (err e) = unfold publish_result_task in q _
      on_message (ok message) =
          unfold publish_result_task in
          Within-publish Q (get topic sync.phoebus_publishers) message q

  Within-act :
      (alarm : Status) (decision : ControlsInboundDecision V)
      → Within (λ outcome. Unit {0}) 1 0 1 (act_task env sync alarm decision)
  unfolding act_task
  Within-act alarm ControlsInboundDecision.ignore_non_sync_state = tt
  Within-act alarm ControlsInboundDecision.out_of_scope = tt
  Within-act alarm ControlsInboundDecision.suppressed_by_policy = tt
  Within-act alarm (sync_to_phoebus operation metadata state) =
      Within->>= _ _ 1 0 0 0 0 1 (sync_epics_message_task env sync alarm operation metadata) (
        unfold sync_epics_message_task in
        Within-sync_on_topic _ (get_topic_for_operation operation metadata) alarm operation metadata
          (λ r. (0, refl, tt)))

  Within-process_status :
      (alarm : Status) → Within (λ outcome. Unit {0}) 3 0 1 (process_status_task env sync alarm)
  unfolding process_status_task process_controls_message_task
  Within-process_status alarm = elim (Bool-cases (alarm.source == Source.epics)) [
    | inr other ↦ rw other tt
    | inl epics ↦ rw epics (
      2,
      refl,
      λ o. (
        1,
        refl,
        λ known. Within-act alarm (decide_controls_sync alarm (record { observed = o }) known),
      ),
    )
  ]

  pub Within-process_runtime_message :
      (msg : StringMessage)
      → Within (λ result. Unit {0}) 3 0 1 (process_runtime_message_task env sync msg)
  unfolding process_runtime_message_task
  Within-process_runtime_message msg = with_decoded (deserialize_status env sync msg)
    where
      with_decoded :
          (r : Result Status (Unit {0}))
          → Within (λ result. Unit {0}) 3 0 1 (with_status env sync r)
      with_decoded (err e) = unfold with_status in tt
      with_decoded (ok alarm) =
          unfold with_status in
          Within->>= _ _ 0 0 0 3 0 1 (process_status_task env sync alarm)
            (Within-process_status alarm)
