-- ===== src/Controls/Tasks/Settling.antt =====
-- The task of a Controls message works on the device of its status only, and what it leaves of the
-- device is settled by what it finds.
use alarms_actions_synchroni.Prelude.{
  String, List, [], ◌∷◌, some, Result, ok, err, Bool-cases, ◌≡◌, refl, inl, inr, ◌==◌,
}
use alarms_actions_synchroni.External.PubSub.{StringMessage}
use alarms_actions_synchroni.Models.Proto.{Source, Status, source_eq}
use alarms_actions_synchroni.Models.Outcomes.{SyncDirection, into_sync_outcome}
use alarms_actions_synchroni.World.{Env}
use alarms_actions_synchroni.Tasks.{returned, write_state}
use alarms_actions_synchroni.Controls.{
  SyncImpl, ControlsInboundDecision, sync_to_phoebus, decide_controls_sync, deserialize_status,
}
use alarms_actions_synchroni.Controls.Tasks.{
  sync_epics_message_task, act_task, process_controls_message_task, process_status_task,
  with_status, process_runtime_message_task,
}
use alarms_actions_synchroni.Tasks.Silent.{Uses-silent, Isolated-silent}
use alarms_actions_synchroni.Controls.Tasks.Posting.{sync_epics_message_task-IsSilent}
use alarms_actions_synchroni.Tasks.Isolated.{
  Entry, Uses, Isolated, Settles, Each, Uses->>=, Isolated->>=,
}

-- The device of a status that could be read.
abbrev pub status_devices : Result Status (Unit {0}) → List String
status_devices (err e) = []
status_devices (ok alarm) = alarm.device ∷ []

module _ {V D : Type 0} (env : Env V D) (sync : SyncImpl) where
  Uses-act :
      (P : String → Type 0) (alarm : Status) (decision : ControlsInboundDecision V)
      → P alarm.device
      → Uses P (act_task env sync alarm decision)
  unfolding act_task
  Uses-act P alarm ControlsInboundDecision.ignore_non_sync_state p = tt
  Uses-act P alarm ControlsInboundDecision.out_of_scope p = tt
  Uses-act P alarm ControlsInboundDecision.suppressed_by_policy p = tt
  Uses-act P alarm (sync_to_phoebus operation metadata state) p =
      Uses->>= _ P (sync_epics_message_task env sync alarm operation metadata)
        (Uses-silent P _ (sync_epics_message_task-IsSilent env sync alarm operation metadata))
        (λ r. (p, tt))

  Settles-act :
      (alarm : Status) (e : Entry V) (decision : ControlsInboundDecision V)
      → Settles alarm.device e (act_task env sync alarm decision)
  unfolding act_task
  Settles-act alarm e ControlsInboundDecision.ignore_non_sync_state = (e, refl)
  Settles-act alarm e ControlsInboundDecision.out_of_scope = (e, refl)
  Settles-act alarm e ControlsInboundDecision.suppressed_by_policy = (e, refl)
  Settles-act alarm e (sync_to_phoebus operation metadata state) = (
    (some state, e.1),
    Isolated->>= _ alarm.device (λ a found. found ≡ (some state, e.1)) e.0 e.1
        (sync_epics_message_task env sync alarm operation metadata)
        (Isolated-silent alarm.device
          (λ r found.
            Isolated alarm.device (λ a f. f ≡ (some state, e.1)) (found.0, found.1)
              (write_state alarm.device state
                (returned (into_sync_outcome r SyncDirection.controls_to_phoebus))))
          e.0 e.1 _ (sync_epics_message_task-IsSilent env sync alarm operation metadata)
          (λ r. inl (refl, refl))),
  )

  Uses-process_status :
      (P : String → Type 0) (alarm : Status)
      → P alarm.device
      → Uses P (process_status_task env sync alarm)
  unfolding process_status_task process_controls_message_task
  Uses-process_status P alarm p = elim (Bool-cases (alarm.source == Source.epics)) [
    | inr other ↦ rw other tt
    | inl epics ↦ rw epics (
      p,
      λ o. (
        p,
        λ known. Uses-act P alarm (decide_controls_sync alarm (record { observed = o }) known) p,
      ),
    )
  ]

  Settles-process_status :
      (alarm : Status) (e : Entry V) → Settles alarm.device e (process_status_task env sync alarm)
  unfolding process_status_task process_controls_message_task
  Settles-process_status alarm e = elim (Bool-cases (alarm.source == Source.epics)) [
    | inr other ↦ rw other (e, refl)
    | inl epics ↦
        let (left, settled) =
          Settles-act alarm e (decide_controls_sync alarm (record { observed = e.0 }) e.1) in
        rw epics (left, inl (refl, inl (refl, settled)))
  ]

  pub Uses-process_runtime_message :
      (P : String → Type 0) (msg : StringMessage)
      → Each P (status_devices (deserialize_status env sync msg))
      → Uses P (process_runtime_message_task env sync msg)
  unfolding process_runtime_message_task
  Uses-process_runtime_message P msg = of_status (deserialize_status env sync msg)
    where
      of_status :
          (r : Result Status (Unit {0}))
          → Each P (status_devices r)
          → Uses P (with_status env sync r)
      of_status (err e) each = tt
      of_status (ok alarm) each =
          Uses->>= _ P (process_status_task env sync alarm) (Uses-process_status P alarm each.0)
            (λ outcome. tt)

  pub Settles-process_runtime_message :
      (msg : StringMessage) (d : String) (e : Entry V)
      → Each (λ f. f ≡ d) (status_devices (deserialize_status env sync msg))
      → Settles d e (process_runtime_message_task env sync msg)
  unfolding process_runtime_message_task
  Settles-process_runtime_message msg d e = of_status (deserialize_status env sync msg)
    where
      of_status :
          (r : Result Status (Unit {0}))
          → Each (λ f. f ≡ d) (status_devices r)
          → Settles d e (with_status env sync r)
      of_status (err f) each = (e, refl)
      of_status (ok alarm) each =
          let (left, settled) = Settles-process_status alarm e in
          (
            left,
            rw (← each.0) (
                Isolated->>= (λ outcome. returned (ok outcome)) alarm.device
                  (λ a found. found ≡ left) e.0 e.1 (process_status_task env sync alarm) settled),
          )
