-- ===== src/Controls/Tasks/Guarding.antt =====
-- The task of a Controls message writes no state that may not follow what it has read.
use alarms_actions_synchroni.Prelude.{
  Option, some, Result, ok, err, Bool-cases, ◌≡◌, refl, inl, inr, ◌==◌, false, arith,
}
use alarms_actions_synchroni.External.PubSub.{StringMessage}
use alarms_actions_synchroni.Models.Proto.{Source, Status, source_eq}
use alarms_actions_synchroni.Models.Cache.{CachedState, ObservedStatePolicy, suppresses_incoming}
use alarms_actions_synchroni.Models.Phoebus.{PvMetadata}
use alarms_actions_synchroni.Models.Phoebus.Key.{Operation}
use alarms_actions_synchroni.World.{Env}
use alarms_actions_synchroni.Controls.{
  SyncImpl, ControlsInboundDecision, sync_to_phoebus, decide_controls_sync, decide_known,
  deserialize_status,
}
use alarms_actions_synchroni.Controls.Tasks.{
  sync_epics_message_task, act_task, process_controls_message_task, process_status_task,
  with_status, process_runtime_message_task,
}
use alarms_actions_synchroni.Controls.Tasks.Posting.{sync_epics_message_task-IsSilent}
use alarms_actions_synchroni.System.Touching.{MayFollow, MayFollow_of_fresh}
use alarms_actions_synchroni.System.Interleaving.{Seen}
use alarms_actions_synchroni.System.Interleaving.Guards.{Guarded, Guarded->>=, Guarded-silent}

module _ {V D : Type 0} (env : Env V D) (sync : SyncImpl) where
  -- What is decided to be mirrored is the alarm's own state, and is not suppressed.
  fresh_of_decision :
      (alarm : Status) (previous : ObservedStatePolicy) (known : Option (PvMetadata V))
      (operation : Operation) (metadata : PvMetadata V) (state : CachedState)
      → decide_controls_sync alarm previous known ≡ sync_to_phoebus operation metadata state
      → suppresses_incoming previous state ≡ false
  unfolding decide_controls_sync decide_known
  fresh_of_decision alarm previous known operation metadata state e = ground arith

  Guarded-act :
      (alarm : Status) (observed : Option CachedState) (decision : ControlsInboundDecision V)
      → ((operation : Operation) (metadata : PvMetadata V) (state : CachedState)
          → decision ≡ sync_to_phoebus operation metadata state
          → MayFollow observed state)
      → Guarded
          (λ later a. Unit {0})
          (some (alarm.device, observed))
          (act_task env sync alarm decision)
  unfolding act_task
  Guarded-act alarm observed ControlsInboundDecision.ignore_non_sync_state h = tt
  Guarded-act alarm observed ControlsInboundDecision.out_of_scope h = tt
  Guarded-act alarm observed ControlsInboundDecision.suppressed_by_policy h = tt
  Guarded-act alarm observed (sync_to_phoebus operation metadata state) h =
      Guarded->>= _ _ _ (sync_epics_message_task env sync alarm operation metadata) (
        Guarded-silent _ _ _ (sync_epics_message_task-IsSilent env sync alarm operation metadata)
          (λ r. ((refl, h operation metadata state refl), tt)))

  Guarded-process_status :
      (alarm : Status) (seen : Seen)
      → Guarded (λ later a. Unit {0}) seen (process_status_task env sync alarm)
  unfolding process_status_task process_controls_message_task
  Guarded-process_status alarm seen = elim (Bool-cases (alarm.source == Source.epics)) [
    | inr other ↦ rw other tt
    | inl epics ↦ rw epics (λ o known.
        Guarded-act alarm o (decide_controls_sync alarm (record { observed = o }) known)
          (λ operation metadata state e.
            MayFollow_of_fresh o state
              (fresh_of_decision alarm (record { observed = o }) known operation metadata state e)))
  ]

  pub Guarded-process_runtime_message :
      (msg : StringMessage) (seen : Seen)
      → Guarded (λ later a. Unit {0}) seen (process_runtime_message_task env sync msg)
  unfolding process_runtime_message_task
  Guarded-process_runtime_message msg seen = with_decoded (deserialize_status env sync msg)
    where
      with_decoded :
          (r : Result Status (Unit {0}))
          → Guarded (λ later a. Unit {0}) seen (with_status env sync r)
      with_decoded (err e) = tt
      with_decoded (ok alarm) =
          Guarded->>= _ _ seen (process_status_task env sync alarm)
            (Guarded-process_status alarm seen)
