-- ===== src/System/Invariants.antt =====
-- What every run of the two synchronizers keeps that handles whole messages one after another,
-- whatever their order.
use alarms_actions_synchroni.Prelude.{
  String, ◌≡◌, ◌≢◌, ◌⊎◌, refl, none, some, arith, inl, inr, Option, string_eq,
}
use alarms_actions_synchroni.Prelude.HashMap.{HashMap, get, insert, get-insert, get-insert_self}
use alarms_actions_synchroni.Models.Proto.{State}
use alarms_actions_synchroni.Models.Cache.{CachedState}
use alarms_actions_synchroni.World.{World, Env}
use alarms_actions_synchroni.Controls.{SyncImpl}
use alarms_actions_synchroni.Controls.Effect.{process_runtime_message_effect}
use alarms_actions_synchroni.Phoebus.Monitor.Runtime.{process_runtime_message_total}
use alarms_actions_synchroni.System.{Step, Reach}
use alarms_actions_synchroni.System.Touching.{
  Touches, Touches-refl, MayFollow, MessageEffect-Touches, Mirrors-Touches,
}
use alarms_actions_synchroni.Phoebus.Init.Hydrating.{hydrate_message-Touches}

-- The entry of a device after a step: as it was, or a state that may follow it.
abbrev pub Follows : Option CachedState → Option CachedState → Type 0
Follows before none = before ≡ none
Follows before (some s) = (before ≡ some s) ⊎ MayFollow before s

pub Follows-refl : (o : Option CachedState) → Follows o o
Follows-refl none = refl
Follows-refl (some s) = inl refl

pub get-insert_other :
    {A : Type 0} (k j : String) (v : A) (m : HashMap A) → j ≢ k → get j (insert k v m) ≡ get j m
get-insert_other k j v m other = ground (arith, get-insert k j v m)

module _ {V D : Type 0} (env : Env V D) (sync : SyncImpl) where
  controls_step : (w w' : World V) → (w' ≡ w) ⊎ Touches w w' → Touches w w'
  controls_step w w' (inl same) = rw same (Touches-refl w)
  controls_step w w' (inr changed) = changed

  same_world : {o : Option (World V)} {u v : World V} → o ≡ some u → o ≡ some v → u ≡ v
  same_world a b = cc

  pub Step-Touches : {w w' : World V} → Step env sync w w' → Touches w w'
  Step-Touches {w} (Step.controls msg done) =
      rw (← done) (elim (process_runtime_message_effect env sync msg w) [
        | inl same ↦ controls_step _ _ (inl same)
        | inr (alarm, decoded, epics, mirrored) ↦ Mirrors-Touches env sync alarm mirrored
      ])
  Step-Touches {w} (Step.runtime monitor now msg done) =
      let (w'', ended, effect) = process_runtime_message_total env monitor now msg w in
      rw (same_world done ended) (MessageEffect-Touches env monitor now msg effect)
  Step-Touches {w} (Step.startup now topic msg done) =
      rw (← done) (hydrate_message-Touches env now topic msg w)

  touched_state :
      (d : String) {w w' : World V}
      → Touches w w'
      → Follows (get d w.alarm_states) (get d w'.alarm_states)
  touched_state d {w} {w'} t = elim t.states [
    | inl same ↦ rw same (Follows-refl (get d w.alarm_states))
    | inr (s, follows, changed) ↦ elim (string_eq.dec d t.device) [
      | yes here ↦ rw (changed, here, get-insert_self) (inr follows)
      | no other ↦
          rw (changed, get-insert_other t.device d s w.alarm_states other)
            (Follows-refl (get d w.alarm_states))
    ]
  ]

  -- Whatever message a step handles, the state recorded for a device stays, or is replaced by one
  -- that may follow it: a bypass only by a bypass or an unbypass; no entry is ever removed.
  pub Step-Follows :
      (device : String) {w w' : World V}
      → Step env sync w w'
      → Follows (get device w.alarm_states) (get device w'.alarm_states)
  Step-Follows device step = touched_state device (Step-Touches step)

  touched_scope :
      (d : String) {w w' : World V}
      → Touches w w'
      → get d w.metadata_scope ≢ none
      → get d w'.metadata_scope ≢ none
  touched_scope d {w} {w'} t h = elim t.scope [
    | inl same ↦ rw same h
    | inr (m, changed) ↦ rw (changed, get-insert t.device d m w.metadata_scope) (ground arith)
  ]

  -- A device that is in scope stays in scope in every world that is reached by handling whole
  -- messages one after another.
  pub Reach-scope :
      (device : String) {w w' : World V}
      → Reach env sync w w'
      → get device w.metadata_scope ≢ none
      → get device w'.metadata_scope ≢ none
  Reach-scope device Reach.here h = h
  Reach-scope device (Reach.next run step) h =
      touched_scope device (Step-Touches step) (Reach-scope device run h)

  abbrev pub IsIn : String → State → World V → Type 0
  IsIn device state w = (s : CachedState) × (get device w.alarm_states ≡ some s) × (s.state ≡ state)

  Step-bypass :
      (device : String) {w w' : World V}
      → Step env sync w w'
      → IsIn device State.bypassed w
      → IsIn device State.bypassed w' ⊎ IsIn device State.unbypassed w'
  Step-bypass device {w} {w'} step (s, recorded, bypass) =
      after (get device w'.alarm_states) refl (rw recorded at (Step-Follows device step))
    where
      after :
          (o : Option CachedState)
          → get device w'.alarm_states ≡ o
          → Follows (some s) o
          → IsIn device State.bypassed w' ⊎ IsIn device State.unbypassed w'
      after none e gone = absurd (ground arith)
      after (some s') e (inl same) = inl (s', e, ground arith)
      after (some s') e (inr follows) = elim (follows bypass) [
        | inl b ↦ inl (s', e, b)
        | inr u ↦ inr (s', e, u)
      ]

  -- In every world that is reached, by handling whole messages one after another, from one where a
  -- device is recorded as bypassed, it is still recorded as bypassed, or the run has passed through
  -- a world where it was recorded as unbypassed.
  pub Reach-bypass :
      (device : String) {w w' : World V}
      → Reach env sync w w'
      → IsIn device State.bypassed w
      → IsIn device State.bypassed w'
        ⊎ ((v : World V) × Reach env sync w v
            × Reach env sync v w'
            × IsIn device State.unbypassed v)
  Reach-bypass device Reach.here b = inl b
  Reach-bypass device (Reach.next run step) b = elim (Reach-bypass device run b) [
    | inl still ↦ elim (Step-bypass device step still) [
      | inl b' ↦ inl b'
      | inr u ↦ inr (_, Reach.next run step, Reach.here, u)
    ]
    | inr (v, to, from, u) ↦ inr (v, to, Reach.next from step, u)
  ]
