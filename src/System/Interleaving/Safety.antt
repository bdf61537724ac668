-- ===== src/System/Interleaving/Safety.antt =====
-- What every interleaving of the synchronizers' tasks keeps, and the one way in which a bypass can
-- be recorded over: by a task whose last read of the device is stale.
use alarms_actions_synchroni.Prelude.{
  ℕ, String, Bool-cases, Option, if◌then◌else◌, none, some, ◌≡◌, ◌≢◌, ◌⊎◌, inl, inr, refl,
  string_eq, ite, ℕ_discrete, ◌==◌, ap, ◌∙◌, sym,
}
use alarms_actions_synchroni.Prelude.HashMap.{get, insert, get-insert_self}
use alarms_actions_synchroni.Models.Proto.{State, state_eq}
use alarms_actions_synchroni.Models.Cache.{
  CachedState, CachedState-discrete, record_alarm_state, record_startup_state_evidence, is_some_and,
}
use alarms_actions_synchroni.World.{World, Env}
use alarms_actions_synchroni.Tasks.{
  Task, returned, panicked, read_state, read_scope, write_state, write_evidence, write_scope, send,
  post, step,
}
use alarms_actions_synchroni.Controls.{SyncImpl}
use alarms_actions_synchroni.Controls.Tasks.Guarding as ControlsGuarding
use alarms_actions_synchroni.Controls.Tasks as ControlsTasks
use alarms_actions_synchroni.Phoebus.Init.Hydrating.{MayFollow_of_evidence}
use alarms_actions_synchroni.Phoebus.Init.Tasks.Guarding.{Guarded-get_existing_messages}
use alarms_actions_synchroni.Phoebus.Monitor.Tasks.Guarding as MonitorGuarding
use alarms_actions_synchroni.System.Touching.{MayFollow, MayFollow_of_enablement}
use alarms_actions_synchroni.System.Invariants.{Follows, Follows-refl, get-insert_other}
use alarms_actions_synchroni.System.Interleaving.{
  Job, from_controls, from_topic, startup, Seen, Thread, System, update, idle, at_rest, job_task,
  advance, Move, Moves, takes, advances, aborts, here,
}
use alarms_actions_synchroni.System.Interleaving.Guards.{
  Permits, Guarded, Guarded->>=, Guarded-step,
}

-- What was last read is about the device, and is not what is recorded of it now.
abbrev pub IsStale : {V : Type 0} → String → Seen → World V → Type 0
IsStale device none w = ⊥
IsStale device (some (d, observed)) w = (d ≡ device) × (observed ≢ get device w.alarm_states)

-- The next access of the thread records a state of the device after a stale read of it.
abbrev pub IsStaleWrite : {V : Type 0} → String → Thread V → World V → Type 0
IsStaleWrite {V} device thread w =
    IsStale device thread.seen w
    × ((state : CachedState) × (rest : Task V (Unit {0})) × (thread.task
          ≡ write_state device state rest))

Option_CachedState-discrete : Discrete (Option CachedState)
Option_CachedState-discrete = hlevel CachedState-discrete

module _ {V : Type 0} (device : String) where
  insert-Follows :
      (d : String) (state : CachedState) (w : World V)
      → MayFollow (get d w.alarm_states) state
      → Follows (get device w.alarm_states) (get device (insert d state w.alarm_states))
  insert-Follows d state w follows = elim (string_eq.dec device d) [
    | yes same ↦ rw (same, get-insert_self) (inr follows)
    | no other ↦
        rw (get-insert_other d device state w.alarm_states other)
          (Follows-refl (get device w.alarm_states))
  ]

  -- A permitted write lets a state follow the one that is recorded, or comes after a stale read.
  record_alarm_state-Follows :
      (seen : Seen) (d : String) (state : CachedState) (w : World V)
      → Permits seen d state
      → Follows (get device w.alarm_states) (get device (record_alarm_state w.alarm_states d state))
        ⊎ ((device ≡ d) × IsStale device seen w)
  unfolding record_alarm_state
  record_alarm_state-Follows none d state w enablement =
      inl (insert-Follows d state w (MayFollow_of_enablement _ enablement))
  record_alarm_state-Follows (some (e, observed)) d state w (same, follows) =
      elim (string_eq.dec device d) [
        | no other ↦ inl (
            rw (get-insert_other d device state w.alarm_states other)
              (Follows-refl (get device w.alarm_states)))
        | yes mine ↦ elim (Option_CachedState-discrete observed (get device w.alarm_states)) [
          | no stale ↦ inr (mine, (sym same ∙ sym mine, stale))
          | yes fresh ↦
              let now = fresh ∙ ap (λ k. get k w.alarm_states) mine in
              inl (insert-Follows d state w (rw (← now) follows))
        ]
      ]

  record_evidence-Follows :
      (d : String) (state : CachedState) (w : World V)
      → Follows
          (get device w.alarm_states)
          (get device (record_startup_state_evidence w.alarm_states d state))
  unfolding record_startup_state_evidence
  record_evidence-Follows d state w =
      elim (Bool-cases
        (is_some_and (get d w.alarm_states) (λ existing. existing.state == State.bypassed))) [
          | inl bypass ↦ rw bypass (Follows-refl (get device w.alarm_states))
          | inr free ↦ rw free (insert-Follows d state w (MayFollow_of_evidence _ state free))
        ]

module _ {V D : Type 0} (env : Env V D) (sync : SyncImpl) where
  -- One access of a guarded task.
  access-Follows :
      (device : String) (thread : Thread V) (w : World V)
      → Guarded (λ later a. Unit {0}) thread.seen thread.task
      → Follows (get device w.alarm_states) (get device (advance env sync thread w).1.alarm_states)
        ⊎ IsStaleWrite device thread w
  unfolding advance step
  access-Follows device thread w g = at_task thread.task g
    where
      at_task :
          (task : Task V (Unit {0}))
          → Guarded (λ later a. Unit {0}) thread.seen task
          → Follows (get device w.alarm_states) (get device (step env task w).1.alarm_states)
            ⊎ IsStaleWrite device (record thread { task = task }) w
      at_task (write_state d state task) g =
          elim (record_alarm_state-Follows device thread.seen d state w g.0) [
            | inl follows ↦ inl follows
            | inr (mine, stale) ↦ inr (stale, (state, task, rw mine refl))
          ]
      at_task (write_evidence d state task) g = inl (record_evidence-Follows device d state w)
      at_task (returned a) g = inl (Follows-refl (get device w.alarm_states))
      at_task panicked g = inl (Follows-refl (get device w.alarm_states))
      at_task (read_state d next) g = inl (Follows-refl (get device w.alarm_states))
      at_task (read_scope d next) g = inl (Follows-refl (get device w.alarm_states))
      at_task (write_scope d metadata task) g = inl (Follows-refl (get device w.alarm_states))
      at_task (send host request next) g = inl (Follows-refl (get device w.alarm_states))
      at_task (post publisher message next) g = inl (Follows-refl (get device w.alarm_states))

  -- Every write that a thread of the system has still to make is permitted by what it has read.
  abbrev IsGuarded : System V → Type 0
  IsGuarded s = (i : ℕ) → Guarded (λ later a. Unit {0}) (s.threads i).seen (s.threads i).task

  job_task-Guarded : (job : Job) → Guarded (λ later a. Unit {0}) none (job_task env sync job)
  unfolding job_task
  job_task-Guarded (from_controls msg) =
      Guarded->>= _ _ none (ControlsTasks.process_runtime_message_task env sync msg)
        (ControlsGuarding.Guarded-process_runtime_message env sync msg none)
  job_task-Guarded (from_topic monitor now msg) =
      MonitorGuarding.Guarded-process_runtime_message env monitor now msg none
  job_task-Guarded (startup phoebus_host topics) =
      Guarded-get_existing_messages env phoebus_host topics

  update-IsGuarded :
      (threads : ℕ → Thread V) (i : ℕ) (thread : Thread V)
      → ((j : ℕ) → Guarded (λ later a. Unit {0}) (threads j).seen (threads j).task)
      → Guarded (λ later a. Unit {0}) thread.seen thread.task
      → (j : ℕ)
      → Guarded
          (λ later a. Unit {0})
          (update threads i thread j).seen
          (update threads i thread j).task
  update-IsGuarded threads i thread all one j = of_test (ℕ_discrete i j)
    where
      of_test :
          (d : Dec (i ≡ j))
          → Guarded
              (λ later a. Unit {0})
              (ite d thread (threads j)).seen
              (ite d thread (threads j)).task
      of_test (yes same) = one
      of_test (no other) = all j

  module _ (may_take : ℕ → Job → Type 0) where
    Move-IsGuarded : {s s' : System V} → Move env sync may_take s s' → IsGuarded s → IsGuarded s'
    unfolding advance
    Move-IsGuarded {s} (takes i job allowed waits done) g =
        rw (← done) (update-IsGuarded s.threads i _ g (job_task-Guarded job))
    Move-IsGuarded {s} (advances i done) g = rw (← done) (
        update-IsGuarded s.threads i _ g
          (Guarded-step env _ (s.threads i).seen (s.threads i).task s.world (g i)))
    Move-IsGuarded {s} (aborts keeps done) g = rw (← done) kept
      where
        kept : IsGuarded (record s { threads = λ i. if keeps i then s.threads i else idle })
        kept i = elim (Bool-cases (keeps i)) [ inl k ↦ rw k (g i) | inr d ↦ rw d tt ]

    Moves-IsGuarded :
        (w : World V) {s : System V} → Moves env sync may_take (at_rest w) s → IsGuarded s
    Moves-IsGuarded w here = λ i. tt
    Moves-IsGuarded w (Moves.then run move) = Move-IsGuarded move (Moves-IsGuarded w run)

    Move-Follows :
        (device : String) {s s' : System V}
        → IsGuarded s
        → Move env sync may_take s s'
        → Follows (get device s.world.alarm_states) (get device s'.world.alarm_states)
          ⊎ ((i : ℕ) × IsStaleWrite device (s.threads i) s.world
              × (s'.world ≡ (advance env sync (s.threads i) s.world).1))
    Move-Follows device {s} g (takes i job allowed waits done) =
        inl (rw (← done) (Follows-refl (get device s.world.alarm_states)))
    Move-Follows device {s} g (aborts keeps done) =
        inl (rw (← done) (Follows-refl (get device s.world.alarm_states)))
    Move-Follows device {s} g (advances i done) =
        elim (access-Follows device (s.threads i) s.world (g i)) [
          | inl follows ↦ inl (rw (← done) follows)
          | inr stale ↦ inr (i, stale, sym (ap System.world done))
        ]

    -- The handlers of the two synchronizers and the hydration run as tasks on the same caches, and
    -- each makes its next access, is started or is cancelled at any moment. In every system that
    -- such moves reach from one where every thread waits, whatever the next move is, the state
    -- recorded for a device stays or is replaced by one that may follow it (a bypass only by a
    -- bypass or an unbypass; no entry is removed), unless the move records a state of this device
    -- for a thread whose last read was of this device and is no longer what is recorded.
    pub Moves-Follows :
        (device : String) (w : World V) {s s' : System V}
        → Moves env sync may_take (at_rest w) s
        → Move env sync may_take s s'
        → Follows (get device s.world.alarm_states) (get device s'.world.alarm_states)
          ⊎ ((i : ℕ) × IsStaleWrite device (s.threads i) s.world
              × (s'.world ≡ (advance env sync (s.threads i) s.world).1))
    Moves-Follows device w run move = Move-Follows device (Moves-IsGuarded w run) move
