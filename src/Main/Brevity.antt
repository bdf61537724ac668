-- ===== src/Main/Brevity.antt =====
-- What is left of a message from Controls that is in work: at most four accesses.
use alarms_actions_synchroni.Prelude.{
  Bool-cases, inl, inr, ℕ, zero, suc, ◌≤◌, none, ◌≡◌, refl, arith, ℕ_discrete,
}
use alarms_actions_synchroni.World.{World, Env}
use alarms_actions_synchroni.Tasks.{Task, returned, step}
use alarms_actions_synchroni.Tasks.Interference.{after_accesses}
use alarms_actions_synchroni.Startup.{SynchronizerConfig, new_world}
use alarms_actions_synchroni.System.Interleaving.{
  Job, from_controls, from_topic, startup, System, Move, Moves, takes, advances, aborts, here,
  update_self, update_other, Thread, at_rest, advance, job_task,
}
use alarms_actions_synchroni.System.Interleaving.Returning.{job_task-returns}
use alarms_actions_synchroni.Program.{controls_sync}
use alarms_actions_synchroni.Main.Refining.{MayTake}

module _ {V D : Type 0} (env : Env V D) (config : SynchronizerConfig) where
  -- What is left of a task, in at most so many accesses, in whatever worlds.
  abbrev pub Brief : ℕ → Task V (Unit {0}) → Type 0
  Brief n task = (worlds : ℕ → World V) → after_accesses env n worlds task ≡ returned tt

  abbrev front : World V → (ℕ → World V) → ℕ → World V
  front w worlds zero = w
  front w worlds (suc k) = worlds k

  pub Brief-step :
      (n : ℕ) (task : Task V (Unit {0})) (w : World V)
      → Brief (suc n) task
      → Brief n (step env task w).0
  unfolding after_accesses
  Brief-step n task w h = λ worlds. h (front w worlds)

  pub Brief-zero : (task : Task V (Unit {0})) (w : World V) → Brief 0 task → task ≡ returned tt
  unfolding after_accesses
  Brief-zero task w h = h (λ k. w)

  -- The first thread is brief: it handles messages from Controls.
  abbrev pub IsBrief : System V → Type 0
  IsBrief s = (n : ℕ) × (n ≤ 4) × Brief n (s.threads 0).task

  Brief-idle : Brief 0 (returned tt)
  unfolding after_accesses
  Brief-idle = λ worlds. refl

  Brief-advance :
      (n : ℕ) (thread : Thread V) (w : World V)
      → n ≤ 4
      → Brief n thread.task
      → (m : ℕ) × (m ≤ 4) × Brief m (advance env (controls_sync config) thread w).0.task
  unfolding advance step
  Brief-advance zero thread w le brief =
      (0, omega arith, rw (Brief-zero thread.task w brief) Brief-idle)
  Brief-advance (suc n) thread w le brief = (n, omega (arith, le), Brief-step n thread.task w brief)

  Brief-job_task :
      (job : Job) → MayTake env config 0 job → Brief 4 (job_task env (controls_sync config) job)
  Brief-job_task (from_controls msg) allowed =
      λ worlds. job_task-returns env (controls_sync config) (from_controls msg) worlds
  Brief-job_task (from_topic monitor now msg) allowed = elim allowed [ ]
  Brief-job_task (startup phoebus_host topics) allowed = elim allowed [ ]

  Move-IsBrief :
      {s s' : System V}
      → Move env (controls_sync config) (MayTake env config) s s'
      → IsBrief s
      → IsBrief s'
  Move-IsBrief {s} (takes i job allowed waits done) (n, le, brief) =
      let taken : Thread V = record {
        task = job_task env (controls_sync config) job;
        seen = none;
      } in
      elim (ℕ_discrete i 0) [
        | yes first ↦
            rw (← done, first, update_self s.threads 0 taken)
              (4, omega arith, Brief-job_task job (rw first at allowed))
        | no other ↦ rw (← done, update_other s.threads i 0 taken other) (n, le, brief)
      ]
  Move-IsBrief {s} (advances i done) (n, le, brief) = elim (ℕ_discrete i 0) [
    | yes first ↦
        rw
          (
            ← done,
            first,
            update_self s.threads 0 (advance env (controls_sync config) (s.threads 0) s.world).0,
          )
          (Brief-advance n (s.threads 0) s.world le brief)
    | no other ↦
        rw
          (
            ← done,
            update_other s.threads i 0 (advance env (controls_sync config) (s.threads i) s.world).0
                other,
          )
          (n, le, brief)
  ]
  Move-IsBrief {s} (aborts keeps done) (n, le, brief) = elim (Bool-cases (keeps 0)) [
    | inl k ↦ rw (← done, k) (n, le, brief)
    | inr d ↦ rw (← done, d) (0, omega arith, Brief-idle)
  ]

  pub Moves-IsBrief :
      {s : System V}
      → Moves env (controls_sync config) (MayTake env config) (at_rest new_world) s
      → IsBrief s
  Moves-IsBrief here = (0, omega arith, Brief-idle)
  Moves-IsBrief (Moves.then moves move) = Move-IsBrief move (Moves-IsBrief moves)
