-- ===== src/System/Interleaving/Isolation.antt =====
-- A job that is done while no other thread works on a device.
use alarms_actions_synchroni.Prelude.{
  ℕ, String, Bool, true, false, none, some, ◌≡◌, ◌≢◌, refl, sym, subst, ◌∙◌, ite, ℕ_discrete,
  if◌then◌else◌,
}
use alarms_actions_synchroni.World.{World, Env}
use alarms_actions_synchroni.Tasks.{returned}
use alarms_actions_synchroni.Tasks.Isolated.{Entry, entry, Uses, Isolated, Each}
use alarms_actions_synchroni.Tasks.Isolated.Steps.{Uses-step, entry-step_other, Isolated-step}
use alarms_actions_synchroni.Controls.{SyncImpl}
use alarms_actions_synchroni.System.Interleaving.{
  Job, System, Thread, Move, Moves, takes, advances, aborts, here, update, update_self,
  update_other, idle, job_task, do_job, advance,
}
use alarms_actions_synchroni.System.Interleaving.Devices.{
  devices, Uses-job_task, Settles-job_task, entry-do_job,
}

module _ {V D : Type 0} (env : Env V D) (sync : SyncImpl) (may_take : ℕ → Job → Type 0) (d : String)
    (i : ℕ) where
  -- The jobs that other threads take are about other devices, and the thread itself takes no other
  -- job and is not aborted.
  abbrev Spares : {s s' : System V} → Move env sync may_take s s' → Type 0
  Spares (takes j job allowed waits done) = (i ≢ j) × Each (λ e. d ≢ e) (devices env sync job)
  Spares (advances j done) = Unit
  Spares (aborts keeps done) = keeps i ≡ true

  abbrev pub Undisturbed : {s s' : System V} → Moves env sync may_take s s' → Type 0
  Undisturbed here = Unit
  Undisturbed (Moves.then run move) = Undisturbed run × Spares move

  -- What is left of the thread's task leaves the entry, and the other threads work elsewhere.
  record Holds (left : Entry V) (s : System V) : Type 0 where
    mine : Isolated d (λ u e. e ≡ left) (entry d s.world) (s.threads i).task
    others : (j : ℕ) → i ≢ j → Uses (λ e. d ≢ e) (s.threads j).task

  Uses-update :
      (threads : ℕ → Thread V) (j : ℕ) (thread : Thread V)
      → ((k : ℕ) → i ≢ k → Uses (λ e. d ≢ e) (threads k).task)
      → (i ≢ j → Uses (λ e. d ≢ e) thread.task)
      → (k : ℕ) → i ≢ k
      → Uses (λ e. d ≢ e) (update threads j thread k).task
  Uses-update threads j thread all one k away = of_test (ℕ_discrete j k)
    where
      of_test : (t : Dec (j ≡ k)) → Uses (λ e. d ≢ e) (ite t thread (threads k)).task
      of_test (yes same) = one (λ e. away (e ∙ same))
      of_test (no other) = all k away

  advances-Holds :
      (left : Entry V) (s : System V) (j : ℕ)
      → Holds left s
      → Holds left (record {
        world = (advance env sync (s.threads j) s.world).1;
        threads = update s.threads j (advance env sync (s.threads j) s.world).0;
      })
  unfolding advance
  advances-Holds left s j h = elim (ℕ_discrete i j) [
    | yes same ↦ record {
      mine =
          rw (← same, update_self s.threads i (advance env sync (s.threads i) s.world).0)
            (Isolated-step env d (λ u e. e ≡ left) (s.threads i).task s.world h.mine);
      others = Uses-update s.threads j _ h.others (λ away. absurd (away same));
    }
    | no away ↦ record {
      mine =
          rw
            (
              update_other s.threads j i (advance env sync (s.threads j) s.world).0
                  (λ e. away (sym e)),
              entry-step_other env d (s.threads j).task s.world (h.others j away),
            )
            h.mine;
      others =
          Uses-update s.threads j _ h.others
            (λ other. Uses-step env (λ e. d ≢ e) (s.threads j).task s.world (h.others j other));
    }
  ]

  Move-Holds :
      (left : Entry V) {s s' : System V} (move : Move env sync may_take s s')
      → Spares move
      → Holds left s
      → Holds left s'
  Move-Holds left {s} (takes j job allowed waits done) (away, each) h = rw (← done) (record {
    mine =
        rw
          (update_other s.threads j i (record { task = job_task env sync job; seen = none })
            (λ e. away (sym e)))
          h.mine;
    others =
        Uses-update s.threads j _ h.others (λ other. Uses-job_task env sync (λ e. d ≢ e) job each);
  })
  Move-Holds left {s} (advances j done) spares h = rw (← done) (advances-Holds left s j h)
  Move-Holds left {s} (aborts keeps done) kept h =
      rw (← done) (record { mine = rw kept h.mine; others = λ j away. of_test j away (keeps j) })
    where
      of_test :
          (j : ℕ) → i ≢ j → (b : Bool) → Uses (λ e. d ≢ e) (if b then s.threads j else idle).task
      of_test j away true = h.others j away
      of_test j away false = tt

  Moves-Holds :
      (left : Entry V) {s s' : System V} (moves : Moves env sync may_take s s')
      → Undisturbed moves
      → Holds left s
      → Holds left s'
  Moves-Holds left here u h = h
  Moves-Holds left (Moves.then run move) (u, spares) h =
      Move-Holds left move spares (Moves-Holds left run u h)

  -- A thread has just taken a job, the hydration or a message. Until it waits again it is not
  -- aborted, no other thread makes an access to a certain device, and the jobs that other threads
  -- take are about other devices. Whatever is interleaved with its accesses, the caches then hold
  -- of this device what the sequential code of the job, run on the world in which it was taken,
  -- leaves of it; that code does not panic.
  pub entry-Moves :
      (job : Job) {s s' : System V} (moves : Moves env sync may_take s s')
      → (s.threads i).task ≡ job_task env sync job
      → ((j : ℕ) → i ≢ j → Uses (λ e. d ≢ e) (s.threads j).task)
      → Undisturbed moves
      → (s'.threads i).task ≡ returned tt
      → (w : World V) × (do_job env sync job s.world ≡ some w) × (entry d s'.world ≡ entry d w)
  entry-Moves job {s} {s'} moves started others undisturbed ended =
      let settles = Settles-job_task env sync job d (entry d s.world) in
      let held =
        Moves-Holds settles.0 moves undisturbed
          (record { mine = rw started settles.1; others = others }) in
      let (w, done, same) = entry-do_job env sync job d (entry d s.world) settles s.world refl in
      (w, done, at_end settles.0 held ∙ sym same)
    where
      at_end : (left : Entry V) → Holds left s' → entry d s'.world ≡ left
      at_end left h =
          subst (λ task. Isolated d (λ u e. e ≡ left) (entry d s'.world) task) ended h.mine
