-- ===== src/System/Interleaving/Returning.antt =====
-- Every job ends, whatever happens between its accesses.
use alarms_actions_synchroni.Prelude.{ℕ, ◌+◌, ◌≡◌, refl}
use alarms_actions_synchroni.World.{World, Env}
use alarms_actions_synchroni.Tasks.{returned}
use alarms_actions_synchroni.Tasks.Bounds.{Within, Within->>=}
use alarms_actions_synchroni.Tasks.Interference.{after_accesses, Within-after_accesses}
use alarms_actions_synchroni.Controls.{SyncImpl}
use alarms_actions_synchroni.Controls.Tasks as ControlsTasks
use alarms_actions_synchroni.Controls.Tasks.Bounds as ControlsBounds
use alarms_actions_synchroni.Phoebus.Init.Tasks.Bounds.{
  hydration_accesses, Within-get_existing_messages,
}
use alarms_actions_synchroni.Phoebus.Monitor.Tasks.Bounds as MonitorBounds
use alarms_actions_synchroni.System.Interleaving.{Job, from_controls, from_topic, startup, job_task}

-- The requests and postings of a job.
abbrev pub requests : Job → ℕ
requests (from_topic monitor now msg) = 2
requests _ = 0

abbrev pub postings : Job → ℕ
postings (from_controls msg) = 1
postings _ = 0

module _ {V D : Type 0} (env : Env V D) (sync : SyncImpl) where
  -- Its accesses of the caches.
  abbrev pub accesses : Job → ℕ
  accesses (from_controls msg) = 3
  accesses (from_topic monitor now msg) = 4
  accesses (startup phoebus_host topics) = hydration_accesses env phoebus_host topics

  pub Within-job_task :
      (job : Job)
      → Within (λ u. Unit {0}) (accesses job) (requests job) (postings job) (job_task env sync job)
  unfolding job_task
  Within-job_task (from_controls msg) =
      Within->>= _ (λ result. returned tt) 0 0 0 3 0 1
        (ControlsTasks.process_runtime_message_task env sync msg)
        (ControlsBounds.Within-process_runtime_message env sync msg)
  Within-job_task (from_topic monitor now msg) =
      MonitorBounds.Within-process_runtime_message env monitor now msg
  Within-job_task (startup phoebus_host topics) =
      Within-get_existing_messages env phoebus_host topics

  -- The handling of a message from Controls has returned after four of its own accesses and calls,
  -- that of a message of a topic after six, and the hydration after two for each message of the
  -- snapshots, in whatever world each of them is made: no change that other tasks make in between
  -- keeps a job from its end or makes it panic.
  pub job_task-returns :
      (job : Job) (worlds : ℕ → World V)
      → after_accesses env
          (accesses job + requests job + postings job)
          worlds
          (job_task env sync job)
        ≡ returned tt
  job_task-returns job worlds =
      (Within-after_accesses env (λ u. Unit {0}) _ (accesses job) (requests job) (postings job)
        worlds (job_task env sync job) refl (Within-job_task job)).1
