-- ===== src/System/Interleaving/Alone.antt =====
-- A job that nothing interrupts.
use alarms_actions_synchroni.Prelude.{◌≡◌, refl, ap}
use alarms_actions_synchroni.World.{World, Env}
use alarms_actions_synchroni.Tasks.{returned, run_alone}
use alarms_actions_synchroni.Tasks.Binding.{left_by, run_alone->>=}
use alarms_actions_synchroni.Controls.{SyncImpl}
use alarms_actions_synchroni.Controls.Tasks as ControlsTasks
use alarms_actions_synchroni.Phoebus.Init.Tasks.{alone-get_existing_messages}
use alarms_actions_synchroni.Phoebus.Monitor.Tasks.Alone as MonitorAlone
use alarms_actions_synchroni.System.Interleaving.{
  Job, from_controls, from_topic, startup, job_task, do_job,
}

module _ {V D : Type 0} (env : Env V D) (sync : SyncImpl) where
  -- The task of a message or of the hydration, run without another between its accesses, leaves
  -- the world that the sequential handler returns, and panics exactly if that one does.
  pub run_alone-job_task :
      (job : Job) (w : World V)
      → left_by (run_alone env (job_task env sync job) w) ≡ do_job env sync job w
  unfolding job_task do_job
  run_alone-job_task (from_controls msg) w =
      rw
        (
          run_alone->>= env (λ result. returned tt)
              (ControlsTasks.process_runtime_message_task env sync msg) w,
          ControlsTasks.alone-process_runtime_message env sync msg w,
        )
        (unfold run_alone in refl)
  run_alone-job_task (from_topic monitor now msg) w =
      MonitorAlone.alone-process_runtime_message env monitor now msg w
  run_alone-job_task (startup phoebus_host topics) w =
      ap left_by (alone-get_existing_messages env phoebus_host topics w)
