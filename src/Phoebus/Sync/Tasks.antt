-- ===== src/Phoebus/Sync/Tasks.antt =====
-- The commands of phoebus/sync/mod.rs as tasks.
use alarms_actions_synchroni.Prelude.{
  ◌++◌, ◌∷◌, [], Bool, true, false, some, ◌≡◌, refl, if◌then◌else◌, Bool-cases, inl, inr, length,
}
use alarms_actions_synchroni.Models.Outcomes.{OutboundSyncResult}
use alarms_actions_synchroni.World.{World, Env, Request}
use alarms_actions_synchroni.Tasks.{Task, returned, send, run_alone}
use alarms_actions_synchroni.Tasks.Silent.{IsSilent}
use alarms_actions_synchroni.Phoebus.Sync.{
  ControlsClient, execute_command, run_operation, second_attempt,
}

module _ {V D : Type 0} (env : Env V D) (client : ControlsClient) where
  after_second_attempt : Bool → Task V OutboundSyncResult
  after_second_attempt done =
      returned (if done then OutboundSyncResult.succeeded else OutboundSyncResult.failed)

  after_first_attempt : Request → Bool → Task V OutboundSyncResult
  unfolding after_second_attempt
  after_first_attempt request done =
      if done
      then returned OutboundSyncResult.succeeded
      else send client.grpc_alarms_svc_host request after_second_attempt

  unfoldable pub execute_command_task : Request → Task V OutboundSyncResult
  unfolding after_first_attempt
  execute_command_task request =
      if env.connects client.grpc_alarms_svc_host
      then send client.grpc_alarms_svc_host request (after_first_attempt request)
      else returned OutboundSyncResult.failed

  -- Alone, the task does what the command does.
  pub alone-execute_command :
      (request : Request) (w : World V)
      → run_alone env (execute_command_task request) w ≡ some (execute_command env client request w)
  unfolding execute_command execute_command_task second_attempt run_operation run_alone
  alone-execute_command request w = elim (Bool-cases (env.connects client.grpc_alarms_svc_host)) [
    | inr off ↦ rw off (unfold run_alone in refl)
    | inl on ↦ elim (Bool-cases (env.accepts (length w.sent))) [
      | inl accepted ↦ rw (on, run_alone, accepted) refl
      | inr rejected ↦
          elim (Bool-cases
            (env.accepts (length (w.sent ++ (client.grpc_alarms_svc_host, request) ∷ [])))) [
              | inl accepted ↦ rw (on, run_alone, rejected, accepted) refl
              | inr again ↦ rw (on, run_alone, rejected, again) refl
            ]
    ]
  ]

  pub execute_command_task-IsSilent : (request : Request) → IsSilent (execute_command_task request)
  unfolding execute_command_task
  execute_command_task-IsSilent request =
      elim (Bool-cases (env.connects client.grpc_alarms_svc_host)) [
        | inr off ↦ rw off tt
        | inl on ↦ rw on after_first
      ]
    where
      after_first : (done : Bool) → IsSilent {V = V} (after_first_attempt request done)
      after_first true = tt
      after_first false = λ done. tt
