-- ===== src/Phoebus/Sync.antt =====
-- phoebus/sync/mod.rs: the client of the Controls alarms service.
pub mod Retry
pub mod Tasks
use alarms_actions_synchroni.Prelude.{
  Result, ok, err, String, Bool, true, false, some, length, List, [], ◌∷◌, ◌++◌, if◌then◌else◌,
}
use alarms_actions_synchroni.Prelude.Text.{◌++◌ as ◌<>◌}
use alarms_actions_synchroni.Models.Proto.{Timestamp}
use alarms_actions_synchroni.Models.Outcomes.{OutboundSyncResult}
use alarms_actions_synchroni.World.{Request, acknowledge, activate, bypass, snooze, World, Env}

pub record ControlsClient : Type 0 where
  pub grpc_alarms_svc_host : String

-- `vec![format!("{device}#Epics")]`
abbrev pub devices : String → List String
devices device = (device <> "#Epics") ∷ []

-- The two arms of `run_operation`.
abbrev is_ok : {A E : Type 0} → Result A E → Bool
is_ok (ok a) = true
is_ok (err e) = false

module _ {V D : Type 0} (env : Env V D) (client : ControlsClient) where
  -- `CommandRequest::send_request`, which calls the method of the client that the request is for.
  send_request : Request → World V → Result (Unit {0}) (Unit {0}) × World V
  send_request request w = (
    (if env.accepts (length w.sent) then ok tt else err tt),
    record w { sent = w.sent ++ (client.grpc_alarms_svc_host, request) ∷ [] },
  )

  unfoldable pub run_operation : Request → World V → Bool × World V
  unfolding send_request
  run_operation request w = let (sent, w') = send_request request w in (is_ok sent, w')

  second_attempt : Request → World V → OutboundSyncResult × World V
  unfolding run_operation
  second_attempt request w =
      let (done, w') = run_operation request w in
      (if done then OutboundSyncResult.succeeded else OutboundSyncResult.failed, w')

  unfoldable pub execute_command : Request → World V → OutboundSyncResult × World V
  unfolding second_attempt
  execute_command request w =
      if env.connects client.grpc_alarms_svc_host
      then (let (done, w') = run_operation request w in
          if done then (OutboundSyncResult.succeeded, w') else second_attempt request w')
      else (OutboundSyncResult.failed, w)

  unfoldable pub acknowledge_alarm : String → String → World V → OutboundSyncResult × World V
  acknowledge_alarm device user = execute_command (acknowledge (devices device) user)

  unfoldable pub activate_alarm : String → String → World V → OutboundSyncResult × World V
  activate_alarm device user = execute_command (activate (devices device) user)

  unfoldable pub bypass_alarm : String → String → World V → OutboundSyncResult × World V
  bypass_alarm device user = execute_command (bypass (devices device) user)

  unfoldable pub snooze_alarm : String → String → Timestamp → World V → OutboundSyncResult × World V
  snooze_alarm device user wake = execute_command (snooze (devices device) user (some wake))
