-- ===== src/Phoebus/Monitor/Commands.antt =====
-- What `process_command` of phoebus/monitor/mod.rs does, on every branch.
use alarms_actions_synchroni.Prelude.{
  String, true, false, ◌≡◌, ◌≢◌, none, some, arith, Option-cases, Bool-cases, inl, inr, string_eq,
}
use alarms_actions_synchroni.Prelude.HashMap.{get, insert}
use alarms_actions_synchroni.Models.Cache.{
  suppresses_incoming, read_observed_state_policy, record_alarm_state,
}
use alarms_actions_synchroni.Models.Outcomes.{
  SyncOutcome, ignored, SyncDirection, IgnoreReason, SkipReason, OutboundSyncResult,
  into_sync_outcome,
}
use alarms_actions_synchroni.Models.Phoebus.{Command}
use alarms_actions_synchroni.Models.Phoebus.Key.{Key}
use alarms_actions_synchroni.Controls.Transform.{ack_command}
use alarms_actions_synchroni.World.{World, Env, acknowledge}
use alarms_actions_synchroni.Phoebus.Sync.{execute_command, devices, acknowledge_alarm}
use alarms_actions_synchroni.Phoebus.Monitor.{
  Monitor, acknowledged_state, process_command, decide_phoebus_command,
}

module _ {V D : Type 0} (env : Env V D) (monitor : Monitor) (key : Key) where
  abbrev acknowledged : OutboundSyncResult × World V → SyncOutcome × World V
  acknowledged (result, w) = (
    into_sync_outcome result SyncDirection.phoebus_to_controls,
    record w { alarm_states = insert key.device acknowledged_state w.alarm_states },
  )

  pub data CommandEffect (text : String) (w : World V) : SyncOutcome × World V → Type 0 where
    unreadable :
        env.json.command_from_str text ≡ none
        → CommandEffect text w (SyncOutcome.skipped SkipReason.malformed_message, w)
    unsupported :
        (c : Command)
        → env.json.command_from_str text ≡ some c
        → c.command ≢ ack_command
        → CommandEffect text w (ignored IgnoreReason.state_noise, w)
    suppressed :
        (c : Command)
        → env.json.command_from_str text ≡ some c
        → c.command ≡ ack_command
        → suppresses_incoming
            (record { observed = get key.device w.alarm_states })
            acknowledged_state
          ≡ true
        → CommandEffect text w (ignored IgnoreReason.suppressed_by_policy, w)
    -- The acknowledgement is sent, and recorded whatever the result is.
    mirrors :
        (c : Command) {r : SyncOutcome × World V}
        → env.json.command_from_str text ≡ some c
        → c.command ≡ ack_command
        → suppresses_incoming
            (record { observed = get key.device w.alarm_states })
            acknowledged_state
          ≡ false
        → r
          ≡ acknowledged (
              execute_command env monitor.controls_client
                (acknowledge (devices key.device) c.user)
                w)
        → CommandEffect text w r

  -- `process_command` skips a text that it cannot read, ignores a command other than an
  -- acknowledgement and one that the policy suppresses, and sends and records any other.
  pub process_command_effect :
      (text : String) (w : World V) → CommandEffect text w (process_command env monitor key text w)
  unfolding process_command decide_phoebus_command read_observed_state_policy record_alarm_state
      acknowledge_alarm
  process_command_effect text w = elim (Option-cases (env.json.command_from_str text)) [
    | inl malformed ↦ rw (malformed, decide_phoebus_command) (unreadable malformed)
    | inr (c, decoded) ↦ elim (string_eq.dec c.command ack_command) [
      | no other ↦
          let done : process_command env monitor key text w
              ≡ (ignored IgnoreReason.state_noise, w) =
            ground arith in
          rw done (unsupported c decoded other)
      | yes same ↦
          elim (Bool-cases (
            suppresses_incoming (record { observed = get key.device w.alarm_states })
              acknowledged_state)) [
                | inl old ↦
                    let done : process_command env monitor key text w
                        ≡ (ignored IgnoreReason.suppressed_by_policy, w) =
                      ground arith in
                    rw done (suppressed c decoded same old)
                | inr fresh ↦ mirrors c decoded same fresh (ground arith)
              ]
    ]
  ]
