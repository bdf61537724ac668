-- ===== src/Tests/Monitoring.antt =====
-- Messages of the Phoebus topic at the concrete outside world.
use alarms_actions_synchroni.Prelude.{String, ◌≡◌, refl, some, none, [], ◌∷◌, ◌≢◌, ◌⊎◌, arith}
use alarms_actions_synchroni.Prelude.Int.{pos}
use alarms_actions_synchroni.Prelude.HashMap.{get}
use alarms_actions_synchroni.Models.Proto.{State}
use alarms_actions_synchroni.Models.Outcomes.{SyncOutcome}
use alarms_actions_synchroni.Models.Phoebus.{Config, as_cached_state}
use alarms_actions_synchroni.Models.Phoebus.Wire.{bool_or_string}
use alarms_actions_synchroni.World
use alarms_actions_synchroni.World.{World}
use alarms_actions_synchroni.Phoebus.Sync.{execute_command}
use alarms_actions_synchroni.Phoebus.Sync.Retry.{IsRetried, execute_command-IsRetried}
use alarms_actions_synchroni.Phoebus.Monitor
use alarms_actions_synchroni.Phoebus.Monitor.{process_command, process_config}
use alarms_actions_synchroni.Phoebus.Monitor.Effect.{ConfigEffect, process_config_effect}
use alarms_actions_synchroni.Phoebus.Monitor.Commands.{CommandEffect, process_command_effect}
use alarms_actions_synchroni.Phoebus.Monitor.Runtime.{MessageEffect, process_runtime_message_total}
use alarms_actions_synchroni.Phoebus.Monitor.Repeats.{Quiet, process_runtime_message_twice}
use alarms_actions_synchroni.Phoebus.Monitor.Scope.{Overlooked, process_config_scope}
use alarms_actions_synchroni.Tests.Instance.{
  env, monitor, message, fresh_world, bypassed_world, device, new_year, enabled_key, command_key,
  enabled,
}
use alarms_actions_synchroni.Tests.Run.{run}

abbrev after_bypass : World String
after_bypass = record bypassed_world {
  sent =
      ("service", World.bypass ("M:OUTTMP#Epics" ∷ []) "operator")
      ∷ ("service", World.bypass ("M:OUTTMP#Epics" ∷ []) "operator")
      ∷ [];
}

-- The first request is rejected and the second accepted; the next message repeats the first, and a
-- key without a device is skipped.
bypass_tests :
    (Monitor.process_runtime_message env monitor
        (pos 0)
        (message "config:/Vacuum/M:OUTTMP" "false")
        fresh_world
      ≡ some after_bypass)
    × (Monitor.process_runtime_message env monitor
          (pos 0)
          (message "config:/Vacuum/M:OUTTMP" "false")
          after_bypass
        ≡ some after_bypass)
    × (Monitor.process_runtime_message env monitor
          (pos 0)
          (message "config:/Vacuum/" "false")
          fresh_world
        ≡ some fresh_world)
unfolding run
bypass_tests = (refl, refl, refl)

process_runtime_message_total_example :
    (w' : World String) × (Monitor.process_runtime_message env monitor
        (pos 0)
        (message "config:/Vacuum/M:OUTTMP" "false")
        fresh_world
      ≡ some w')
    × MessageEffect env monitor (pos 0) (message "config:/Vacuum/M:OUTTMP" "false") fresh_world w'
process_runtime_message_total_example =
    process_runtime_message_total env monitor (pos 0) (message "config:/Vacuum/M:OUTTMP" "false")
      fresh_world

process_config_effect_example :
    (outcome : SyncOutcome) × (w' : World String) × (process_config env monitor
        (pos 0)
        enabled_key
        new_year
        fresh_world
      ≡ some (outcome, w'))
    × ConfigEffect env monitor (pos 0) enabled_key new_year fresh_world outcome w'
process_config_effect_example =
    process_config_effect env monitor (pos 0) enabled_key new_year fresh_world

process_command_effect_example :
    CommandEffect env monitor command_key "acknowledge" bypassed_world
      (process_command env monitor command_key "acknowledge" bypassed_world)
process_command_effect_example =
    process_command_effect env monitor command_key "acknowledge" bypassed_world

execute_command-IsRetried_example :
    IsRetried env monitor.controls_client
      (World.activate ("M:OUTTMP#Epics" ∷ []) "operator")
      fresh_world
      (execute_command env monitor.controls_client
        (World.activate ("M:OUTTMP#Epics" ∷ []) "operator")
        fresh_world)
execute_command-IsRetried_example =
    execute_command-IsRetried env monitor.controls_client
      (World.activate ("M:OUTTMP#Epics" ∷ []) "operator") fresh_world

same_bypass :
    (config : Config String)
    → env.json.config_from_str (bool_or_string env.json) "false" ≡ some config
    → as_cached_state env.chrono (pos 86400000) config ≡ as_cached_state env.chrono (pos 0) config
unfolding run
same_bypass config decoded =
    let e : enabled "false" ≡ config = ground (arith, decoded) in rw (← e) refl

process_runtime_message_twice_example :
    (w'' : World String) × (Monitor.process_runtime_message env monitor
        (pos 86400000)
        (message "config:/Vacuum/M:OUTTMP" "false")
        after_bypass
      ≡ some w'')
    × Quiet after_bypass w''
process_runtime_message_twice_example =
    process_runtime_message_twice env monitor (pos 0) (pos 86400000)
      (message "config:/Vacuum/M:OUTTMP" "false") fresh_world after_bypass
      (λ text key present good o config decoded. same_bypass config decoded) bypass_tests.0

-- A device that only startup evidence has shown as unbypassed is overlooked.
abbrev unmapped_world : World String
unmapped_world = record fresh_world {
  alarm_states = (device, record { state = State.unbypassed; wake = none }) ∷ [];
  metadata_scope = [];
}

overlooked_test :
    process_config env monitor (pos 0) enabled_key "true" unmapped_world
    ≡ some (SyncOutcome.duplicate, unmapped_world)
unfolding run
overlooked_test = refl

process_config_scope_example :
    (get device unmapped_world.metadata_scope ≢ none)
    ⊎ Overlooked env monitor
        (pos 0)
        enabled_key
        (enabled "true")
        (record { state = State.unbypassed; wake = none })
        unmapped_world
        unmapped_world
unfolding run
process_config_scope_example =
    process_config_scope env monitor (pos 0) enabled_key "true" (enabled "true")
      (record { state = State.unbypassed; wake = none }) SyncOutcome.duplicate unmapped_world
      unmapped_world refl refl refl
