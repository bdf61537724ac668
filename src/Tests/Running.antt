-- ===== src/Tests/Running.antt =====
-- The program at the concrete outside world: it hydrates, handles a message of a topic, and stops.
use alarms_actions_synchroni.Prelude.{
  String, Option, none, some, [], ◌∷◌, ◌≡◌, ◌↔◌, refl, ok, ◌==◌, string_eq, if◌then◌else◌, true,
  ◌⊎◌, ℕ, ◌≤◌,
}
use alarms_actions_synchroni.Prelude.Int.{pos}
use alarms_actions_synchroni.Prelude.HashMap.{get}
use alarms_actions_synchroni.External.PubSub.{Publisher}
use alarms_actions_synchroni.Controls.{new}
use alarms_actions_synchroni.Controls.Publishers.{IsServed}
use alarms_actions_synchroni.Startup.{SynchronizerConfig, new_world, missing_variable}
use alarms_actions_synchroni.Phoebus.Synchronizer.{IsAmong, monitors, monitors_iff}
use alarms_actions_synchroni.System.Interleaving.{advance}
use alarms_actions_synchroni.Program.{
  Program, first_program, controls_sync, connects, breaks, returns, serving, finished, stopped,
}
use alarms_actions_synchroni.Program.Steps.{
  serves, of_listener, of_health, of_controls, of_phoebus, drops_monitor, Run, begin, and_then,
  ctrl_c, controls_receives, controls_turns, reports, hydrated, topic_receives, monitor_turns,
  stops, proceeds, Next,
}
use alarms_actions_synchroni.Main.{configuration, main}
use alarms_actions_synchroni.Main.Failing.{main-error, error_of}
use alarms_actions_synchroni.Main.Phases.{IsInOrder}
use alarms_actions_synchroni.Main.Ordering.{Run-Ordered}
use alarms_actions_synchroni.Main.Ending.{IsEnding, Run-IsEnding}
use alarms_actions_synchroni.System.Invariants.{Follows}
use alarms_actions_synchroni.System.Interleaving.Safety.{IsStaleWrite}
use alarms_actions_synchroni.Main.Safety.{Run-Follows}
use alarms_actions_synchroni.Main.Turns.{turns}
use alarms_actions_synchroni.Main.Stopping.{received, steps, Run-stops}
use alarms_actions_synchroni.Models.Proto.{State}
use alarms_actions_synchroni.Tests.Instance.{device, env, monitor, message, topic}
use alarms_actions_synchroni.Tests.Run.{run_tasks}

abbrev variable : String → Option String
variable name =
    if name == "PHOEBUS_TOPICS"
    then some "Accelerator"
    else if name == "CONTROLS_HOST"
    then some "controls"
    else if name == "CONTROLS_TOPIC"
    then some "alarms"
    else if name == "GRPC_ALARMS_SERVICE_HOST"
    then some "service"
    else if name == "PHOEBUS_HOST"
    then some "phoebus"
    else if name == "HEALTH_ADDR"
    then some "0.0.0.0:50051"
    else none

abbrev config : SynchronizerConfig
config = record {
  controls_host = "controls";
  controls_topic = "alarms";
  grpc_alarms_svc_host = "service";
  phoebus_host = "phoebus";
  phoebus_topics = topic ∷ [];
}

abbrev first : Program String
first = first_program env config

main_starts : main env true variable ≡ ok (config, first)
unfolding run_tasks
main_starts = refl

-- The hydration makes its three accesses, and ends; the topic's monitor reads the scope for a
-- message when the program is cancelled, makes another access after the Phoebus synchronizer has
-- ended, and is dropped.
some_run : (p : Program String) × Run env config first p
unfolding run_tasks
some_run =
    let b = and_then begin (of_health (serves refl refl)) in
    let b =
      and_then (and_then (and_then b (proceeds 1 refl)) (proceeds 1 refl)) (proceeds 1 refl) in
    let b = and_then b (of_phoebus (hydrated refl refl refl)) in
    let b = and_then b (of_phoebus (monitor_turns 0 monitor refl connects refl refl)) in
    let b = and_then b (
      of_phoebus (
        topic_receives 0 monitor (pos 0) (message "config:/Vacuum/M:OUTTMP" "true") refl refl refl
          refl)) in
    let b = and_then (and_then b (proceeds 2 refl)) (of_listener (ctrl_c refl refl)) in
    let b = and_then b (of_health (reports refl refl refl)) in
    let b = and_then (and_then b (of_phoebus (stops refl refl))) (proceeds 2 refl) in
    (_, and_then b (of_phoebus (drops_monitor 0 refl refl)))

Run-Ordered_example : IsInOrder some_run.0
Run-Ordered_example = Run-Ordered env config true variable first main_starts some_run.1

Run-IsEnding_example : IsEnding some_run.0
Run-IsEnding_example = Run-IsEnding env config true variable first main_starts some_run.1

abbrev without_topic : String → Option String
without_topic name = if name == "CONTROLS_TOPIC" then none else variable name

main-error_example :
    error_of (main env true without_topic)
    ≡ some (configuration (missing_variable "CONTROLS_TOPIC"))
unfolding run_tasks
main-error_example = main-error without_topic env true

monitors_iff_example : IsAmong monitor (monitors config) ↔ (
    (monitor.controls_client.grpc_alarms_svc_host ≡ config.grpc_alarms_svc_host)
    × (monitor.phoebus_host ≡ config.phoebus_host)
    × IsServed topic (topic ∷ [])
    × ((publisher : Publisher) × (get topic
            (new "controls" "alarms" "phoebus" (topic ∷ [])).phoebus_publishers
          ≡ some publisher)))
monitors_iff_example = monitors_iff config monitor

-- The first access of the hydration records the bypass.
some_access : (p : Program String) × Next env config first p
some_access = (_, proceeds 1 refl)

bypass_recorded_first :
    get device some_access.0.system.world.alarm_states
    ≡ some (record { state = State.bypassed; wake = none })
unfolding run_tasks some_access new_world
bypass_recorded_first = refl

Run-Follows_example :
    Follows
      (get device first.system.world.alarm_states)
      (get device some_access.0.system.world.alarm_states)
    ⊎ ((i : ℕ) × IsStaleWrite device (first.system.threads i) first.system.world
        × (some_access.0.system.world
            ≡ (advance env (controls_sync config) (first.system.threads i) first.system.world).1))
Run-Follows_example =
    Run-Follows env config device true variable first main_starts begin some_access.1

-- A bypass from Controls is in work when Ctrl+C comes.
cancelled_run : (p : Program String) × Run env config first p × (p.is_cancelled ≡ true)
unfolding run_tasks
cancelled_run = (
  _,
  and_then
      (and_then
        (and_then (and_then begin (of_controls (controls_turns connects refl refl)))
          (of_controls (controls_receives (message "any" "bypassed") refl refl refl)))
        (proceeds 0 refl))
      (of_listener (ctrl_c refl refl)),
  refl,
)

Run-stops_example :
    ((i : ℕ) (later : Program String) (run : Run env config cancelled_run.0 later)
      → turns env config i run ≤ 4)
    × ((end : Program String) × (run : Run env config cancelled_run.0 end) × (end.controls_loop
          ≡ finished)
        × (end.phase ≡ stopped)
        × (received env config run ≡ 0)
        × (steps env config run ≤ 9))
Run-stops_example =
    Run-stops env config true variable first main_starts cancelled_run.1 cancelled_run.2

-- The two synchronizers have ended, and the health server has not yet looked at the token.
unreported_run :
    (p : Program String) × Run env config first p
    × (p.controls_loop ≡ finished)
    × (p.phase ≡ stopped)
    × (p.statuses ≡ serving ∷ [])
unfolding run_tasks
unreported_run = (
  _,
  and_then
      (and_then
        (and_then
          (and_then
            (and_then (and_then begin (of_health (serves refl refl)))
              (of_controls (controls_turns connects refl refl)))
            (of_listener (ctrl_c refl refl)))
          (of_controls (controls_turns (breaks refl) refl refl)))
        (of_controls (controls_turns (returns refl) refl refl)))
      (of_phoebus (stops refl refl)),
  refl,
  refl,
  refl,
)
