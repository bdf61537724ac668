-- ===== src/Tests/Looping.antt =====
-- The loops at a concrete stream: a config, a lost connection, its unbypass, and a cancellation.
use alarms_actions_synchroni.Prelude.{true, false, [], ◌∷◌, List, arith}
use alarms_actions_synchroni.Prelude.Int.{pos}
use alarms_actions_synchroni.Streams.{
  Event, cancelled, dropped, is_stopped, live, handle_all, connect_and_watch,
}
use alarms_actions_synchroni.Streams
use alarms_actions_synchroni.Controls.Loop.{on_message, synchronize}
use alarms_actions_synchroni.Phoebus.Monitor
use alarms_actions_synchroni.Phoebus.Monitor.Loop.{start}
use alarms_actions_synchroni.System.Runs.{Completes, synchronize-Completes, start-Completes}
use alarms_actions_synchroni.Tests.Instance.{env, sync, monitor, message, fresh_world}

abbrev phoebus_events : List Event
phoebus_events =
    Streams.message (pos 0) (message "config:/Vacuum/M:OUTTMP" "false")
    ∷ dropped false
    ∷ Streams.message (pos 0) (message "config:/Vacuum/M:OUTTMP" "true")
    ∷ cancelled
    ∷ Streams.message (pos 0) (message "config:/Vacuum/M:OUTTMP" "false")
    ∷ []

abbrev controls_events : List Event
controls_events =
    Streams.message (pos 0) (message "any" "bypassed")
    ∷ dropped false
    ∷ Streams.message (pos 0) (message "any" "alarmed")
    ∷ dropped true
    ∷ []

start-Completes_example :
    Completes env sync
      (Monitor.process_runtime_message env monitor)
      (start env monitor 9 phoebus_events fresh_world)
      phoebus_events
      fresh_world
start-Completes_example =
    start-Completes env sync monitor 9 phoebus_events fresh_world (omega arith)

synchronize-Completes_example :
    Completes env sync
      (on_message env sync)
      (synchronize env sync 9 controls_events fresh_world)
      controls_events
      fresh_world
synchronize-Completes_example =
    synchronize-Completes env sync 9 controls_events fresh_world (omega arith)
