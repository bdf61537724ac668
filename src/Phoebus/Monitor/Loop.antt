-- ===== src/Phoebus/Monitor/Loop.antt =====
-- `watch_stream` and `start` of phoebus/monitor/mod.rs: the loop over the messages of a topic.
use alarms_actions_synchroni.Prelude.{ℕ, Bool, Option, List}
use alarms_actions_synchroni.World.{World, Env}
use alarms_actions_synchroni.Streams.{Event, Exit, watch, connect_and_watch}
use alarms_actions_synchroni.Phoebus.Monitor.{Monitor, process_runtime_message}

module _ {V D : Type 0} (env : Env V D) (monitor : Monitor) where
  unfoldable pub watch_stream : List Event → World V → Option (Exit × List Event × World V)
  watch_stream = watch (process_runtime_message env monitor)

  -- The fuel bounds the connections.
  unfoldable pub start : ℕ → List Event → World V → Option (Bool × World V)
  start = connect_and_watch (process_runtime_message env monitor)
