-- ===== src/Controls/Loop.antt =====
-- `monitor` and `synchronize` of controls/mod.rs: the loop over the messages from Controls.
use alarms_actions_synchroni.Prelude.{ℕ, Bool, Option, some, List}
use alarms_actions_synchroni.Prelude.Int.{ℤ}
use alarms_actions_synchroni.External.PubSub.{StringMessage}
use alarms_actions_synchroni.World.{World, Env}
use alarms_actions_synchroni.Streams.{Event, Exit, watch, connect_and_watch}
use alarms_actions_synchroni.Controls.{SyncImpl, process_runtime_message}

module _ {V D : Type 0} (env : Env V D) (sync : SyncImpl) where
  -- The result of a message is dropped.
  abbrev pub on_message : ℤ → StringMessage → World V → Option (World V)
  on_message now msg w = some (process_runtime_message env sync msg w).1

  unfoldable pub monitor : List Event → World V → Option (Exit × List Event × World V)
  monitor = watch on_message

  -- The fuel bounds the connections.
  unfoldable pub synchronize : ℕ → List Event → World V → Option (Bool × World V)
  synchronize = connect_and_watch on_message
