-- ===== src/System.antt =====
-- The two synchronizers together: they share the two caches, and handle messages in any order. A
-- step is the handling of one message, from Controls (controls/mod.rs), of one Phoebus topic at
-- runtime (phoebus/monitor/mod.rs), or at startup (phoebus/init/mod.rs).
pub mod Touching
pub mod Invariants
pub mod Echo
pub mod Runs
pub mod Interleaving
use alarms_actions_synchroni.Prelude.{String, ◌≡◌, some}
use alarms_actions_synchroni.Prelude.Int.{ℤ}
use alarms_actions_synchroni.External.PubSub.{StringMessage}
use alarms_actions_synchroni.World.{World, Env}
use alarms_actions_synchroni.Controls
use alarms_actions_synchroni.Controls.{SyncImpl}
use alarms_actions_synchroni.Phoebus.Monitor
use alarms_actions_synchroni.Phoebus.Monitor.{Monitor}
use alarms_actions_synchroni.Phoebus.Init.{hydrate_message}

module _ {V D : Type 0} (env : Env V D) (sync : SyncImpl) where
  pub data Step (w : World V) : World V → Type 0 where
    controls :
        (msg : StringMessage) {w' : World V}
        → (Controls.process_runtime_message env sync msg w).1 ≡ w'
        → Step w w'
    runtime :
        (monitor : Monitor) (now : ℤ) (msg : StringMessage) {w' : World V}
        → Monitor.process_runtime_message env monitor now msg w ≡ some w'
        → Step w w'
    startup :
        (now : ℤ) (topic : String) (msg : StringMessage) {w' : World V}
        → hydrate_message env now topic msg w ≡ w'
        → Step w w'

  -- The worlds that a run of the program can reach from one.
  pub data Reach (w : World V) : World V → Type 0 where
    here : Reach w w
    next : {w' w'' : World V} → Reach w w' → Step w' w'' → Reach w w''
