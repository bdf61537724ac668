-- ===== src/System/Interleaving/Bounds.antt =====
-- The cost of a runtime message.
use alarms_actions_synchroni.Prelude.Int.{ℤ}
use alarms_actions_synchroni.External.PubSub.{StringMessage}
use alarms_actions_synchroni.World.{Env}
use alarms_actions_synchroni.Tasks.Bounds.{Within}
use alarms_actions_synchroni.Controls.{SyncImpl}
use alarms_actions_synchroni.Controls.Tasks as ControlsTasks
use alarms_actions_synchroni.Controls.Tasks.Bounds as ControlsBounds
use alarms_actions_synchroni.Phoebus.Monitor.{Monitor}
use alarms_actions_synchroni.Phoebus.Monitor.Tasks as MonitorTasks
use alarms_actions_synchroni.Phoebus.Monitor.Tasks.Bounds as MonitorBounds

-- Whatever the accesses of the caches, the alarms service and the publishers return, and so
-- whatever other tasks do between its accesses, the handling of a message from Controls makes at
-- most three accesses of the caches, no request to the alarms service and one publication, and that
-- of a runtime message from Phoebus at most four accesses, two requests and no publication; neither
-- panics.
pub process_runtime_message_bounds :
    {V D : Type 0} (env : Env V D) (sync : SyncImpl) (monitor : Monitor) (now : ℤ)
    (msg : StringMessage)
    → Within (λ result. Unit {0}) 3 0 1 (ControlsTasks.process_runtime_message_task env sync msg)
      × Within (λ a. Unit {0}) 4 2 0 (MonitorTasks.process_runtime_message_task env monitor now msg)
process_runtime_message_bounds env sync monitor now msg = (
  ControlsBounds.Within-process_runtime_message env sync msg,
  MonitorBounds.Within-process_runtime_message env monitor now msg,
)
