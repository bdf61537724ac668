-- ===== src/Controls/Tasks/Posting.antt =====
-- The task of posting to Phoebus makes no access of the caches.
use alarms_actions_synchroni.Prelude.{String, Option, none, some, Result, ok, err}
use alarms_actions_synchroni.Prelude.HashMap.{get}
use alarms_actions_synchroni.External.PubSub.{StringMessage, Publisher}
use alarms_actions_synchroni.Models.Proto.{Status, source_eq}
use alarms_actions_synchroni.Models.Phoebus.{PvMetadata}
use alarms_actions_synchroni.Models.Phoebus.Key.{Operation}
use alarms_actions_synchroni.World.{Env}
use alarms_actions_synchroni.Controls.Transform
use alarms_actions_synchroni.Controls.Transform.{get_topic_for_operation}
use alarms_actions_synchroni.Controls.{SyncImpl}
use alarms_actions_synchroni.Controls.Tasks.{
  publish_task, publish_result_task, sync_on_topic_task, sync_epics_message_task,
}
use alarms_actions_synchroni.Tasks.Silent.{IsSilent}

module _ {V D : Type 0} (env : Env V D) (sync : SyncImpl) where
  -- Posting, which makes no access.
  pub sync_epics_message_task-IsSilent :
      (alarm : Status) (operation : Operation) (metadata : PvMetadata V)
      → IsSilent (sync_epics_message_task env sync alarm operation metadata)
  unfolding sync_epics_message_task
  sync_epics_message_task-IsSilent alarm operation metadata =
      on_topic (get_topic_for_operation operation metadata)
    where
      on_publisher :
          (publisher : Option Publisher) (message : StringMessage)
          → IsSilent (publish_task env sync publisher message)
      on_publisher none message = tt
      on_publisher (some publisher) message = λ delivered. tt

      on_message :
          (topic : String) (r : Result StringMessage (Unit {0}))
          → IsSilent (publish_result_task env sync topic r)
      on_message topic (err e) = tt
      on_message topic (ok message) = on_publisher (get topic sync.phoebus_publishers) message

      on_topic :
          (topic : Option String)
          → IsSilent (sync_on_topic_task env sync topic alarm operation metadata)
      on_topic none = tt
      on_topic (some topic) =
          on_message topic
            (Transform.controls_to_phoebus env.json env.chrono alarm operation metadata)
