-- ===== src/Tests/Mirroring.antt =====
-- A status from Controls, and its echo, at the concrete outside world.
use alarms_actions_synchroni.Prelude.{
  String, ◌≡◌, ◌++◌, refl, some, none, ok, [], ◌∷◌, arith, ◌↔◌, inr,
}
use alarms_actions_synchroni.Prelude.Int.{pos}
use alarms_actions_synchroni.Prelude.HashMap.{get}
use alarms_actions_synchroni.External.PubSub.{StringMessage, Publisher}
use alarms_actions_synchroni.Models.Proto.{State, Status}
use alarms_actions_synchroni.Models.Cache.{from_status}
use alarms_actions_synchroni.Models.Outcomes.{SyncOutcome, SyncDirection, AttemptResult, attempted}
use alarms_actions_synchroni.Models.Phoebus.{as_cached_state}
use alarms_actions_synchroni.Models.Phoebus.Key.{Operation}
use alarms_actions_synchroni.World
use alarms_actions_synchroni.World.{World}
use alarms_actions_synchroni.Controls
use alarms_actions_synchroni.Controls.{new}
use alarms_actions_synchroni.Controls.Effect.{Mirrors, Posts}
use alarms_actions_synchroni.Controls.Posting.{IsMirrored, process_runtime_message_iff}
use alarms_actions_synchroni.Controls.Publishers.{IsServed, publishers_iff}
use alarms_actions_synchroni.Controls.Transform.Enablement.{
  IsMirrorable, as_cached_state-from_status,
}
use alarms_actions_synchroni.Phoebus.Monitor
use alarms_actions_synchroni.Phoebus.Monitor.{process_config}
use alarms_actions_synchroni.Phoebus.Monitor.Repeats.{Quiet}
use alarms_actions_synchroni.System.Echo.{phoebus_echo-Quiet, controls_echo-quiet, controls_twice}
use alarms_actions_synchroni.Tests.Instance.{
  chrono, env, sync, monitor, message, fresh_world, bypassed_world, metadata, status,
  device-IsDeviceName, new_year, enabled, enabled_key, topic, json-RereadsEnabled, chrono-IsChrono,
}
use alarms_actions_synchroni.Tests.Run.{run}

abbrev bypassed_status : Status
bypassed_status = status State.bypassed none

abbrev posted_bypass : StringMessage
posted_bypass = message "config:/Vacuum/M:OUTTMP" "false"

abbrev phoebus_publisher : Publisher
phoebus_publisher = record { host = "phoebus"; topic = topic }

abbrev mirrored_world : World String
mirrored_world = record bypassed_world { published = (phoebus_publisher, posted_bypass) ∷ [] }

abbrev snoozed_status : Status
snoozed_status = status State.bypassed (some (record { seconds = pos 4102444800; nanos = pos 0 }))

-- After the monitor has sent the bypass of the device to Controls.
abbrev echoed : SyncOutcome × World String
echoed = (
  attempted SyncDirection.phoebus_to_controls AttemptResult.succeeded,
  record bypassed_world {
    sent =
        ("service", World.bypass ("M:OUTTMP#Epics" ∷ []) "operator")
        ∷ ("service", World.bypass ("M:OUTTMP#Epics" ∷ []) "operator")
        ∷ [];
  },
)

mirroring_tests :
    (Controls.process_runtime_message env sync (message "any" "bypassed") fresh_world
      ≡ (ok (attempted SyncDirection.controls_to_phoebus AttemptResult.succeeded), mirrored_world))
    × ((Controls.process_runtime_message env sync (message "any" "alarmed") bypassed_world).1
        ≡ bypassed_world)
unfolding run
mirroring_tests = (refl, refl)

abbrev posted :
    Posts env sync bypassed_status Operation.config metadata fresh_world.published
      mirrored_world.published
unfolding run
posted = record {
  topic = topic;
  publisher = phoebus_publisher;
  message = posted_bypass;
  routed = refl;
  served = refl;
  encoded = refl;
  posted = refl;
}

abbrev mirrored : Mirrors env sync bypassed_status fresh_world mirrored_world
unfolding run
mirrored = record {
  metadata = metadata;
  operation = Operation.config;
  in_scope = refl;
  relevant = refl;
  fresh = refl;
  recorded = refl;
  same_scope = refl;
  same_sent = refl;
  outbound = inr posted;
}

phoebus_echo-Quiet_example :
    (w'' : World String) × (Monitor.process_runtime_message env monitor
        (pos 0)
        posted_bypass
        mirrored_world
      ≡ some w'')
    × Quiet mirrored_world w''
unfolding mirrored posted
phoebus_echo-Quiet_example =
    phoebus_echo-Quiet env sync json-RereadsEnabled chrono-IsChrono monitor (pos 0) bypassed_status
      fresh_world mirrored_world mirrored_world mirrored posted device-IsDeviceName
      (IsMirrorable.bypasses refl refl) refl

controls_echo-quiet_example :
    (Controls.process_runtime_message env sync (message "any" "bypassed") echoed.1).1 ≡ echoed.1
unfolding run
controls_echo-quiet_example =
    controls_echo-quiet env sync monitor (pos 0) enabled_key "false" (enabled "false")
      (from_status bypassed_status) echoed.0 fresh_world echoed.1 (message "any" "bypassed")
      bypassed_status refl refl refl refl refl refl

controls_twice_example :
    (Controls.process_runtime_message env sync
      (message "any" "bypassed")
      (Controls.process_runtime_message env sync (message "any" "bypassed") fresh_world).1).1
    ≡ (Controls.process_runtime_message env sync (message "any" "bypassed") fresh_world).1
controls_twice_example = controls_twice env sync (message "any" "bypassed") fresh_world

as_cached_state-from_status_example :
    as_cached_state chrono (pos 0) (enabled new_year) ≡ ok (from_status snoozed_status)
unfolding run
as_cached_state-from_status_example =
    as_cached_state-from_status chrono (pos 0) chrono-IsChrono snoozed_status (enabled new_year)
      (IsMirrorable.snoozes (record { seconds = pos 4102444800; nanos = pos 0 }) (pos 4102444800, 0)
        refl refl (ground arith) refl refl refl)
      (ground arith) refl

publishers_iff_example :
    (get "AcceleratorCommand" (new "controls" "alarms" "phoebus" (topic ∷ [])).phoebus_publishers
      ≡ some phoebus_publisher)
    ↔ ((phoebus_publisher ≡ record { host = "phoebus"; topic = "AcceleratorCommand" })
        × IsServed "AcceleratorCommand" (topic ∷ []))
publishers_iff_example =
    publishers_iff "controls" "alarms" "phoebus" "AcceleratorCommand" (topic ∷ []) phoebus_publisher

process_runtime_message_iff_example :
    ((Controls.process_runtime_message env sync (message "any" "bypassed") fresh_world).1.published
      ≡ fresh_world.published ++ (phoebus_publisher, posted_bypass) ∷ [])
    ↔ IsMirrored env sync (message "any" "bypassed") phoebus_publisher posted_bypass fresh_world
process_runtime_message_iff_example =
    process_runtime_message_iff env sync (message "any" "bypassed") phoebus_publisher posted_bypass
      fresh_world
