-- ===== src/Tests/Starting.antt =====
-- The startup of the two synchronizers at the concrete outside world, and their runs.
use alarms_actions_synchroni.Prelude.{
  String, ◌≡◌, ◌⊎◌, refl, some, none, ok, [], ◌∷◌, Option, ◌==◌, string_eq, if◌then◌else◌, List,
}
use mathlib.Core.Option
use alarms_actions_synchroni.Prelude.Int.{pos}
use alarms_actions_synchroni.Prelude.HashMap.{get}
use alarms_actions_synchroni.Models.Proto.{State}
use alarms_actions_synchroni.World
use alarms_actions_synchroni.World.{World, Request}
use alarms_actions_synchroni.Phoebus.Init.{get_existing_messages_from_phoebus}
use alarms_actions_synchroni.Phoebus.Init.Evidence.{metadata_of, later, last_config_record}
use alarms_actions_synchroni.Phoebus.Init.Bypass.{states}
use alarms_actions_synchroni.Phoebus.Init.Startup.{startup_record, startup_scope, startup_bypass}
use alarms_actions_synchroni.Startup.{
  SynchronizerConfig, create_synchronizer_config, new_world, topic_list,
}
use alarms_actions_synchroni.System.{Step, Reach}
use alarms_actions_synchroni.System.Invariants.{IsIn, Reach-bypass}
use alarms_actions_synchroni.Tests.Instance.{
  env, sync, monitor, message, fresh_world, bypassed_world, device, enabled, enabled_key, topic,
}
use alarms_actions_synchroni.Tests.Run.{run}

startup_scope_example :
    get device
      (get_existing_messages_from_phoebus env "phoebus" (topic ∷ []) new_world).metadata_scope
    ≡ later
        (Option.map (λ (t, r). metadata_of t r) (startup_record env device "phoebus" (topic ∷ [])))
        (get device new_world.metadata_scope)
startup_scope_example = startup_scope env device "phoebus" (topic ∷ []) new_world

-- The state record that follows the bypass does not hide it.
startup_bypass_example :
    states env device (get_existing_messages_from_phoebus env "phoebus" (topic ∷ []) new_world)
    ≡ some (record { state = State.bypassed; wake = none })
unfolding run startup_record last_config_record
startup_bypass_example =
    startup_bypass env device "phoebus" (topic ∷ []) new_world topic
      (enabled_key, enabled "false", record { state = State.bypassed; wake = none }) refl refl

abbrev activations : List (String × Request)
activations =
    ("service", World.activate ("M:OUTTMP#Epics" ∷ []) "operator")
    ∷ ("service", World.activate ("M:OUTTMP#Epics" ∷ []) "operator")
    ∷ []

abbrev unbypassed_world : World String
unbypassed_world = record fresh_world {
  alarm_states = (device, record { state = State.unbypassed; wake = none }) ∷ [];
  sent = activations;
}

unbypass : Step env sync bypassed_world unbypassed_world
unfolding run
unbypass = Step.runtime monitor (pos 0) (message "config:/Vacuum/M:OUTTMP" "true") refl

Reach-bypass_example :
    IsIn env sync device State.bypassed unbypassed_world
    ⊎ ((v : World String) × Reach env sync bypassed_world v
        × Reach env sync v unbypassed_world
        × IsIn env sync device State.unbypassed v)
unfolding run
Reach-bypass_example =
    Reach-bypass env sync device (Reach.next Reach.here unbypass)
      (record { state = State.bypassed; wake = none }, refl, refl)

abbrev variables : String → Option String
variables name = if name == "PHOEBUS_TOPICS" then some "Accelerator, Beamline" else some "host"

abbrev config : SynchronizerConfig
config = record {
  controls_host = "host";
  controls_topic = "host";
  grpc_alarms_svc_host = "host";
  phoebus_host = "host";
  phoebus_topics = "Accelerator" ∷ "Beamline" ∷ [];
}

loading_test : create_synchronizer_config variables ≡ ok config
unfolding create_synchronizer_config topic_list run
loading_test = refl
