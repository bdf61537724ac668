-- ===== src/Phoebus/Init/Tasks/Devices.antt =====
-- The devices that the startup hydration works on are those of the keys of the snapshots.
use alarms_actions_synchroni.Prelude.{
  String, List, [], ◌∷◌, ◌++◌, length, Option, none, some, Result, ok, err,
}
use alarms_actions_synchroni.Prelude.Int.{ℤ}
use alarms_actions_synchroni.External.PubSub.{StringMessage}
use alarms_actions_synchroni.Models.Cache.{CachedState}
use alarms_actions_synchroni.Models.Phoebus.{Config}
use alarms_actions_synchroni.Models.Phoebus.Key
use alarms_actions_synchroni.Models.Phoebus.Key.{Key, Operation, KeyParseError}
use alarms_actions_synchroni.World.{Env}
use alarms_actions_synchroni.Tasks.Isolated.{Uses, Each, Each-left, Each-right, Uses->>=}
use alarms_actions_synchroni.Phoebus.Init.{or_empty, read_config, extract_severity}
use alarms_actions_synchroni.Phoebus.Init.Tasks.{
  severity_task, hydrate_task, handle_task, parsed_task, keyed_task, hydrate_message_task,
  populate_caches_task, get_existing_messages_task,
}
use alarms_actions_synchroni.Phoebus.Monitor.Tasks.Devices.{parsed_devices, key_devices}

abbrev message_devices : List StringMessage → List String
message_devices [] = []
message_devices (message ∷ messages) = key_devices message.key ++ message_devices messages

module _ {V D : Type 0} (env : Env V D) where
  abbrev pub snapshot_devices : String → List String → List String
  snapshot_devices phoebus_host [] = []
  snapshot_devices phoebus_host (topic ∷ topics) =
      message_devices (or_empty (env.snapshot phoebus_host topic))
      ++ snapshot_devices phoebus_host topics

  module _ (P : String → Type 0) where
    Uses-handle :
        (now : ℤ) (topic : String) (key : Key) (operation : Operation) (value : String)
        → P key.device
        → Uses P (handle_task env now topic key operation value)
    unfolding handle_task
    Uses-handle now topic key Operation.config value p = hydrated (read_config env now value)
      where
        hydrated :
            (r : Result (Config V × CachedState) (Unit {0})) → Uses P (hydrate_task env topic key r)
        hydrated (err e) = tt
        hydrated (ok (config, state)) = (p, (p, tt))
    Uses-handle now topic key Operation.state value p = extracted (extract_severity env value)
      where
        extracted : (severity : Option String) → Uses P (severity_task env key severity)
        extracted none = tt
        extracted (some severity) = (p, tt)
    Uses-handle now topic key Operation.command value p = tt

    Uses-hydrate_message :
        (now : ℤ) (topic : String) (message : StringMessage)
        → Each P (key_devices message.key)
        → Uses P (hydrate_message_task env now topic message)
    unfolding hydrate_message_task
    Uses-hydrate_message now topic message = of_key message.key
      where
        of_parsed :
            (key : Result Key KeyParseError)
            → Each P (parsed_devices key)
            → Uses P (parsed_task env now topic key message.value)
        of_parsed (err e) each = tt
        of_parsed (ok key) each = Uses-handle now topic key key.operation message.value each.0

        of_key :
            (key : Option String)
            → Each P (key_devices key)
            → Uses P (keyed_task env now topic key message.value)
        of_key none each = tt
        of_key (some text) each = of_parsed (Key.parse text) each

    Uses-populate_caches :
        (messages : List StringMessage) (topic : String)
        → Each P (message_devices messages)
        → Uses P (populate_caches_task env messages topic)
    unfolding populate_caches_task
    Uses-populate_caches [] topic each = tt
    Uses-populate_caches (message ∷ messages) topic each =
        let now = env.startup_clock topic (length messages) in
        Uses->>= _ P (hydrate_message_task env now topic message)
          (Uses-hydrate_message now topic message
            (Each-left P (key_devices message.key) (message_devices messages) each))
          (λ u.
            Uses-populate_caches messages topic
              (Each-right P (key_devices message.key) (message_devices messages) each))

    pub Uses-get_existing_messages :
        (phoebus_host : String) (topics : List String)
        → Each P (snapshot_devices phoebus_host topics)
        → Uses P (get_existing_messages_task env phoebus_host topics)
    unfolding get_existing_messages_task
    Uses-get_existing_messages phoebus_host [] each = tt
    Uses-get_existing_messages phoebus_host (topic ∷ topics) each =
        let messages = or_empty (env.snapshot phoebus_host topic) in
        Uses->>= _ P (populate_caches_task env messages topic)
          (Uses-populate_caches messages topic
            (Each-left P (message_devices messages) (snapshot_devices phoebus_host topics) each))
          (λ u.
            Uses-get_existing_messages phoebus_host topics
              (Each-right P (message_devices messages) (snapshot_devices phoebus_host topics) each))
