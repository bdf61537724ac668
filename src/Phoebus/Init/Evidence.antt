-- ===== src/Phoebus/Init/Evidence.antt =====
-- What `populate_caches` of phoebus/init/mod.rs makes of the messages about one device.
use alarms_actions_synchroni.Prelude.{
  String, ◌≡◌, refl, none, some, ok, err, arith, Option-cases, Result-cases, inl, inr, Option,
  Result, List, [], ◌∷◌, length, ◌==◌, string_eq, if◌then◌else◌,
}
use mathlib.Core.Option
use alarms_actions_synchroni.Prelude.Int.{ℤ}
use alarms_actions_synchroni.Prelude.HashMap.{get, get-insert}
use alarms_actions_synchroni.External.PubSub.{StringMessage}
use alarms_actions_synchroni.Models.Cache.{CachedState}
use alarms_actions_synchroni.Models.Phoebus.{Config, PvMetadata}
use alarms_actions_synchroni.Models.Phoebus.Key.{Key, Operation, KeyParseError, parse}
use alarms_actions_synchroni.Models.Metadata.{update_cached_metadata}
use alarms_actions_synchroni.World.{World, Env}
use alarms_actions_synchroni.Phoebus.Init.{
  read_config, hydrate_message, handle_parsed, handle_config, handle, hydrate, handle_severity,
  handle_state, extract_severity, populate_caches,
}

-- A config record: its key, its content and the state that it stands for.
abbrev pub ConfigRecord : Type 0 → Type 0
ConfigRecord V = Key × Config V × CachedState

-- The metadata that a config record stands for.
abbrev pub metadata_of : {V : Type 0} → String → ConfigRecord V → PvMetadata V
metadata_of topic (key, config, s) = record {
  phoebus_config_metadata = config.phoebus_specific;
  display_path = key.display_path;
  phoebus_topic = topic;
}

abbrev pub later {ℓ} : {A : Type ℓ} → Option A → Option A → Option A
later none earlier = earlier
later (some a) earlier = some a

module _ {V D : Type 0} (env : Env V D) (device : String) where
  abbrev pub readable : Key → Result (Config V × CachedState) (Unit {0}) → Option (ConfigRecord V)
  readable key (err e) = none
  readable key (ok (config, s)) = some (key, config, s)

  abbrev pub record_of_operation : ℤ → Key → Operation → String → Option (ConfigRecord V)
  record_of_operation now key Operation.config value = readable key (read_config env now value)
  record_of_operation now key _ value = none

  abbrev pub record_of_key : ℤ → Result Key KeyParseError → String → Option (ConfigRecord V)
  record_of_key now (err e) value = none
  record_of_key now (ok key) value =
      if device == key.device then record_of_operation now key key.operation value else none

  abbrev pub record_of_text : ℤ → Option String → String → Option (ConfigRecord V)
  record_of_text now none value = none
  record_of_text now (some text) value = record_of_key now (parse text) value

  -- The config record of the device that a message holds, if it holds one.
  abbrev pub config_record : ℤ → StringMessage → Option (ConfigRecord V)
  config_record now msg = record_of_text now msg.key msg.value

  -- The last config record of the device in a topic.
  unfoldable pub last_config_record : List StringMessage → String → Option (ConfigRecord V)
  last_config_record [] topic = none
  last_config_record (msg ∷ messages) topic =
      later (last_config_record messages topic)
        (config_record (env.startup_clock topic (length messages)) msg)

  -- What a message says of the device, once its key is known.
  metadata-hydrate :
      (topic : String) (key : Key) (r : Result (Config V × CachedState) (Unit {0})) (w : World V)
      → get device (hydrate env topic key r w).1.metadata_scope
        ≡ later
            (Option.map (metadata_of topic) (if device == key.device then readable key r else none))
            (get device w.metadata_scope)
  unfolding hydrate update_cached_metadata
  metadata-hydrate topic key (err e) w = ground arith
  metadata-hydrate topic key (ok (config, s)) w =
      ground
        (arith, get-insert key.device device (metadata_of topic (key, config, s)) w.metadata_scope)

  metadata-severity :
      (key : Key) (r : Option String) (w : World V)
      → (handle_severity env key r w).1.metadata_scope ≡ w.metadata_scope
  unfolding handle_severity
  metadata-severity key none w = refl
  metadata-severity key (some severity) w = refl

  metadata-handle :
      (now : ℤ) (topic : String) (key : Key) (operation : Operation) (value : String) (w : World V)
      → get device (handle env now topic key operation value w).1.metadata_scope
        ≡ later
            (Option.map
              (metadata_of topic)
              (if device == key.device then record_of_operation now key operation value else none))
            (get device w.metadata_scope)
  unfolding handle handle_config handle_state
  metadata-handle now topic key Operation.config value w =
      metadata-hydrate topic key (read_config env now value) w
  metadata-handle now topic key Operation.state value w =
      ground (arith, metadata-severity key (extract_severity env value) w)
  metadata-handle now topic key Operation.command value w = ground arith

  metadata-hydrate_message :
      (now : ℤ) (topic : String) (msg : StringMessage) (w : World V)
      → get device (hydrate_message env now topic msg w).metadata_scope
        ≡ later
            (Option.map (metadata_of topic) (config_record now msg))
            (get device w.metadata_scope)
  unfolding hydrate_message
  metadata-hydrate_message now topic msg w = elim (Option-cases msg.key) [
    | inl missing ↦ ground arith
    | inr (text, present) ↦ elim (Result-cases (parse text)) [
      | inr (e, bad) ↦ ground arith
      | inl (key, good) ↦
          rw (present, hydrate_message, good, handle_parsed)
            (metadata-handle now topic key key.operation msg.value w)
    ]
  ]

  -- After the messages of a topic the metadata of the device are those of its last config record.
  pub metadata-populate_caches :
      (messages : List StringMessage) (topic : String) (w : World V)
      → get device (populate_caches env messages topic w).metadata_scope
        ≡ later
            (Option.map (metadata_of topic) (last_config_record messages topic))
            (get device w.metadata_scope)
  unfolding populate_caches last_config_record
  metadata-populate_caches [] topic w = refl
  metadata-populate_caches (msg ∷ messages) topic w =
      let now = env.startup_clock topic (length messages) in
      ground (
        arith,
        metadata-populate_caches messages topic (hydrate_message env now topic msg w),
        metadata-hydrate_message now topic msg w,
      )
