-- ===== src/Phoebus/Init.antt =====
-- phoebus/init/mod.rs: the hydration of the two caches from the messages that Phoebus holds.
pub mod Evidence
pub mod Bypass
pub mod Startup
pub mod Hydrating
pub mod Tasks
use alarms_actions_synchroni.Prelude.{
  ℕ, String, Bool, true, false, Option, none, some, Result, ok, err, ok_or, ◌==◌, string_eq, length,
  List, [], ◌∷◌, if◌then◌else◌, ◌>>=◌, ◌||◌,
}
use alarms_actions_synchroni.Prelude.Int.{ℤ}
use alarms_actions_synchroni.Prelude.Text.{ends_with, to_ascii_uppercase}
use alarms_actions_synchroni.External.PubSub.{StringMessage}
use alarms_actions_synchroni.Models.Proto.{State}
use alarms_actions_synchroni.Models.Cache.{
  CachedState, record_alarm_state, record_startup_state_evidence,
}
use alarms_actions_synchroni.Models.Outcomes.{SyncOutcome, ignored, IgnoreReason, SkipReason}
use alarms_actions_synchroni.Models.Phoebus.{Config, PvMetadata, PhoebusParseError, as_cached_state}
use alarms_actions_synchroni.Models.Phoebus.Key
use alarms_actions_synchroni.Models.Phoebus.Key.{Key, Operation, KeyParseError}
use alarms_actions_synchroni.Models.Phoebus.Wire.{bool_or_string}
use alarms_actions_synchroni.Models.Metadata.{update_cached_metadata}
use alarms_actions_synchroni.World.{World, Env}

-- The `match` on a severity in upper case.
unfoldable pub severity_state : String → State
severity_state severity =
    if ends_with severity "_ACK"
    then State.acknowledged
    else if severity == "MINOR" || severity == "MAJOR"
    then State.alarmed
    else if severity == "OK"
    then State.unbypassed
    else State.unknown

-- The messages of a snapshot, and none if it failed.
abbrev pub or_empty : Option (List StringMessage) → List StringMessage
or_empty none = []
or_empty (some messages) = messages

module _ {V D : Type 0} (env : Env V D) where
  -- The `and_then` and `map` after `json.get("severity")`.
  severity_text : Option V → Option String
  severity_text none = none
  severity_text (some v) = elim (env.json.as_str v) [
    | none ↦ none
    | some borrowed ↦ some (to_ascii_uppercase borrowed)
  ]

  severity_of : Option V → Option String
  unfolding severity_text
  severity_of none = none
  severity_of (some json) = severity_text (env.json.field json "severity")

  unfoldable pub extract_severity : String → Option String
  unfolding severity_of
  extract_severity value = severity_of (env.json.value_from_str value)

  handle_severity : Key → Option String → World V → SyncOutcome × World V
  handle_severity key none w = (ignored IgnoreReason.state_noise, w)
  handle_severity key (some severity) w = (
    SyncOutcome.hydrated,
    record w {
      alarm_states =
          record_startup_state_evidence w.alarm_states key.device
            (record { state = severity_state severity; wake = none });
    },
  )

  unfoldable pub handle_state : Key → String → World V → SyncOutcome × World V
  unfolding handle_severity
  handle_state key value w = handle_severity key (extract_severity value) w

  with_state :
      Config V → Result CachedState PhoebusParseError → Result (Config V × CachedState) (Unit {0})
  with_state config (err e) = err tt
  with_state config (ok alarm_state) = ok (config, alarm_state)

  read_decoded : ℤ → Option (Config V) → Result (Config V × CachedState) (Unit {0})
  unfolding with_state
  read_decoded now none = err tt
  read_decoded now (some config) = with_state config (as_cached_state env.chrono now config)

  -- A config and the state that it stands for, or an error if either cannot be read.
  unfoldable pub read_config : ℤ → String → Result (Config V × CachedState) (Unit {0})
  unfolding read_decoded
  read_config now value =
      read_decoded now (env.json.config_from_str (bool_or_string env.json) value)

  hydrate :
      String → Key → Result (Config V × CachedState) (Unit {0}) → World V → SyncOutcome × World V
  hydrate topic key (err e) w = (SyncOutcome.skipped SkipReason.malformed_message, w)
  hydrate topic key (ok (config, alarm_state)) w = (
    SyncOutcome.hydrated,
    record w {
      alarm_states = record_alarm_state w.alarm_states key.device alarm_state;
      metadata_scope = update_cached_metadata w.metadata_scope key.device (record {
        phoebus_config_metadata = config.phoebus_specific;
        display_path = key.display_path;
        phoebus_topic = topic;
      });
    },
  )

  unfoldable pub handle_config : ℤ → String → Key → String → World V → SyncOutcome × World V
  unfolding hydrate
  handle_config now topic key value w = hydrate topic key (read_config now value) w

  handle : ℤ → String → Key → Operation → String → World V → SyncOutcome × World V
  handle now topic key Operation.config value w = handle_config now topic key value w
  handle now topic key Operation.state value w = handle_state key value w
  handle now topic key Operation.command value w = (ignored IgnoreReason.state_noise, w)

  handle_parsed : ℤ → String → Result Key KeyParseError → String → World V → World V
  unfolding handle
  handle_parsed now topic (err e) value w = w
  handle_parsed now topic (ok key) value w = (handle now topic key key.operation value w).1

  handle_keyed : ℤ → String → Option String → String → World V → World V
  unfolding handle_parsed
  handle_keyed now topic none value w = w
  handle_keyed now topic (some msg_key) value w =
      handle_parsed now topic (Key.parse msg_key) value w

  -- One round of the loop of `populate_caches`.
  unfoldable pub hydrate_message : ℤ → String → StringMessage → World V → World V
  unfolding handle_keyed
  hydrate_message now topic message w = handle_keyed now topic message.key message.value w

  unfoldable pub populate_caches : List StringMessage → String → World V → World V
  unfolding hydrate_message
  populate_caches [] topic w = w
  populate_caches (message ∷ messages) topic w =
      populate_caches messages topic
        (hydrate_message (env.startup_clock topic (length messages)) topic message w)

  unfoldable pub get_existing_messages_from_phoebus : String → List String → World V → World V
  unfolding populate_caches
  get_existing_messages_from_phoebus phoebus_host [] w = w
  get_existing_messages_from_phoebus phoebus_host (topic ∷ topics) w =
      get_existing_messages_from_phoebus phoebus_host topics
        (populate_caches (or_empty (env.snapshot phoebus_host topic)) topic w)
