-- ===== src/Phoebus/Init/Tasks.antt =====
-- The startup hydration of phoebus/init/mod.rs as a task, and that it does, run alone, what the
-- functions of the parent module do.
pub mod Guarding
pub mod Bounds
pub mod Devices
pub mod Settling
use alarms_actions_synchroni.Prelude.{
  String, Option, none, some, Result, ok, err, List, [], ◌∷◌, length, ◌≡◌, refl, ◌∙◌, ap,
}
use alarms_actions_synchroni.Prelude.Int.{ℤ}
use alarms_actions_synchroni.External.PubSub.{StringMessage}
use alarms_actions_synchroni.Models.Cache.{CachedState}
use alarms_actions_synchroni.Models.Phoebus.{Config}
use alarms_actions_synchroni.Models.Phoebus.Key
use alarms_actions_synchroni.Models.Phoebus.Key.{Key, Operation, KeyParseError}
use alarms_actions_synchroni.Models.Proto.{State}
use alarms_actions_synchroni.World.{World, Env}
use alarms_actions_synchroni.Tasks.{
  Task, returned, write_state, write_evidence, write_scope, ◌>>=◌, run_alone,
}
use alarms_actions_synchroni.Tasks.Binding.{run_alone->>=}
use alarms_actions_synchroni.Phoebus.Init.{
  severity_state, or_empty, extract_severity, handle_severity, handle_state, read_config, hydrate,
  handle_config, handle, handle_parsed, handle_keyed, hydrate_message, populate_caches,
  get_existing_messages_from_phoebus,
}

module _ {V D : Type 0} (env : Env V D) where
  severity_task : Key → Option String → Task V (Unit {0})
  severity_task key none = returned tt
  severity_task key (some severity) =
      write_evidence key.device (record { state = severity_state severity; wake = none })
        (returned tt)

  hydrate_task : String → Key → Result (Config V × CachedState) (Unit {0}) → Task V (Unit {0})
  hydrate_task topic key (err e) = returned tt
  hydrate_task topic key (ok (config, alarm_state)) = write_state key.device alarm_state (
      write_scope key.device
        (record {
          phoebus_config_metadata = config.phoebus_specific;
          display_path = key.display_path;
          phoebus_topic = topic;
        })
        (returned tt))

  handle_task : ℤ → String → Key → Operation → String → Task V (Unit {0})
  unfolding severity_task hydrate_task
  handle_task now topic key Operation.config value =
      hydrate_task topic key (read_config env now value)
  handle_task now topic key Operation.state value = severity_task key (extract_severity env value)
  handle_task now topic key Operation.command value = returned tt

  parsed_task : ℤ → String → Result Key KeyParseError → String → Task V (Unit {0})
  unfolding handle_task
  parsed_task now topic (err e) value = returned tt
  parsed_task now topic (ok key) value = handle_task now topic key key.operation value

  keyed_task : ℤ → String → Option String → String → Task V (Unit {0})
  unfolding parsed_task
  keyed_task now topic none value = returned tt
  keyed_task now topic (some msg_key) value = parsed_task now topic (Key.parse msg_key) value

  unfoldable pub hydrate_message_task : ℤ → String → StringMessage → Task V (Unit {0})
  unfolding keyed_task
  hydrate_message_task now topic message = keyed_task now topic message.key message.value

  unfoldable pub populate_caches_task : List StringMessage → String → Task V (Unit {0})
  populate_caches_task [] topic = returned tt
  populate_caches_task (message ∷ messages) topic = do
    u ← hydrate_message_task (env.startup_clock topic (length messages)) topic message
    populate_caches_task messages topic

  unfoldable pub get_existing_messages_task : String → List String → Task V (Unit {0})
  get_existing_messages_task phoebus_host [] = returned tt
  get_existing_messages_task phoebus_host (topic ∷ topics) = do
    u ← populate_caches_task (or_empty (env.snapshot phoebus_host topic)) topic
    get_existing_messages_task phoebus_host topics

  alone-severity :
      (key : Key) (severity : Option String) (w : World V)
      → run_alone env (severity_task key severity) w
        ≡ some (tt, (handle_severity env key severity w).1)
  unfolding severity_task handle_severity run_alone
  alone-severity key none w = refl
  alone-severity key (some severity) w = refl

  alone-hydrate :
      (topic : String) (key : Key) (r : Result (Config V × CachedState) (Unit {0})) (w : World V)
      → run_alone env (hydrate_task topic key r) w ≡ some (tt, (hydrate env topic key r w).1)
  unfolding hydrate_task hydrate run_alone
  alone-hydrate topic key (err e) w = refl
  alone-hydrate topic key (ok (config, s)) w = refl

  alone-handle :
      (now : ℤ) (topic : String) (key : Key) (operation : Operation) (value : String) (w : World V)
      → run_alone env (handle_task now topic key operation value) w
        ≡ some (tt, (handle env now topic key operation value w).1)
  unfolding handle_task handle handle_config handle_state
  alone-handle now topic key Operation.config value w =
      alone-hydrate topic key (read_config env now value) w
  alone-handle now topic key Operation.state value w =
      alone-severity key (extract_severity env value) w
  alone-handle now topic key Operation.command value w = unfold run_alone in refl

  alone-parsed :
      (now : ℤ) (topic : String) (key : Result Key KeyParseError) (value : String) (w : World V)
      → run_alone env (parsed_task now topic key value) w
        ≡ some (tt, handle_parsed env now topic key value w)
  unfolding parsed_task handle_parsed
  alone-parsed now topic (err e) value w = unfold run_alone in refl
  alone-parsed now topic (ok key) value w = alone-handle now topic key key.operation value w

  alone-keyed :
      (now : ℤ) (topic : String) (key : Option String) (value : String) (w : World V)
      → run_alone env (keyed_task now topic key value) w
        ≡ some (tt, handle_keyed env now topic key value w)
  unfolding keyed_task handle_keyed
  alone-keyed now topic none value w = unfold run_alone in refl
  alone-keyed now topic (some text) value w = alone-parsed now topic (Key.parse text) value w

  alone-hydrate_message :
      (now : ℤ) (topic : String) (msg : StringMessage) (w : World V)
      → run_alone env (hydrate_message_task now topic msg) w
        ≡ some (tt, hydrate_message env now topic msg w)
  unfolding hydrate_message hydrate_message_task
  alone-hydrate_message now topic msg w = alone-keyed now topic msg.key msg.value w

  alone-populate_caches :
      (messages : List StringMessage) (topic : String) (w : World V)
      → run_alone env (populate_caches_task messages topic) w
        ≡ some (tt, populate_caches env messages topic w)
  unfolding populate_caches populate_caches_task
  alone-populate_caches [] topic w = unfold run_alone in refl
  alone-populate_caches (message ∷ messages) topic w =
      let now = env.startup_clock topic (length messages) in
      run_alone->>= env _ (hydrate_message_task now topic message) w
      ∙ rw (alone-hydrate_message now topic message w) (alone-populate_caches messages topic _)

  pub alone-get_existing_messages :
      (phoebus_host : String) (topics : List String) (w : World V)
      → run_alone env (get_existing_messages_task phoebus_host topics) w
        ≡ some (tt, get_existing_messages_from_phoebus env phoebus_host topics w)
  unfolding get_existing_messages_from_phoebus get_existing_messages_task
  alone-get_existing_messages phoebus_host [] w = unfold run_alone in refl
  alone-get_existing_messages phoebus_host (topic ∷ topics) w =
      let messages = or_empty (env.snapshot phoebus_host topic) in
      run_alone->>= env _ (populate_caches_task messages topic) w
      ∙ rw (alone-populate_caches messages topic w)
          (alone-get_existing_messages phoebus_host topics _)
