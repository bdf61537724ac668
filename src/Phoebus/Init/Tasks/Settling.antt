-- ===== src/Phoebus/Init/Tasks/Settling.antt =====
-- What the startup hydration leaves of a device is settled by what it finds of it.
use alarms_actions_synchroni.Prelude.{
  String, List, [], ◌∷◌, length, Option, none, some, Result, ok, err, refl, sym, inl, inr,
  string_eq,
}
use alarms_actions_synchroni.Prelude.Int.{ℤ}
use alarms_actions_synchroni.External.PubSub.{StringMessage}
use alarms_actions_synchroni.Models.Cache.{CachedState}
use alarms_actions_synchroni.Models.Phoebus.{Config}
use alarms_actions_synchroni.Models.Phoebus.Key
use alarms_actions_synchroni.Models.Phoebus.Key.{Key, Operation, KeyParseError}
use alarms_actions_synchroni.World.{Env}
use alarms_actions_synchroni.Tasks.Isolated.{Entry, Settles, with_evidence}
use alarms_actions_synchroni.Tasks.Isolated.Elsewhere.{Settles->>=}
use alarms_actions_synchroni.Phoebus.Init.{or_empty, read_config, extract_severity, severity_state}
use alarms_actions_synchroni.Phoebus.Init.Tasks.{
  severity_task, hydrate_task, handle_task, parsed_task, keyed_task, hydrate_message_task,
  populate_caches_task, get_existing_messages_task,
}

module _ {V D : Type 0} (env : Env V D) (d : String) where
  Settles-severity :
      (key : Key) (severity : Option String) (e : Entry V)
      → Settles d e (severity_task env key severity)
  unfolding severity_task
  Settles-severity key none e = (e, refl)
  Settles-severity key (some severity) e = elim (string_eq.dec key.device d) [
    | yes same ↦ (
      with_evidence (record { state = severity_state severity; wake = none }) e,
      inl (same, refl),
    )
    | no other ↦ (e, inr (λ same. other (sym same), refl))
  ]

  Settles-hydrate :
      (topic : String) (key : Key) (r : Result (Config V × CachedState) (Unit {0})) (e : Entry V)
      → Settles d e (hydrate_task env topic key r)
  unfolding hydrate_task
  Settles-hydrate topic key (err f) e = (e, refl)
  Settles-hydrate topic key (ok (config, state)) e = elim (string_eq.dec key.device d) [
    | yes same ↦ (_, inl (same, inl (same, refl)))
    | no other ↦ (e, inr (λ same. other (sym same), inr (λ same. other (sym same), refl)))
  ]

  Settles-handle :
      (now : ℤ) (topic : String) (key : Key) (operation : Operation) (value : String) (e : Entry V)
      → Settles d e (handle_task env now topic key operation value)
  unfolding handle_task
  Settles-handle now topic key Operation.config value e =
      Settles-hydrate topic key (read_config env now value) e
  Settles-handle now topic key Operation.state value e =
      Settles-severity key (extract_severity env value) e
  Settles-handle now topic key Operation.command value e = (e, refl)

  Settles-hydrate_message :
      (now : ℤ) (topic : String) (message : StringMessage) (e : Entry V)
      → Settles d e (hydrate_message_task env now topic message)
  unfolding hydrate_message_task
  Settles-hydrate_message now topic message e = of_key message.key
    where
      of_parsed :
          (key : Result Key KeyParseError)
          → Settles d e (parsed_task env now topic key message.value)
      of_parsed (err f) = (e, refl)
      of_parsed (ok key) = Settles-handle now topic key key.operation message.value e

      of_key : (key : Option String) → Settles d e (keyed_task env now topic key message.value)
      of_key none = (e, refl)
      of_key (some text) = of_parsed (Key.parse text)

  Settles-populate_caches :
      (messages : List StringMessage) (topic : String) (e : Entry V)
      → Settles d e (populate_caches_task env messages topic)
  unfolding populate_caches_task
  Settles-populate_caches [] topic e = (e, refl)
  Settles-populate_caches (message ∷ messages) topic e =
      let now = env.startup_clock topic (length messages) in
      Settles->>= d e (hydrate_message_task env now topic message)
        (populate_caches_task env messages topic) (Settles-hydrate_message now topic message e)
        (λ found. Settles-populate_caches messages topic found)

  pub Settles-get_existing_messages :
      (phoebus_host : String) (topics : List String) (e : Entry V)
      → Settles d e (get_existing_messages_task env phoebus_host topics)
  unfolding get_existing_messages_task
  Settles-get_existing_messages phoebus_host [] e = (e, refl)
  Settles-get_existing_messages phoebus_host (topic ∷ topics) e =
      let messages = or_empty (env.snapshot phoebus_host topic) in
      Settles->>= d e (populate_caches_task env messages topic)
        (get_existing_messages_task env phoebus_host topics)
        (Settles-populate_caches messages topic e)
        (λ found. Settles-get_existing_messages phoebus_host topics found)
