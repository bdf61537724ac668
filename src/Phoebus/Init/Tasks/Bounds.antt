-- ===== src/Phoebus/Init/Tasks/Bounds.antt =====
-- What the hydration costs.
use alarms_actions_synchroni.Prelude.{
  ℕ, ◌+◌, String, Option, none, some, Result, ok, err, List, [], ◌∷◌, length, refl,
}
use alarms_actions_synchroni.Prelude.Int.{ℤ}
use alarms_actions_synchroni.External.PubSub.{StringMessage}
use alarms_actions_synchroni.Models.Cache.{CachedState}
use alarms_actions_synchroni.Models.Phoebus.{Config}
use alarms_actions_synchroni.Models.Phoebus.Key
use alarms_actions_synchroni.Models.Phoebus.Key.{Key, Operation, KeyParseError}
use alarms_actions_synchroni.World.{Env}
use alarms_actions_synchroni.Tasks.{Task, ◌>>=◌}
use alarms_actions_synchroni.Tasks.Bounds.{Within, Within-mono, Within->>=}
use alarms_actions_synchroni.Phoebus.Init.{or_empty, read_config, extract_severity}
use alarms_actions_synchroni.Phoebus.Init.Tasks.{
  severity_task, hydrate_task, handle_task, parsed_task, keyed_task, hydrate_message_task,
  populate_caches_task, get_existing_messages_task,
}

-- Two accesses for each message of the snapshots.
abbrev pub accesses_for : List StringMessage → ℕ
accesses_for [] = 0
accesses_for (message ∷ messages) = 2 + accesses_for messages

module _ {V D : Type 0} (env : Env V D) where
  abbrev pub hydration_accesses : String → List String → ℕ
  hydration_accesses phoebus_host [] = 0
  hydration_accesses phoebus_host (topic ∷ topics) =
      accesses_for (or_empty (env.snapshot phoebus_host topic))
      + hydration_accesses phoebus_host topics

  abbrev Costs : ℕ → Task V (Unit {0}) → Type 0
  Costs n task = Within (λ u. Unit {0}) n 0 0 task

  Costs-hydrate :
      (topic : String) (key : Key) (r : Result (Config V × CachedState) (Unit {0}))
      → Costs 2 (hydrate_task env topic key r)
  unfolding hydrate_task
  Costs-hydrate topic key (err e) = tt
  Costs-hydrate topic key (ok (config, state)) = (1, refl, (0, refl, tt))

  Costs-severity : (key : Key) (severity : Option String) → Costs 2 (severity_task env key severity)
  unfolding severity_task
  Costs-severity key none = tt
  Costs-severity key (some severity) = (1, refl, tt)

  Costs-handle :
      (now : ℤ) (topic : String) (key : Key) (operation : Operation) (value : String)
      → Costs 2 (handle_task env now topic key operation value)
  unfolding handle_task
  Costs-handle now topic key Operation.config value =
      Costs-hydrate topic key (read_config env now value)
  Costs-handle now topic key Operation.state value = Costs-severity key (extract_severity env value)
  Costs-handle now topic key Operation.command value = tt

  Costs-hydrate_message :
      (now : ℤ) (topic : String) (message : StringMessage)
      → Costs 2 (hydrate_message_task env now topic message)
  unfolding hydrate_message_task
  Costs-hydrate_message now topic message = of_key message.key
    where
      of_parsed :
          (key : Result Key KeyParseError) → Costs 2 (parsed_task env now topic key message.value)
      of_parsed (err e) = unfold parsed_task in tt
      of_parsed (ok key) =
          unfold parsed_task in Costs-handle now topic key key.operation message.value

      of_key : (key : Option String) → Costs 2 (keyed_task env now topic key message.value)
      of_key none = unfold keyed_task in tt
      of_key (some text) = unfold keyed_task in of_parsed (Key.parse text)

  -- One task after another.
  Costs->>= :
      (m n : ℕ) (task rest : Task V (Unit {0}))
      → Costs m task
      → Costs n rest
      → Costs (m + n) (task >>= λ u. rest)
  Costs->>= m n task rest first second =
      Within->>= (λ u. Unit {0}) (λ u. rest) n 0 0 m 0 0 task
        (Within-mono (λ u. Unit {0}) (λ u. Costs n rest) (λ u done. second) m 0 0 task first)

  Costs-populate_caches :
      (messages : List StringMessage) (topic : String)
      → Costs (accesses_for messages) (populate_caches_task env messages topic)
  unfolding populate_caches_task
  Costs-populate_caches [] topic = tt
  Costs-populate_caches (message ∷ messages) topic =
      let now = env.startup_clock topic (length messages) in
      Costs->>= 2 (accesses_for messages) (hydrate_message_task env now topic message)
        (populate_caches_task env messages topic) (Costs-hydrate_message now topic message)
        (Costs-populate_caches messages topic)

  pub Within-get_existing_messages :
      (phoebus_host : String) (topics : List String)
      → Within
          (λ u. Unit {0})
          (hydration_accesses phoebus_host topics)
          0
          0
          (get_existing_messages_task env phoebus_host topics)
  unfolding get_existing_messages_task
  Within-get_existing_messages phoebus_host [] = tt
  Within-get_existing_messages phoebus_host (topic ∷ topics) =
      let messages = or_empty (env.snapshot phoebus_host topic) in
      Costs->>= (accesses_for messages) (hydration_accesses phoebus_host topics)
        (populate_caches_task env messages topic)
        (get_existing_messages_task env phoebus_host topics) (Costs-populate_caches messages topic)
        (Within-get_existing_messages phoebus_host topics)
