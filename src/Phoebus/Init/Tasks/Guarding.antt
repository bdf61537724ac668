-- ===== src/Phoebus/Init/Tasks/Guarding.antt =====
-- The task of the startup hydration writes enablements only, and evidence that goes over no bypass.
use alarms_actions_synchroni.Prelude.{
  String, Option, none, some, Result, ok, err, List, [], ◌∷◌, length, ◌≡◌, refl,
}
use alarms_actions_synchroni.Prelude.Int.{ℤ}
use alarms_actions_synchroni.External.PubSub.{StringMessage}
use alarms_actions_synchroni.Models.Cache.{CachedState}
use alarms_actions_synchroni.Models.Phoebus.{Config}
use alarms_actions_synchroni.Models.Phoebus.Key
use alarms_actions_synchroni.Models.Phoebus.Key.{Key, Operation, KeyParseError}
use alarms_actions_synchroni.World.{Env}
use alarms_actions_synchroni.Tasks.{Task, ◌>>=◌}
use alarms_actions_synchroni.Phoebus.Init.{or_empty, read_config, extract_severity}
use alarms_actions_synchroni.Phoebus.Init.Hydrating.{read_config-IsEnablement}
use alarms_actions_synchroni.Phoebus.Init.Tasks.{
  severity_task, hydrate_task, handle_task, parsed_task, keyed_task, hydrate_message_task,
  populate_caches_task, get_existing_messages_task,
}
use alarms_actions_synchroni.Phoebus.Monitor.Effect.{IsEnablement}
use alarms_actions_synchroni.System.Interleaving.{Seen}
use alarms_actions_synchroni.System.Interleaving.Guards.{Guarded, Guarded->>=, Guarded-mono}

module _ {V D : Type 0} (env : Env V D) where
  -- The guard of a task that has read nothing.
  abbrev Unread : Task V (Unit {0}) → Type 0
  Unread task = Guarded (λ later a. later ≡ none) none task

  Unread-hydrate :
      (topic : String) (key : Key) (r : Result (Config V × CachedState) (Unit {0}))
      → ((config : Config V) (state : CachedState) → r ≡ ok (config, state) → IsEnablement state)
      → Unread (hydrate_task env topic key r)
  unfolding hydrate_task
  Unread-hydrate topic key (err e) h = refl
  Unread-hydrate topic key (ok (config, state)) h = (h config state refl, refl)

  Unread-severity : (key : Key) (severity : Option String) → Unread (severity_task env key severity)
  unfolding severity_task
  Unread-severity key none = refl
  Unread-severity key (some severity) = refl

  Unread-handle :
      (now : ℤ) (topic : String) (key : Key) (operation : Operation) (value : String)
      → Unread (handle_task env now topic key operation value)
  unfolding handle_task
  Unread-handle now topic key Operation.config value =
      Unread-hydrate topic key (read_config env now value)
        (λ config state e. read_config-IsEnablement env now topic value config state e)
  Unread-handle now topic key Operation.state value =
      Unread-severity key (extract_severity env value)
  Unread-handle now topic key Operation.command value = refl

  Unread-hydrate_message :
      (now : ℤ) (topic : String) (message : StringMessage)
      → Unread (hydrate_message_task env now topic message)
  unfolding hydrate_message_task
  Unread-hydrate_message now topic message = of_key message.key
    where
      of_parsed :
          (key : Result Key KeyParseError) → Unread (parsed_task env now topic key message.value)
      of_parsed (err e) = unfold parsed_task in refl
      of_parsed (ok key) =
          unfold parsed_task in Unread-handle now topic key key.operation message.value

      of_key : (key : Option String) → Unread (keyed_task env now topic key message.value)
      of_key none = unfold keyed_task in refl
      of_key (some text) = unfold keyed_task in of_parsed (Key.parse text)

  -- A task after one that reads nothing.
  Unread->>= :
      (Q : Seen → Unit {0} → Type 0) (task rest : Task V (Unit {0}))
      → Unread task
      → Guarded Q none rest
      → Guarded Q none (task >>= λ u. rest)
  Unread->>= Q task rest g h =
      Guarded->>= Q (λ u. rest) none task
        (Guarded-mono (λ later a. later ≡ none) (λ later a. Guarded Q later rest)
          (λ later a unread. rw unread h) none task g)

  Unread-populate_caches :
      (messages : List StringMessage) (topic : String)
      → Unread (populate_caches_task env messages topic)
  unfolding populate_caches_task
  Unread-populate_caches [] topic = refl
  Unread-populate_caches (message ∷ messages) topic =
      let now = env.startup_clock topic (length messages) in
      Unread->>= _ (hydrate_message_task env now topic message)
        (populate_caches_task env messages topic) (Unread-hydrate_message now topic message)
        (Unread-populate_caches messages topic)

  pub Guarded-get_existing_messages :
      (phoebus_host : String) (topics : List String)
      → Guarded (λ later a. Unit {0}) none (get_existing_messages_task env phoebus_host topics)
  unfolding get_existing_messages_task
  Guarded-get_existing_messages phoebus_host [] = tt
  Guarded-get_existing_messages phoebus_host (topic ∷ topics) =
      let messages = or_empty (env.snapshot phoebus_host topic) in
      Unread->>= _ (populate_caches_task env messages topic)
        (get_existing_messages_task env phoebus_host topics) (Unread-populate_caches messages topic)
        (Guarded-get_existing_messages phoebus_host topics)
