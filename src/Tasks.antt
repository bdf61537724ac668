-- ===== src/Tasks.antt =====
-- The handlers as the async tasks that they are: a task makes one access to a cache, or one call of
-- a service, at a time, and other tasks can run between two accesses. An access of a cache holds
-- its lock for just that access.
pub mod Binding
pub mod Bounds
pub mod Interference
pub mod Isolated
pub mod Silent
use alarms_actions_synchroni.Prelude.{
  String, Bool, Option, none, some, List, [], ◌∷◌, ◌++◌, length, ℕ,
}
use alarms_actions_synchroni.Prelude.HashMap.{get}
use alarms_actions_synchroni.External.PubSub.{StringMessage, Publisher}
use alarms_actions_synchroni.Models.Cache.{
  CachedState, ObservedStatePolicy, record_alarm_state, record_startup_state_evidence,
}
use alarms_actions_synchroni.Models.Metadata.{update_cached_metadata}
use alarms_actions_synchroni.Models.Phoebus.{PvMetadata}
use alarms_actions_synchroni.World.{World, Request, Env}

-- What is left of a task, by its next access.
pub data Task (V A : Type 0) : Type 0 where
  returned : A → Task V A
  panicked : Task V A
  read_state : String → (Option CachedState → Task V A) → Task V A
  read_scope : String → (Option (PvMetadata V) → Task V A) → Task V A
  write_state : String → CachedState → Task V A → Task V A
  write_evidence : String → CachedState → Task V A → Task V A
  write_scope : String → PvMetadata V → Task V A → Task V A
  -- A request to the service at a host, and whether it is accepted.
  send : String → Request → (Bool → Task V A) → Task V A
  -- A message for a publisher, and whether it is delivered.
  post : Publisher → StringMessage → (Bool → Task V A) → Task V A

-- The bind of a `do` block: `await`, and then the rest.
infixl 5 ◌>>=◌
unfoldable pub ◌>>=◌ : {V A B : Type 0} → Task V A → (A → Task V B) → Task V B
returned a >>= f = f a
panicked >>= f = panicked
read_state device next >>= f = read_state device (λ o. next o >>= f)
read_scope device next >>= f = read_scope device (λ o. next o >>= f)
write_state device state task >>= f = write_state device state (task >>= f)
write_evidence device state task >>= f = write_evidence device state (task >>= f)
write_scope device metadata task >>= f = write_scope device metadata (task >>= f)
send host request next >>= f = send host request (λ b. next b >>= f)
post publisher message next >>= f = post publisher message (λ b. next b >>= f)

module _ {V D : Type 0} (env : Env V D) where
  -- The world after a request, and after a posting.
  abbrev pub with_request : String → Request → World V → World V
  with_request host request w = record w { sent = w.sent ++ (host, request) ∷ [] }

  abbrev pub with_posting : Publisher → StringMessage → World V → World V
  with_posting publisher message w = record w {
    published = w.published ++ (publisher, message) ∷ [];
  }

  module _ {A : Type 0} where
    -- The next access.
    unfoldable pub step : Task V A → World V → Task V A × World V
    step (returned a) w = (returned a, w)
    step panicked w = (panicked, w)
    step (read_state device next) w = (next (get device w.alarm_states), w)
    step (read_scope device next) w = (next (get device w.metadata_scope), w)
    step (write_state device state task) w =
        (task, record w { alarm_states = record_alarm_state w.alarm_states device state })
    step (write_evidence device state task) w = (
      task,
      record w { alarm_states = record_startup_state_evidence w.alarm_states device state },
    )
    step (write_scope device metadata task) w = (
      task,
      record w { metadata_scope = update_cached_metadata w.metadata_scope device metadata },
    )
    step (send host request next) w =
        (next (env.accepts (length w.sent)), with_request host request w)
    step (post publisher message next) w =
        (next (env.delivers (length w.published)), with_posting publisher message w)

    -- The task with no other between its accesses; `none` is a panic.
    unfoldable pub run_alone : Task V A → World V → Option (A × World V)
    run_alone (returned a) w = some (a, w)
    run_alone panicked w = none
    run_alone (read_state device next) w = run_alone (next (get device w.alarm_states)) w
    run_alone (read_scope device next) w = run_alone (next (get device w.metadata_scope)) w
    run_alone (write_state device state task) w =
        run_alone task (record w { alarm_states = record_alarm_state w.alarm_states device state })
    run_alone (write_evidence device state task) w =
        run_alone task
          (record w { alarm_states = record_startup_state_evidence w.alarm_states device state })
    run_alone (write_scope device metadata task) w =
        run_alone task
          (record w { metadata_scope = update_cached_metadata w.metadata_scope device metadata })
    run_alone (send host request next) w =
        run_alone (next (env.accepts (length w.sent))) (with_request host request w)
    run_alone (post publisher message next) w =
        run_alone (next (env.delivers (length w.published))) (with_posting publisher message w)
