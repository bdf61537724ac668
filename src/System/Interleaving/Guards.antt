-- ===== src/System/Interleaving/Guards.antt =====
-- A task writes no state that may not follow what it has read.
use alarms_actions_synchroni.Prelude.{String, Bool, Option, none, some, ◌≡◌, length}
use alarms_actions_synchroni.Prelude.HashMap.{get}
use alarms_actions_synchroni.Models.Cache.{CachedState}
use alarms_actions_synchroni.World.{World, Env}
use alarms_actions_synchroni.Tasks.{
  Task, returned, panicked, read_state, read_scope, write_state, write_evidence, write_scope, send,
  post, ◌>>=◌, step,
}
use alarms_actions_synchroni.Tasks.Silent.{IsSilent}
use alarms_actions_synchroni.Phoebus.Monitor.Effect.{IsEnablement}
use alarms_actions_synchroni.System.Touching.{MayFollow}
use alarms_actions_synchroni.System.Interleaving.{Seen, note}

-- The state may be written: it may follow what was read of the same device. A task that has read
-- nothing writes enablements only.
abbrev pub Permits : Seen → String → CachedState → Type 0
Permits none device state = IsEnablement state
Permits (some (d, observed)) device state = (device ≡ d) × MayFollow observed state

-- Every write to come is permitted, and `Q` holds of what the task returns.
abbrev pub Guarded : {V A : Type 0} → (Seen → A → Type 0) → Seen → Task V A → Type 0
Guarded Q seen (returned a) = Q seen a
Guarded Q seen panicked = Unit
Guarded Q seen (read_state device next) =
    (o : Option CachedState) → Guarded Q (some (device, o)) (next o)
Guarded {V} Q seen (read_scope device next) = (m : _) → Guarded Q seen (next m)
Guarded Q seen (write_state device state task) = Permits seen device state × Guarded Q seen task
Guarded Q seen (write_evidence device state task) = Guarded Q seen task
Guarded Q seen (write_scope device metadata task) = Guarded Q seen task
Guarded Q seen (send host request next) = (b : Bool) → Guarded Q seen (next b)
Guarded Q seen (post publisher message next) = (b : Bool) → Guarded Q seen (next b)

module _ {V A B : Type 0} (Q : Seen → B → Type 0) (f : A → Task V B) where
  pub Guarded->>= :
      (seen : Seen) (task : Task V A)
      → Guarded (λ later a. Guarded Q later (f a)) seen task
      → Guarded Q seen (task >>= f)
  unfolding ◌>>=◌
  Guarded->>= seen (returned a) g = g
  Guarded->>= seen panicked g = tt
  Guarded->>= seen (read_state device next) g = λ o. Guarded->>= (some (device, o)) (next o) (g o)
  Guarded->>= seen (read_scope device next) g = λ m. Guarded->>= seen (next m) (g m)
  Guarded->>= seen (write_state device state task) g = (g.0, Guarded->>= seen task g.1)
  Guarded->>= seen (write_evidence device state task) g = Guarded->>= seen task g
  Guarded->>= seen (write_scope device metadata task) g = Guarded->>= seen task g
  Guarded->>= seen (send host request next) g = λ b. Guarded->>= seen (next b) (g b)
  Guarded->>= seen (post publisher message next) g = λ b. Guarded->>= seen (next b) (g b)

pub Guarded-silent :
    {V A : Type 0} (Q : Seen → A → Type 0) (seen : Seen) (task : Task V A)
    → IsSilent task
    → ((a : A) → Q seen a)
    → Guarded Q seen task
Guarded-silent Q seen (returned a) s q = q a
Guarded-silent Q seen panicked s q = tt
Guarded-silent Q seen (read_state device next) s q = absurd s
Guarded-silent Q seen (read_scope device next) s q = absurd s
Guarded-silent Q seen (write_state device state task) s q = absurd s
Guarded-silent Q seen (write_evidence device state task) s q = absurd s
Guarded-silent Q seen (write_scope device metadata task) s q = absurd s
Guarded-silent Q seen (send host request next) s q = λ b. Guarded-silent Q seen (next b) (s b) q
Guarded-silent Q seen (post publisher message next) s q =
    λ b. Guarded-silent Q seen (next b) (s b) q

module _ {V A : Type 0} (P Q : Seen → A → Type 0)
    (h : (seen : Seen) (a : A) → P seen a → Q seen a) where
  pub Guarded-mono : (seen : Seen) (task : Task V A) → Guarded P seen task → Guarded Q seen task
  Guarded-mono seen (returned a) g = h seen a g
  Guarded-mono seen panicked g = tt
  Guarded-mono seen (read_state device next) g = λ o. Guarded-mono (some (device, o)) (next o) (g o)
  Guarded-mono seen (read_scope device next) g = λ m. Guarded-mono seen (next m) (g m)
  Guarded-mono seen (write_state device state task) g = (g.0, Guarded-mono seen task g.1)
  Guarded-mono seen (write_evidence device state task) g = Guarded-mono seen task g
  Guarded-mono seen (write_scope device metadata task) g = Guarded-mono seen task g
  Guarded-mono seen (send host request next) g = λ b. Guarded-mono seen (next b) (g b)
  Guarded-mono seen (post publisher message next) g = λ b. Guarded-mono seen (next b) (g b)

-- The next access keeps the guard, now over what it has read.
pub Guarded-step :
    {V D : Type 0} (env : Env V D) {A : Type 0} (Q : Seen → A → Type 0) (seen : Seen)
    (task : Task V A) (w : World V)
    → Guarded Q seen task
    → Guarded Q (note task w seen) (step env task w).0
unfolding step
Guarded-step env Q seen (returned a) w g = g
Guarded-step env Q seen panicked w g = tt
Guarded-step env Q seen (read_state device next) w g = g (get device w.alarm_states)
Guarded-step env Q seen (read_scope device next) w g = g (get device w.metadata_scope)
Guarded-step env Q seen (write_state device state task) w g = g.1
Guarded-step env Q seen (write_evidence device state task) w g = g
Guarded-step env Q seen (write_scope device metadata task) w g = g
Guarded-step env Q seen (send host request next) w g = g (env.accepts (length w.sent))
Guarded-step env Q seen (post publisher message next) w g = g (env.delivers (length w.published))
