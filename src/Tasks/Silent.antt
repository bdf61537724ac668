-- ===== src/Tasks/Silent.antt =====
-- A task that only sends and posts: it makes no access of the caches.
use alarms_actions_synchroni.Prelude.{String, Bool, Option}
use alarms_actions_synchroni.Models.Cache.{CachedState}
use alarms_actions_synchroni.Models.Phoebus.{PvMetadata}
use alarms_actions_synchroni.Tasks.{
  Task, returned, panicked, read_state, read_scope, write_state, write_evidence, write_scope, send,
  post,
}
use alarms_actions_synchroni.Tasks.Isolated.{Entry, Uses, Isolated}

module _ {V A : Type 0} where
  abbrev pub IsSilent : Task V A → Type 0
  IsSilent (returned a) = Unit
  IsSilent (send host request next) = (b : Bool) → IsSilent (next b)
  IsSilent (post publisher message next) = (b : Bool) → IsSilent (next b)
  IsSilent _ = ⊥

  pub Uses-silent : (P : String → Type 0) (task : Task V A) → IsSilent task → Uses P task
  Uses-silent P (returned a) s = tt
  Uses-silent P panicked s = tt
  Uses-silent P (read_state e next) s = absurd s
  Uses-silent P (read_scope e next) s = absurd s
  Uses-silent P (write_state e state task) s = absurd s
  Uses-silent P (write_evidence e state task) s = absurd s
  Uses-silent P (write_scope e metadata task) s = absurd s
  Uses-silent P (send host request next) s = λ b. Uses-silent P (next b) (s b)
  Uses-silent P (post publisher message next) s = λ b. Uses-silent P (next b) (s b)

  pub Isolated-silent :
      (d : String) (Q : A → Entry V → Type 0) (o : Option CachedState) (m : Option (PvMetadata V))
      (task : Task V A)
      → IsSilent task
      → ((a : A) → Q a (o, m))
      → Isolated d Q (o, m) task
  Isolated-silent d Q o m (returned a) s q = q a
  Isolated-silent d Q o m panicked s q = s
  Isolated-silent d Q o m (read_state e next) s q = absurd s
  Isolated-silent d Q o m (read_scope e next) s q = absurd s
  Isolated-silent d Q o m (write_state e state task) s q = absurd s
  Isolated-silent d Q o m (write_evidence e state task) s q = absurd s
  Isolated-silent d Q o m (write_scope e metadata task) s q = absurd s
  Isolated-silent d Q o m (send host request next) s q =
      λ b. Isolated-silent d Q o m (next b) (s b) q
  Isolated-silent d Q o m (post publisher message next) s q =
      λ b. Isolated-silent d Q o m (next b) (s b) q
