-- ===== src/Tasks/Isolated.antt =====
-- A task that has one device for itself: what is recorded of the device is then changed by this
-- task only, and other tasks work on other devices.
pub mod Steps
pub mod Elsewhere
use alarms_actions_synchroni.Prelude.{
  ◌⊎◌, ◌≢◌, inl, inr, List, [], ◌∷◌, ◌++◌, String, Bool, Bool-cases, true, false, Option, none,
  some, ◌≡◌, ◌≢◌, refl, sym, ap, ◌∙◌, inl, inr, ◌==◌, if◌then◌else◌, length, string_eq,
}
use alarms_actions_synchroni.Prelude.HashMap.{HashMap, get, insert, get-insert_self}
use alarms_actions_synchroni.Models.Proto.{State, state_eq}
use alarms_actions_synchroni.Models.Cache.{
  CachedState, record_alarm_state, record_startup_state_evidence, is_some_and,
}
use alarms_actions_synchroni.Models.Metadata.{update_cached_metadata}
use alarms_actions_synchroni.Models.Phoebus.{PvMetadata}
use alarms_actions_synchroni.World.{World, Env}
use alarms_actions_synchroni.Tasks.{
  Task, returned, panicked, read_state, read_scope, write_state, write_evidence, write_scope, send,
  post, ◌>>=◌, step, run_alone,
}
use alarms_actions_synchroni.System.Invariants.{get-insert_other}

-- What the two caches hold of a device.
abbrev pub Entry : Type 0 → Type 0
Entry V = Option CachedState × Option (PvMetadata V)

abbrev pub entry : {V : Type 0} → String → World V → Entry V
entry d w = (get d w.alarm_states, get d w.metadata_scope)

-- The entry after startup evidence.
abbrev pub with_evidence : {V : Type 0} → CachedState → Entry V → Entry V
with_evidence state (o, m) =
    (if is_some_and o (λ existing. existing.state == State.bypassed) then o else some state, m)

-- Each of the devices satisfies `P`.
abbrev pub Each : (String → Type 0) → List String → Type 0
Each P [] = Unit
Each P (device ∷ devices) = P device × Each P devices

module _ (P : String → Type 0) where
  pub Each-left : (xs ys : List String) → Each P (xs ++ ys) → Each P xs
  Each-left [] ys h = tt
  Each-left (x ∷ xs) ys h = (h.0, Each-left xs ys h.1)

  pub Each-right : (xs ys : List String) → Each P (xs ++ ys) → Each P ys
  Each-right [] ys h = h
  Each-right (x ∷ xs) ys h = Each-right xs ys h.1

module _ {V : Type 0} where
  -- Every access is to a device that satisfies `P`, whatever is read and answered.
  abbrev pub Uses : {A : Type 0} → (String → Type 0) → Task V A → Type 0
  Uses P (returned a) = Unit
  Uses P panicked = Unit
  Uses P (read_state e next) = P e × ((o : _) → Uses P (next o))
  Uses P (read_scope e next) = P e × ((m : _) → Uses P (next m))
  Uses P (write_state e state task) = P e × Uses P task
  Uses P (write_evidence e state task) = P e × Uses P task
  Uses P (write_scope e metadata task) = P e × Uses P task
  Uses P (send host request next) = (b : Bool) → Uses P (next b)
  Uses P (post publisher message next) = (b : Bool) → Uses P (next b)

  -- From this entry of the device, and if no other task changes it, the task returns, and then `Q`
  -- holds of what it returns and of the entry, whatever is answered to its requests and postings
  -- and read of other devices.
  abbrev pub Isolated : {A : Type 0} → String → (A → Entry V → Type 0) → Entry V → Task V A → Type 0
  Isolated d Q (o, m) (returned a) = Q a (o, m)
  Isolated d Q (o, m) panicked = ⊥
  Isolated d Q (o, m) (read_state e next) =
      ((e ≡ d) × Isolated d Q (o, m) (next o))
      ⊎ ((d ≢ e) × ((other : Option CachedState) → Isolated d Q (o, m) (next other)))
  Isolated d Q (o, m) (read_scope e next) =
      ((e ≡ d) × Isolated d Q (o, m) (next m))
      ⊎ ((d ≢ e) × ((other : Option (PvMetadata V)) → Isolated d Q (o, m) (next other)))
  Isolated d Q (o, m) (write_state e state task) =
      ((e ≡ d) × Isolated d Q (some state, m) task) ⊎ ((d ≢ e) × Isolated d Q (o, m) task)
  Isolated d Q (o, m) (write_evidence e state task) =
      ((e ≡ d) × Isolated d Q (with_evidence state (o, m)) task)
      ⊎ ((d ≢ e) × Isolated d Q (o, m) task)
  Isolated d Q (o, m) (write_scope e metadata task) =
      ((e ≡ d) × Isolated d Q (o, some metadata) task) ⊎ ((d ≢ e) × Isolated d Q (o, m) task)
  Isolated d Q (o, m) (send host request next) = (b : Bool) → Isolated d Q (o, m) (next b)
  Isolated d Q (o, m) (post publisher message next) = (b : Bool) → Isolated d Q (o, m) (next b)

  -- There is an entry that the task leaves, whatever is answered.
  abbrev pub Settles : {A : Type 0} → String → Entry V → Task V A → Type 0
  Settles d e task = (left : Entry V) × Isolated d (λ a e'. e' ≡ left) (e.0, e.1) task

  module _ {A B : Type 0} (f : A → Task V B) where
    pub Uses->>= :
        (P : String → Type 0) (task : Task V A)
        → Uses P task
        → ((a : A) → Uses P (f a))
        → Uses P (task >>= f)
    unfolding ◌>>=◌
    Uses->>= P (returned a) u h = h a
    Uses->>= P panicked u h = tt
    Uses->>= P (read_state e next) (p, u) h = (p, λ o. Uses->>= P (next o) (u o) h)
    Uses->>= P (read_scope e next) (p, u) h = (p, λ m. Uses->>= P (next m) (u m) h)
    Uses->>= P (write_state e state task) (p, u) h = (p, Uses->>= P task u h)
    Uses->>= P (write_evidence e state task) (p, u) h = (p, Uses->>= P task u h)
    Uses->>= P (write_scope e metadata task) (p, u) h = (p, Uses->>= P task u h)
    Uses->>= P (send host request next) u h = λ b. Uses->>= P (next b) (u b) h
    Uses->>= P (post publisher message next) u h = λ b. Uses->>= P (next b) (u b) h

    pub Isolated->>= :
        (d : String) (Q : B → Entry V → Type 0) (o : Option CachedState) (m : Option (PvMetadata V))
        (task : Task V A)
        → Isolated d (λ a e. Isolated d Q e (f a)) (o, m) task
        → Isolated d Q (o, m) (task >>= f)
    unfolding ◌>>=◌
    Isolated->>= d Q o m (returned a) i = i
    Isolated->>= d Q o m panicked i = i
    Isolated->>= d Q o m (read_state e next) (inl (s, i)) = inl (s, Isolated->>= d Q o m (next o) i)
    Isolated->>= d Q o m (read_state e next) (inr (s, i)) =
        inr (s, λ x. Isolated->>= d Q o m (next x) (i x))
    Isolated->>= d Q o m (read_scope e next) (inl (s, i)) = inl (s, Isolated->>= d Q o m (next m) i)
    Isolated->>= d Q o m (read_scope e next) (inr (s, i)) =
        inr (s, λ x. Isolated->>= d Q o m (next x) (i x))
    Isolated->>= d Q o m (write_state e state task) (inl (s, i)) =
        inl (s, Isolated->>= d Q (some state) m task i)
    Isolated->>= d Q o m (write_state e state task) (inr (s, i)) =
        inr (s, Isolated->>= d Q o m task i)
    Isolated->>= d Q o m (write_evidence e state task) (inl (s, i)) =
        inl (s, Isolated->>= d Q (with_evidence state (o, m)).0 m task i)
    Isolated->>= d Q o m (write_evidence e state task) (inr (s, i)) =
        inr (s, Isolated->>= d Q o m task i)
    Isolated->>= d Q o m (write_scope e metadata task) (inl (s, i)) =
        inl (s, Isolated->>= d Q o (some metadata) task i)
    Isolated->>= d Q o m (write_scope e metadata task) (inr (s, i)) =
        inr (s, Isolated->>= d Q o m task i)
    Isolated->>= d Q o m (send host request next) i = λ b. Isolated->>= d Q o m (next b) (i b)
    Isolated->>= d Q o m (post publisher message next) i = λ b. Isolated->>= d Q o m (next b) (i b)
