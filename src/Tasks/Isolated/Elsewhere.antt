-- ===== src/Tasks/Isolated/Elsewhere.antt =====
-- A task about other devices, and one task after another.
use alarms_actions_synchroni.Prelude.{ℕ, String, Option, some, ◌≡◌, ◌≢◌, refl, inl, inr, sym, subst}
use alarms_actions_synchroni.Models.Cache.{CachedState}
use alarms_actions_synchroni.Models.Phoebus.{PvMetadata}
use alarms_actions_synchroni.Tasks.{
  Task, returned, panicked, read_state, read_scope, write_state, write_evidence, write_scope, send,
  post, ◌>>=◌,
}
use alarms_actions_synchroni.Tasks.Bounds.{Within}
use alarms_actions_synchroni.Tasks.Isolated.{
  Entry, Uses, Isolated, Settles, Isolated->>=, with_evidence,
}

module _ {V A : Type 0} (d : String) where
  -- A task that ends, and works on other devices, leaves the entry.
  Isolated-elsewhere :
      (P : A → Type 0) (a r p : ℕ) (o : Option CachedState) (m : Option (PvMetadata V))
      (task : Task V A)
      → Within P a r p task
      → Uses (λ e. d ≢ e) task
      → Isolated d (λ x found. found ≡ (o, m)) (o, m) task
  Isolated-elsewhere P a r p o m (returned x) w u = refl
  Isolated-elsewhere P a r p o m panicked w u = w
  Isolated-elsewhere P a r p o m (read_state e next) (a', s, w) (other, u) =
      inr (other, λ x. Isolated-elsewhere P a' r p o m (next x) (w x) (u x))
  Isolated-elsewhere P a r p o m (read_scope e next) (a', s, w) (other, u) =
      inr (other, λ x. Isolated-elsewhere P a' r p o m (next x) (w x) (u x))
  Isolated-elsewhere P a r p o m (write_state e state task) (a', s, w) (other, u) =
      inr (other, Isolated-elsewhere P a' r p o m task w u)
  Isolated-elsewhere P a r p o m (write_evidence e state task) (a', s, w) (other, u) =
      inr (other, Isolated-elsewhere P a' r p o m task w u)
  Isolated-elsewhere P a r p o m (write_scope e metadata task) (a', s, w) (other, u) =
      inr (other, Isolated-elsewhere P a' r p o m task w u)
  Isolated-elsewhere P a r p o m (send host request next) (r', s, w) u =
      λ b. Isolated-elsewhere P a r' p o m (next b) (w b) (u b)
  Isolated-elsewhere P a r p o m (post publisher message next) (p', s, w) u =
      λ b. Isolated-elsewhere P a r p' o m (next b) (w b) (u b)

  pub Settles-elsewhere :
      (P : A → Type 0) (a r p : ℕ) (e : Entry V) (task : Task V A)
      → Within P a r p task
      → Uses (λ f. d ≢ f) task
      → Settles d e task
  Settles-elsewhere P a r p e task w u = (e, Isolated-elsewhere P a r p e.0 e.1 task w u)

-- A weaker conclusion.
module _ {V A : Type 0} (d : String) (P Q : A → Entry V → Type 0)
    (h : (a : A) (e : Entry V) → P a e → Q a e) where
  Isolated-mono :
      (o : Option CachedState) (m : Option (PvMetadata V)) (task : Task V A)
      → Isolated d P (o, m) task
      → Isolated d Q (o, m) task
  Isolated-mono o m (returned x) i = h x (o, m) i
  Isolated-mono o m panicked i = i
  Isolated-mono o m (read_state e next) (inl (s, i)) = inl (s, Isolated-mono o m (next o) i)
  Isolated-mono o m (read_state e next) (inr (s, i)) =
      inr (s, λ x. Isolated-mono o m (next x) (i x))
  Isolated-mono o m (read_scope e next) (inl (s, i)) = inl (s, Isolated-mono o m (next m) i)
  Isolated-mono o m (read_scope e next) (inr (s, i)) =
      inr (s, λ x. Isolated-mono o m (next x) (i x))
  Isolated-mono o m (write_state e state task) (inl (s, i)) =
      inl (s, Isolated-mono (some state) m task i)
  Isolated-mono o m (write_state e state task) (inr (s, i)) = inr (s, Isolated-mono o m task i)
  Isolated-mono o m (write_evidence e state task) (inl (s, i)) =
      inl (s, Isolated-mono (with_evidence state (o, m)).0 m task i)
  Isolated-mono o m (write_evidence e state task) (inr (s, i)) = inr (s, Isolated-mono o m task i)
  Isolated-mono o m (write_scope e metadata task) (inl (s, i)) =
      inl (s, Isolated-mono o (some metadata) task i)
  Isolated-mono o m (write_scope e metadata task) (inr (s, i)) = inr (s, Isolated-mono o m task i)
  Isolated-mono o m (send host request next) i = λ b. Isolated-mono o m (next b) (i b)
  Isolated-mono o m (post publisher message next) i = λ b. Isolated-mono o m (next b) (i b)

-- What the first task leaves is what the second starts from.
pub Settles->>= :
    {V A B : Type 0} (d : String) (e : Entry V) (task : Task V A) (rest : Task V B)
    → Settles d e task
    → ((found : Entry V) → Settles d found rest)
    → Settles d e (task >>= λ a. rest)
Settles->>= d e task rest (left, i) settles =
    let (left', j) = settles left in
    (
      left',
      Isolated->>= (λ a. rest) d (λ b found. found ≡ left') e.0 e.1 task
          (Isolated-mono d (λ a found. found ≡ left)
            (λ a found. Isolated d (λ b f. f ≡ left') found rest)
            (λ a found same.
              subst (λ f. Isolated d (λ b g. g ≡ left') (f.0, f.1) rest) (sym same) j)
            e.0 e.1 task i),
    )
