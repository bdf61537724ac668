-- ===== src/Tasks/Bounds.antt =====
-- How many accesses, requests and postings a task makes, whatever the other tasks do between its
-- accesses.
use alarms_actions_synchroni.Prelude.{ℕ, suc, ◌+◌, Bool, ◌≡◌, arith}
use alarms_actions_synchroni.Tasks.{
  Task, returned, panicked, read_state, read_scope, write_state, write_evidence, write_scope, send,
  post, ◌>>=◌,
}

after : (k n n' : ℕ) → n ≡ suc n' → k + n ≡ suc (k + n')
after k n n' e = omega (arith, e)

before : (n n' k : ℕ) → n ≡ suc n' → n + k ≡ suc (n' + k)
before n n' k e = omega (arith, e)

module _ {V : Type 0} where
  -- Whatever its accesses return, the task does not panic, makes at most `a` accesses of the caches,
  -- `r` requests and `p` postings, and returns something of which `Q` holds.
  abbrev pub Within : {A : Type 0} → (A → Type 0) → ℕ → ℕ → ℕ → Task V A → Type 0
  Within Q a r p (returned x) = Q x
  Within Q a r p panicked = ⊥
  Within Q a r p (read_state device next) =
      (a' : ℕ) × (a ≡ suc a') × ((o : _) → Within Q a' r p (next o))
  Within Q a r p (read_scope device next) =
      (a' : ℕ) × (a ≡ suc a') × ((m : _) → Within Q a' r p (next m))
  Within Q a r p (write_state device state task) = (a' : ℕ) × (a ≡ suc a') × Within Q a' r p task
  Within Q a r p (write_evidence device state task) = (a' : ℕ) × (a ≡ suc a') × Within Q a' r p task
  Within Q a r p (write_scope device metadata task) = (a' : ℕ) × (a ≡ suc a') × Within Q a' r p task
  Within Q a r p (send host request next) =
      (r' : ℕ) × (r ≡ suc r') × ((b : Bool) → Within Q a r' p (next b))
  Within Q a r p (post publisher message next) =
      (p' : ℕ) × (p ≡ suc p') × ((b : Bool) → Within Q a r p' (next b))

  module _ {A : Type 0} (Q : A → Type 0) (a' r' p' : ℕ) where
    -- A larger budget.
    pub Within-more :
        (a r p : ℕ) (task : Task V A)
        → Within Q a r p task
        → Within Q (a' + a) (r' + r) (p' + p) task
    Within-more a r p (returned x) q = q
    Within-more a r p panicked q = q
    Within-more a r p (read_state device next) (n, e, h) =
        (a' + n, after a' a n e, λ o. Within-more n r p (next o) (h o))
    Within-more a r p (read_scope device next) (n, e, h) =
        (a' + n, after a' a n e, λ m. Within-more n r p (next m) (h m))
    Within-more a r p (write_state device state task) (n, e, h) =
        (a' + n, after a' a n e, Within-more n r p task h)
    Within-more a r p (write_evidence device state task) (n, e, h) =
        (a' + n, after a' a n e, Within-more n r p task h)
    Within-more a r p (write_scope device metadata task) (n, e, h) =
        (a' + n, after a' a n e, Within-more n r p task h)
    Within-more a r p (send host request next) (n, e, h) =
        (r' + n, after r' r n e, λ b. Within-more a n p (next b) (h b))
    Within-more a r p (post publisher message next) (n, e, h) =
        (p' + n, after p' p n e, λ b. Within-more a r n (next b) (h b))

  module _ {A B : Type 0} (Q : B → Type 0) (f : A → Task V B) (a' r' p' : ℕ) where
    pub Within->>= :
        (a r p : ℕ) (task : Task V A)
        → Within (λ x. Within Q a' r' p' (f x)) a r p task
        → Within Q (a + a') (r + r') (p + p') (task >>= f)
    unfolding ◌>>=◌
    Within->>= a r p (returned x) q = Within-more Q a r p a' r' p' (f x) q
    Within->>= a r p panicked q = q
    Within->>= a r p (read_state device next) (n, e, h) =
        (n + a', before a n a' e, λ o. Within->>= n r p (next o) (h o))
    Within->>= a r p (read_scope device next) (n, e, h) =
        (n + a', before a n a' e, λ m. Within->>= n r p (next m) (h m))
    Within->>= a r p (write_state device state task) (n, e, h) =
        (n + a', before a n a' e, Within->>= n r p task h)
    Within->>= a r p (write_evidence device state task) (n, e, h) =
        (n + a', before a n a' e, Within->>= n r p task h)
    Within->>= a r p (write_scope device metadata task) (n, e, h) =
        (n + a', before a n a' e, Within->>= n r p task h)
    Within->>= a r p (send host request next) (n, e, h) =
        (n + r', before r n r' e, λ b. Within->>= a n p (next b) (h b))
    Within->>= a r p (post publisher message next) (n, e, h) =
        (n + p', before p n p' e, λ b. Within->>= a r n (next b) (h b))

  module _ {A : Type 0} (P Q : A → Type 0) (h : (x : A) → P x → Q x) where
    pub Within-mono : (a r p : ℕ) (task : Task V A) → Within P a r p task → Within Q a r p task
    Within-mono a r p (returned x) q = h x q
    Within-mono a r p panicked q = q
    Within-mono a r p (read_state device next) (n, e, g) =
        (n, e, λ o. Within-mono n r p (next o) (g o))
    Within-mono a r p (read_scope device next) (n, e, g) =
        (n, e, λ m. Within-mono n r p (next m) (g m))
    Within-mono a r p (write_state device state task) (n, e, g) = (n, e, Within-mono n r p task g)
    Within-mono a r p (write_evidence device state task) (n, e, g) =
        (n, e, Within-mono n r p task g)
    Within-mono a r p (write_scope device metadata task) (n, e, g) =
        (n, e, Within-mono n r p task g)
    Within-mono a r p (send host request next) (n, e, g) =
        (n, e, λ b. Within-mono a n p (next b) (g b))
    Within-mono a r p (post publisher message next) (n, e, g) =
        (n, e, λ b. Within-mono a r n (next b) (g b))
