-- ===== src/System/Interleaving/Totals.antt =====
-- Sums over the threads, and what one access spends of a budget.
use alarms_actions_synchroni.Prelude.{
  ℕ, zero, suc, ◌+◌, ◌≤◌, ◌<◌, ◌≡◌, refl, arith, ℕ_discrete, length, length-concat,
}
use alarms_actions_synchroni.World.{World, Env}
use alarms_actions_synchroni.Tasks.{
  Task, returned, panicked, read_state, read_scope, write_state, write_evidence, write_scope, send,
  post, step,
}
use alarms_actions_synchroni.Tasks.Bounds.{Within}
use alarms_actions_synchroni.System.Interleaving.{update, update_self, update_other}

-- The sum over the first `n` threads.
abbrev pub total : ℕ → (ℕ → ℕ) → ℕ
total zero f = 0
total (suc n) f = f n + total n f

pub total-update_beyond : (n : ℕ) (f : ℕ → ℕ) (i v : ℕ) → n ≤ i → total n (update f i v) ≡ total n f
total-update_beyond zero f i v h = refl
total-update_beyond (suc n) f i v h =
    omega (
      arith,
      update_other f i n v (omega (arith, h)),
      total-update_beyond n f i v (omega (arith, h)),
    )

pub total-update :
    (n : ℕ) (f : ℕ → ℕ) (i v : ℕ) → i < n → total n (update f i v) + f i ≡ total n f + v
total-update zero f i v h = absurd (omega (arith, h))
total-update (suc n) f i v h = elim (ℕ_discrete i n) [
  | yes same ↦ rw same (omega (arith, update_self f n v, total-update_beyond n f n v (omega arith)))
  | no other ↦
      omega (arith, update_other f i n v other, total-update n f i v (omega (arith, h, other)))
]

-- After one access: what is left of the budget, and that it has been spent on what was sent.
pub record Spent {V A : Type 0} (Q : A → Type 0) (r p : ℕ) (task : Task V A) (w w' : World V)
    : Type 0 where
  pub accesses_left : ℕ
  pub requests_left : ℕ
  pub postings_left : ℕ
  pub within : Within Q accesses_left requests_left postings_left task
  pub requested : length w'.sent + requests_left ≡ length w.sent + r
  pub posted : length w'.published + postings_left ≡ length w.published + p
  pub requests_fewer : requests_left ≤ r
  pub postings_fewer : postings_left ≤ p

module _ {V D : Type 0} (env : Env V D) {A : Type 0} (Q : A → Type 0) where
  unspent :
      (a r p : ℕ) (task : Task V A) (w w' : World V)
      → w'.sent ≡ w.sent
      → w'.published ≡ w.published
      → Within Q a r p task
      → Spent Q r p task w w'
  unspent a r p task w w' s q g = record {
    accesses_left = a;
    requests_left = r;
    postings_left = p;
    within = g;
    requested = rw s refl;
    posted = rw q refl;
    requests_fewer = omega arith;
    postings_fewer = omega arith;
  }

  pub step-Spent :
      (a r p : ℕ) (task : Task V A) (w : World V)
      → Within Q a r p task
      → Spent Q r p (step env task w).0 w (step env task w).1
  unfolding step
  step-Spent a r p (returned x) w g = unspent a r p (returned x) w w refl refl g
  step-Spent a r p panicked w g = absurd g
  step-Spent a r p (read_state d next) w (a', e, g) = unspent a' r p _ w w refl refl (g _)
  step-Spent a r p (read_scope d next) w (a', e, g) = unspent a' r p _ w w refl refl (g _)
  step-Spent a r p (write_state d s task) w (a', e, g) = unspent a' r p task w _ refl refl g
  step-Spent a r p (write_evidence d s task) w (a', e, g) = unspent a' r p task w _ refl refl g
  step-Spent a r p (write_scope d m task) w (a', e, g) = unspent a' r p task w _ refl refl g
  step-Spent a r p (send host request next) w (r', e, g) = record {
    accesses_left = a;
    requests_left = r';
    postings_left = p;
    within = g _;
    requested = omega (arith, e, length-concat w.sent (host, request));
    posted = refl;
    requests_fewer = omega (arith, e);
    postings_fewer = omega arith;
  }
  step-Spent a r p (post publisher message next) w (p', e, g) = record {
    accesses_left = a;
    requests_left = r;
    postings_left = p';
    within = g _;
    requested = refl;
    posted = omega (arith, e, length-concat w.published (publisher, message));
    requests_fewer = omega arith;
    postings_fewer = omega (arith, e);
  }
