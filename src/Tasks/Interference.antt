-- ===== src/Tasks/Interference.antt =====
-- A task whose world is changed at will between its accesses.
use alarms_actions_synchroni.Prelude.{ℕ, zero, suc, ◌+◌, ◌≡◌, refl, length, arith}
use alarms_actions_synchroni.Prelude.HashMap.{get}
use alarms_actions_synchroni.World.{World, Env}
use alarms_actions_synchroni.Tasks.{
  Task, returned, panicked, read_state, read_scope, write_state, write_evidence, write_scope, send,
  post, step,
}
use alarms_actions_synchroni.Tasks.Bounds.{Within}

module _ {V D : Type 0} (env : Env V D) {A : Type 0} where
  -- What is left of the task after so many accesses, the first of them in `worlds 0`, the next in
  -- `worlds 1`, and so on.
  unfoldable pub after_accesses : ℕ → (ℕ → World V) → Task V A → Task V A
  after_accesses zero worlds task = task
  after_accesses (suc n) worlds task =
      after_accesses n (λ k. worlds (suc k)) (step env task (worlds 0)).0

  stays_returned :
      (n : ℕ) (worlds : ℕ → World V) (a : A) → after_accesses n worlds (returned a) ≡ returned a
  unfolding after_accesses step
  stays_returned zero worlds a = refl
  stays_returned (suc n) worlds a = stays_returned n (λ k. worlds (suc k)) a

  module _ (Q : A → Type 0) where
    -- A task within a budget has returned when it is spent.
    pub Within-after_accesses :
        (n a r p : ℕ) (worlds : ℕ → World V) (task : Task V A)
        → n ≡ a + r + p
        → Within Q a r p task
        → (x : A) × (after_accesses n worlds task ≡ returned x) × Q x
    unfolding after_accesses step
    Within-after_accesses n a r p worlds (returned x) e q = (x, stays_returned n worlds x, q)
    Within-after_accesses n a r p worlds panicked e q = absurd q
    Within-after_accesses zero a r p worlds (read_state d next) e (a', s, h) =
        absurd (omega (arith, e, s))
    Within-after_accesses zero a r p worlds (read_scope d next) e (a', s, h) =
        absurd (omega (arith, e, s))
    Within-after_accesses zero a r p worlds (write_state d v t) e (a', s, h) =
        absurd (omega (arith, e, s))
    Within-after_accesses zero a r p worlds (write_evidence d v t) e (a', s, h) =
        absurd (omega (arith, e, s))
    Within-after_accesses zero a r p worlds (write_scope d v t) e (a', s, h) =
        absurd (omega (arith, e, s))
    Within-after_accesses zero a r p worlds (send host m next) e (r', s, h) =
        absurd (omega (arith, e, s))
    Within-after_accesses zero a r p worlds (post to m next) e (p', s, h) =
        absurd (omega (arith, e, s))
    Within-after_accesses (suc n) a r p worlds (read_state d next) e (a', s, h) =
        Within-after_accesses n a' r p (λ k. worlds (suc k)) (next (get d (worlds 0).alarm_states))
          (omega (arith, e, s)) (h _)
    Within-after_accesses (suc n) a r p worlds (read_scope d next) e (a', s, h) =
        Within-after_accesses n a' r p (λ k. worlds (suc k))
          (next (get d (worlds 0).metadata_scope)) (omega (arith, e, s)) (h _)
    Within-after_accesses (suc n) a r p worlds (write_state d v t) e (a', s, h) =
        Within-after_accesses n a' r p (λ k. worlds (suc k)) t (omega (arith, e, s)) h
    Within-after_accesses (suc n) a r p worlds (write_evidence d v t) e (a', s, h) =
        Within-after_accesses n a' r p (λ k. worlds (suc k)) t (omega (arith, e, s)) h
    Within-after_accesses (suc n) a r p worlds (write_scope d v t) e (a', s, h) =
        Within-after_accesses n a' r p (λ k. worlds (suc k)) t (omega (arith, e, s)) h
    Within-after_accesses (suc n) a r p worlds (send host m next) e (r', s, h) =
        Within-after_accesses n a r' p (λ k. worlds (suc k))
          (next (env.accepts (length (worlds 0).sent))) (omega (arith, e, s)) (h _)
    Within-after_accesses (suc n) a r p worlds (post to m next) e (p', s, h) =
        Within-after_accesses n a r p' (λ k. worlds (suc k))
          (next (env.delivers (length (worlds 0).published))) (omega (arith, e, s)) (h _)
