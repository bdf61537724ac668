-- ===== src/Tasks/Binding.antt =====
-- `run_alone` of a bind.
use alarms_actions_synchroni.Prelude.{◌≡◌, refl, Option, none, some, length}
use alarms_actions_synchroni.Prelude.HashMap.{get}
use alarms_actions_synchroni.World.{World, Env}
use alarms_actions_synchroni.Tasks.{
  Task, returned, panicked, read_state, read_scope, write_state, write_evidence, write_scope, send,
  post, ◌>>=◌, run_alone,
}

-- What is left of the world.
abbrev pub left_by : {V : Type 0} → Option (Unit {0} × World V) → Option (World V)
left_by none = none
left_by (some (u, w)) = some w

module _ {V D : Type 0} (env : Env V D) {A B : Type 0} (f : A → Task V B) where
  -- What follows a first part.
  abbrev pub continued : Option (A × World V) → Option (B × World V)
  continued none = none
  continued (some (a, w)) = run_alone env (f a) w

  pub run_alone->>= :
      (task : Task V A) (w : World V)
      → run_alone env (task >>= f) w ≡ continued (run_alone env task w)
  unfolding run_alone ◌>>=◌
  run_alone->>= (returned a) w = refl
  run_alone->>= panicked w = refl
  run_alone->>= (read_state device next) w = run_alone->>= (next (get device w.alarm_states)) w
  run_alone->>= (read_scope device next) w = run_alone->>= (next (get device w.metadata_scope)) w
  run_alone->>= (write_state device state task) w = run_alone->>= task _
  run_alone->>= (write_evidence device state task) w = run_alone->>= task _
  run_alone->>= (write_scope device metadata task) w = run_alone->>= task _
  run_alone->>= (send host request next) w = run_alone->>= (next (env.accepts (length w.sent))) _
  run_alone->>= (post publisher message next) w =
      run_alone->>= (next (env.delivers (length w.published))) _
