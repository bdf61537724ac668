-- ===== src/Main/Safety.antt =====
-- What the whole program of main.rs does to what is recorded of a device.
use alarms_actions_synchroni.Prelude.{ℕ, String, Bool, Option, ok, ◌≡◌, ◌⊎◌, inl, inr}
use alarms_actions_synchroni.Prelude.HashMap.{get}
use alarms_actions_synchroni.World.{Env}
use alarms_actions_synchroni.Startup.{SynchronizerConfig, new_world}
use alarms_actions_synchroni.System.Invariants.{Follows, Follows-refl}
use alarms_actions_synchroni.System.Interleaving.{advance}
use alarms_actions_synchroni.System.Interleaving.Safety.{IsStaleWrite, Moves-Follows}
use alarms_actions_synchroni.Program.{Program, controls_sync}
use alarms_actions_synchroni.Program.Steps.{Next, Run}
use alarms_actions_synchroni.Main.{main}
use alarms_actions_synchroni.Main.Refining.{MayTake, Next-IsMove, Run-Moves}

module _ {V D : Type 0} (env : Env V D) (config : SynchronizerConfig) where
  -- If `main` starts the program, then whatever it comes to and whatever happens next, a
  -- cancellation and the health server included: the state recorded for a device stays or is
  -- replaced by one that may follow it (a bypass only by a bypass or an unbypass; no entry is
  -- removed), unless a thread records a state of this device whose last read was of this device
  -- and is no longer what is recorded.
  pub Run-Follows :
      (device : String) (subscribed : Bool) (variable : String → Option String) (p : Program V)
      {p' p'' : Program V}
      → main env subscribed variable ≡ ok (config, p)
      → Run env config p p'
      → Next env config p' p''
      → Follows (get device p'.system.world.alarm_states) (get device p''.system.world.alarm_states)
        ⊎ ((i : ℕ) × IsStaleWrite device (p'.system.threads i) p'.system.world
            × (p''.system.world
                ≡ (advance env (controls_sync config) (p'.system.threads i) p'.system.world).1))
  Run-Follows device subscribed variable p {p'} started run next =
      elim (Next-IsMove env config next) [
        | inl same ↦ inl (rw same (Follows-refl (get device p'.system.world.alarm_states)))
        | inr move ↦
            Moves-Follows env (controls_sync config) (MayTake env config) device new_world
              (Run-Moves env config subscribed variable p started run) move
      ]
