-- ===== src/Main/Refining.antt =====
-- The tasks of main.rs as an interleaving of the two synchronizers.
use alarms_actions_synchroni.Prelude.{
  ℕ, zero, suc, Bool, ◌≡◌, ◌⊎◌, some, List, [], ◌∷◌, arith, inl, inr, refl, sym, ap, String, Option,
  ok,
}
use alarms_actions_synchroni.World.{Env}
use alarms_actions_synchroni.Startup.{SynchronizerConfig, new_world}
use alarms_actions_synchroni.System.Interleaving.{
  Job, System, from_controls, from_topic, startup, at_rest, Move, Moves, takes, advances, aborts,
  here,
}
use alarms_actions_synchroni.Controls.Publishers.{IsServed}
use alarms_actions_synchroni.Phoebus.Monitor.{Monitor}
use alarms_actions_synchroni.Phoebus.Synchronizer.{IsAmong, monitors, monitors_iff}
use alarms_actions_synchroni.Program.{
  Program, first_program, controls_sync, nth, is_other, hydration_thread, monitor_thread,
}
use alarms_actions_synchroni.Program.Steps.{
  Next, Run, begin, and_then, of_listener, of_health, of_controls, of_phoebus, ctrl_c, panics,
  serves, reports, fails, exits, controls_receives, controls_turns, hydrated, topic_receives,
  monitor_turns, stops, joins, drops_monitor, proceeds,
}
use alarms_actions_synchroni.Main.{main}
use alarms_actions_synchroni.Main.Starting.{main-first}

-- The monitor of a topic that the configuration serves, with its hosts.
abbrev IsConfigured : SynchronizerConfig → Monitor → Type 0
IsConfigured config monitor =
    (monitor.controls_client.grpc_alarms_svc_host ≡ config.grpc_alarms_svc_host)
    × (monitor.phoebus_host ≡ config.phoebus_host)
    × IsServed monitor.topic config.phoebus_topics

nth-IsAmong : {A : Type 0} (k : ℕ) (l : List A) (a : A) → nth k l ≡ some a → IsAmong a l
nth-IsAmong k [] a e = absurd (cc)
nth-IsAmong zero (b ∷ l) a e = inl (ground arith)
nth-IsAmong (suc k) (b ∷ l) a e = inr (nth-IsAmong k l a e)

nth-IsConfigured :
    (config : SynchronizerConfig) (k : ℕ) (monitor : Monitor)
    → nth k (monitors config) ≡ some monitor
    → IsConfigured config monitor
nth-IsConfigured config k monitor e =
    let (svc, phoebus, served, publisher) =
      (monitors_iff config monitor).0 (nth-IsAmong k (monitors config) monitor e) in
    (svc, phoebus, served)

module _ {V D : Type 0} (env : Env V D) (config : SynchronizerConfig) where
  -- Which thread may handle what.
  abbrev pub MayTake : ℕ → Job → Type 0
  MayTake zero (from_controls msg) = Unit
  MayTake (suc zero) (startup phoebus_host topics) =
      (phoebus_host ≡ config.phoebus_host) × (topics ≡ config.phoebus_topics)
  MayTake (suc (suc k)) (from_topic monitor now msg) = IsConfigured config monitor
  MayTake i job = ⊥

  abbrev ProgramMoves : System V → Type 0
  ProgramMoves s = Moves env (controls_sync config) MayTake (at_rest new_world) s

  -- What happens next is a move of the tasks, or leaves them and the caches as they are.
  abbrev IsMove : System V → System V → Type 0
  IsMove s s' = (s' ≡ s) ⊎ Move env (controls_sync config) MayTake s s'

  pub Next-IsMove : {p p' : Program V} → Next env config p p' → IsMove p.system p'.system
  Next-IsMove (of_listener (ctrl_c awaits done)) = inl (sym (ap Program.system done))
  Next-IsMove (of_listener (panics awaits done)) = inl (sym (ap Program.system done))
  Next-IsMove (of_health (serves starts done)) = inl (sym (ap Program.system done))
  Next-IsMove (of_health (reports runs cancelled done)) = inl (sym (ap Program.system done))
  Next-IsMove (of_health (fails runs done)) = inl (sym (ap Program.system done))
  Next-IsMove (of_health (exits runs done)) = inl (sym (ap Program.system done))
  Next-IsMove (of_controls (controls_turns turn waits done)) = inl (sym (ap Program.system done))
  Next-IsMove (of_phoebus (monitor_turns k monitor monitored turn waits done)) =
      inl (sym (ap Program.system done))
  Next-IsMove (of_phoebus (hydrated phase waits done)) = inl (sym (ap Program.system done))
  Next-IsMove (of_controls (controls_receives msg runs waits done)) =
      inr (takes 0 (from_controls msg) tt waits (ap Program.system done))
  Next-IsMove (of_phoebus (topic_receives k monitor now msg monitored reads waits done)) = inr (
      takes (suc (suc k)) (from_topic monitor now msg) (nth-IsConfigured config k monitor monitored)
        waits (ap Program.system done))
  Next-IsMove (of_phoebus (stops cancelled done)) =
      inr (aborts (is_other hydration_thread) (ap Program.system done))
  Next-IsMove (of_phoebus (joins phase all_finished done)) =
      inr (aborts (is_other hydration_thread) (ap Program.system done))
  Next-IsMove (of_phoebus (drops_monitor k ended done)) =
      inr (aborts (is_other (monitor_thread k)) (ap Program.system done))
  Next-IsMove (proceeds i done) = inr (advances i (ap Program.system done))

  Next-Moves :
      {p p' : Program V} → Next env config p p' → ProgramMoves p.system → ProgramMoves p'.system
  Next-Moves next moves = elim (Next-IsMove next) [
    | inl same ↦ rw same moves
    | inr move ↦ Moves.then moves move
  ]

  first_program-Moves : ProgramMoves (first_program env config).system
  unfolding first_program
  first_program-Moves =
      Moves.then here
        (takes 1 (startup config.phoebus_host config.phoebus_topics) (refl, refl) refl refl)

  pub Run-first_Moves :
      {p : Program V} → Run env config (first_program env config) p → ProgramMoves p.system
  Run-first_Moves begin = first_program-Moves
  Run-first_Moves (and_then run next) = Next-Moves next (Run-first_Moves run)

  -- If `main` starts the program, then whatever it comes to, its two caches and its tasks are those
  -- of an interleaving of the handlers from empty caches, in which one thread handles the messages
  -- from Controls, one hydrates from the configured host and topics, and each other handles those
  -- of one monitor that the configuration asks for.
  pub Run-Moves :
      (subscribed : Bool) (variable : String → Option String) (p : Program V) {p' : Program V}
      → main env subscribed variable ≡ ok (config, p)
      → Run env config p p'
      → Moves env (controls_sync config) MayTake (at_rest new_world) p'.system
  Run-Moves subscribed variable p started run =
      Run-first_Moves (rw (main-first env config subscribed variable p started) at run)
