-- ===== src/Main/Ordering.antt =====
-- The order in which main.rs and phoebus/mod.rs let the tasks of Phoebus work.
use alarms_actions_synchroni.Prelude.{
  ℕ, suc, Bool, true, ◌≡◌, refl, arith, ℕ_discrete, ite, ap, ◌∙◌, String, Option, ok,
}
use alarms_actions_synchroni.World.{World, Env}
use alarms_actions_synchroni.Tasks.{step}
use alarms_actions_synchroni.Startup.{SynchronizerConfig}
use alarms_actions_synchroni.Controls.{SyncImpl}
use alarms_actions_synchroni.System.Interleaving.{
  update_other, Thread, System, update, advance, idle,
}
use alarms_actions_synchroni.Program.{
  Program, Loop, first_loop, nth, is_other, first_program, controls_sync, ListenerTask, gone,
  HealthTask, ended,
}
use alarms_actions_synchroni.Program.Steps.{
  Next, PhoebusNext, Run, begin, and_then, of_listener, of_health, of_controls, of_phoebus, ctrl_c,
  panics, serves, reports, fails, exits, controls_receives, controls_turns, hydrated,
  topic_receives, monitor_turns, stops, joins, drops_monitor, proceeds, returned_phoebus,
}
use alarms_actions_synchroni.Phoebus.Synchronizer.{monitors}
use alarms_actions_synchroni.Main.{main}
use alarms_actions_synchroni.Main.Starting.{IsMonitored, main-first, main-IsMonitored}
use alarms_actions_synchroni.Main.Phases.{
  Waits, IsInOrder, IsPhased-of_waiting, IsPhased-of_loops, IsPhased-of_cancellation,
  IsResting-of_Waits, IsResting-of_waiting, IsResting-update, Waits-without, is_other_self,
}
use alarms_actions_synchroni.Main.Callings.{
  IsCalledOff, Turn-IsCalledOff, IsCalledOff-of_cancellation, IsCalledOff-aborted,
  IsCalledOff-first_loop, Turn-spawned,
}

module _ {V : Type 0} where
  module _ {D : Type 0} (env : Env V D) (sync : SyncImpl) where
    advance-Waits :
        (thread : Thread V) (w : World V) → Waits thread → Waits (advance env sync thread w).0
    unfolding advance step
    advance-Waits thread w waits = rw waits refl

    pub proceeds-Waits :
        (s : System V) (i j : ℕ)
        → Waits (s.threads j)
        → Waits (update s.threads i (advance env sync (s.threads i) s.world).0 j)
    proceeds-Waits s i j waits = of_test (ℕ_discrete i j)
      where
        of_test :
            (d : Dec (i ≡ j))
            → Waits (ite d (advance env sync (s.threads i) s.world).0 (s.threads j))
        of_test (yes same) = advance-Waits (s.threads i) s.world (rw same waits)
        of_test (no other) = waits

module _ {V D : Type 0} (env : Env V D) (config : SynchronizerConfig)
    (monitored : IsMonitored config) where
  -- What holds of the program.
  abbrev pub Ordered : Program V → Type 0
  Ordered p = IsInOrder p × ((k : ℕ) → IsCalledOff (p.monitor_loops k) p.is_cancelled)

  of_update :
      (b : Bool) (loops : ℕ → Loop) (k : ℕ) (loop : Loop)
      → ((j : ℕ) → IsCalledOff (loops j) b)
      → IsCalledOff loop b
      → (j : ℕ) → IsCalledOff (update loops k loop j) b
  of_update b loops k loop all one j = of_test (ℕ_discrete k j)
    where
      of_test : (d : Dec (k ≡ j)) → IsCalledOff (ite d loop (loops j)) b
      of_test (yes same) = one
      of_test (no other) = all j

  cancelled-Ordered :
      (p : Program V)
      → Ordered p
      → (listener : ListenerTask) (health : HealthTask)
      → Ordered (record p { is_cancelled = true; listener = listener; health = health })
  cancelled-Ordered p ((phased, resting), off) listener health = (
    (IsPhased-of_cancellation p.phase _ p.monitor_loops (p.system.threads 1) phased, resting),
    λ k. IsCalledOff-of_cancellation (p.monitor_loops k),
  )

  -- The end of `synchronize` on a cancellation.
  returned-Ordered :
      (p : Program V) → Ordered p → p.is_cancelled ≡ true → Ordered (returned_phoebus env config p)
  returned-Ordered p ((phased, resting), off) cancelled = (((refl, cancelled), resting), off)

  PhoebusNext-Ordered : {p p' : Program V} → PhoebusNext env config p p' → Ordered p → Ordered p'
  PhoebusNext-Ordered {p} (hydrated phase waits done) ((phased, resting), off) = rw (← done) (
    (
      waits,
      λ k.
          IsResting-of_Waits (first_loop (nth k (monitors config))) _
            (rw ((rw phase at phased) k) at (resting k)),
    ),
    λ k. IsCalledOff-first_loop (nth k (monitors config)) p.is_cancelled,
  )
  PhoebusNext-Ordered {p} (topic_receives k monitor now msg monitored reads waits done)
        ((phased, resting), off) =
      rw (← done) (
        (
          IsPhased-of_waiting p.phase _ p.monitor_loops (p.system.threads 1) _
              (λ w.
                ap Thread.task (update_other p.system.threads (suc (suc k)) 1 _ (omega arith)) ∙ w)
              phased,
          λ j. elim (ℕ_discrete k j) [
            | yes same ↦ rw (← same, reads) tt
            | no other ↦
                rw (update_other p.system.threads (suc (suc k)) (suc (suc j)) _ (ground arith))
                  (resting j)
          ],
        ),
        off,
      )
  PhoebusNext-Ordered {p} (monitor_turns k monitor monitored turn waits done)
        ((phased, resting), off) =
      rw (← done) (
        (
          IsPhased-of_loops p.phase _ p.monitor_loops _ (p.system.threads 1)
              (λ all. absurd (Turn-spawned p.is_cancelled turn (all k))) phased,
          λ j.
              IsResting-update p.monitor_loops (p.system.threads (suc (suc j))) k j _
                (λ same. rw (← same) waits) (resting j),
        ),
        of_update p.is_cancelled p.monitor_loops k _ off (Turn-IsCalledOff p.is_cancelled turn),
      )
  PhoebusNext-Ordered {p} (stops cancelled done) h = rw (← done) (returned-Ordered p h cancelled)
  PhoebusNext-Ordered {p} (joins phase all_finished done) h =
      rw (← done) (returned-Ordered p h (rw (all_finished 0 monitored.0 monitored.1) at (h.1 0)))
  PhoebusNext-Ordered {p} (drops_monitor k is_over done) ((phased, resting), off) = rw (← done) (
    (
      rw is_over (rw is_over at phased),
      λ j.
          IsResting-update p.monitor_loops _ k j _ (λ same. rw (same, is_other_self j) refl)
            (IsResting-of_waiting (p.monitor_loops j) (p.system.threads (suc (suc j))) _
              (Waits-without (is_other k j) (p.system.threads (suc (suc j)))) (resting j)),
    ),
    of_update p.is_cancelled p.monitor_loops k _ off
        (IsCalledOff-aborted (p.monitor_loops k) p.is_cancelled (off k)),
  )

  Next-Ordered : {p p' : Program V} → Next env config p p' → Ordered p → Ordered p'
  Next-Ordered {p} (of_listener (ctrl_c awaits done)) h =
      rw (← done) (cancelled-Ordered p h gone p.health)
  Next-Ordered (of_listener (panics awaits done)) h = rw (← done) h
  Next-Ordered (of_health (serves starts done)) h = rw (← done) h
  Next-Ordered (of_health (reports runs cancelled done)) h = rw (← done) h
  Next-Ordered {p} (of_health (fails runs done)) h =
      rw (← done) (cancelled-Ordered p h p.listener ended)
  Next-Ordered (of_health (exits runs done)) h = rw (← done) h
  Next-Ordered {p} (of_controls (controls_receives msg runs waits done)) ((phased, resting), off) =
      rw (← done) (
        (
          rw (update_other p.system.threads 0 1 _ (omega arith)) phased,
          λ k. rw (update_other p.system.threads 0 (suc (suc k)) _ (omega arith)) (resting k),
        ),
        off,
      )
  Next-Ordered (of_controls (controls_turns turn waits done)) h = rw (← done) h
  Next-Ordered (of_phoebus next) h = PhoebusNext-Ordered next h
  Next-Ordered {p} (proceeds i done) ((phased, resting), off) =
      let keeps = λ (k : ℕ) (w : Waits (p.system.threads k)).
        proceeds-Waits env (controls_sync config) p.system i k w in
      rw (← done) (
        (
          IsPhased-of_waiting p.phase _ p.monitor_loops (p.system.threads 1) _ (keeps 1) phased,
          λ k.
              IsResting-of_waiting (p.monitor_loops k) (p.system.threads (suc (suc k))) _
                (keeps (suc (suc k))) (resting k),
        ),
        off,
      )

  first_program-Ordered : Ordered (first_program env config)
  unfolding first_program
  first_program-Ordered = (
    (λ k. refl, λ k. ap Thread.task (update_other (λ i. idle) 1 (suc (suc k)) _ (omega arith))),
    λ k. tt,
  )

  pub Run-keeps_Ordered : {p p' : Program V} → Run env config p p' → Ordered p → Ordered p'
  Run-keeps_Ordered begin h = h
  Run-keeps_Ordered (and_then run next) h = Next-Ordered next (Run-keeps_Ordered run h)

  pub Run-first_Ordered : {p : Program V} → Run env config (first_program env config) p → Ordered p
  Run-first_Ordered run = Run-keeps_Ordered run first_program-Ordered

module _ {V D : Type 0} (env : Env V D) (config : SynchronizerConfig) where
  -- If `main` starts the program, then in whatever it comes to: while the hydration lasts, no
  -- monitor is spawned; while the monitors watch, the hydration has made its last access; once the
  -- Phoebus synchronizer has ended, the hydration has no access left to make, and there has been a
  -- cancellation; and only a monitor whose loop reads its stream has a message in work, so that one
  -- that has returned or whose task was dropped has no access left to make. A monitor may still be
  -- at work when the synchronizer has ended, until its task is dropped.
  pub Run-Ordered :
      (subscribed : Bool) (variable : String → Option String) (p : Program V) {p' : Program V}
      → main env subscribed variable ≡ ok (config, p)
      → Run env config p p'
      → IsInOrder p'
  Run-Ordered subscribed variable p {p'} started run =
      (Run-first_Ordered env config (main-IsMonitored env config subscribed variable p started)
        (rw (main-first env config subscribed variable p started) at run)).0
