-- ===== src/Main/Ending.antt =====
-- What the health server of main.rs reports, and how the Controls synchronizer ends.
use alarms_actions_synchroni.Prelude.{
  suc, Bool, true, List, [], ◌∷◌, ◌++◌, ◌≡◌, ◌⊎◌, inl, inr, refl, ap, ◌∙◌, String, Option, ok,
  arith,
}
use alarms_actions_synchroni.World.{Env}
use alarms_actions_synchroni.Startup.{SynchronizerConfig}
use alarms_actions_synchroni.Tasks.{Task, returned}
use alarms_actions_synchroni.System.Interleaving.{Thread, update_other}
use alarms_actions_synchroni.Program.{
  Program, Loop, Turn, connects, breaks, drops, returns, pauses, wakes, unspawned, dropped,
  connecting, reading, checking, sleeping, finished, ServingStatus, serving, not_serving,
  first_program, HealthTask, spawned, running, ended, controls_sync,
}
use alarms_actions_synchroni.Program.Steps.{
  of_listener, of_health, of_controls, of_phoebus, panics, drops_monitor, Next, Run, begin,
  and_then, ctrl_c, serves, reports, fails, exits, controls_receives, controls_turns, hydrated,
  topic_receives, monitor_turns, stops, joins, proceeds,
}
use alarms_actions_synchroni.Main.{main}
use alarms_actions_synchroni.Main.Starting.{main-first}
use alarms_actions_synchroni.Main.Ordering.{proceeds-Waits}

-- The statuses that the reporter has been given: `Serving` first, and `NotServing` after it only if
-- the task has ended on a cancellation.
abbrev pub IsReported : HealthTask → List ServingStatus → Bool → Type 0
IsReported spawned statuses is_cancelled = statuses ≡ []
IsReported running statuses is_cancelled = statuses ≡ serving ∷ []
IsReported ended statuses is_cancelled =
    (statuses ≡ serving ∷ []) ⊎ ((statuses ≡ serving ∷ not_serving ∷ []) × (is_cancelled ≡ true))

-- The loop of the Controls synchronizer is spawned and never dropped, and has returned only after a
-- cancellation and with no message in work.
abbrev pub IsWatched : {V : Type 0} → Loop → Bool → Task V (Unit {0}) → Type 0
IsWatched finished is_cancelled task = (is_cancelled ≡ true) × (task ≡ returned tt)
IsWatched unspawned is_cancelled task = ⊥
IsWatched dropped is_cancelled task = ⊥
IsWatched _ is_cancelled task = Unit

abbrev pub IsEnding : {V : Type 0} → Program V → Type 0
IsEnding p =
    IsReported p.health p.statuses p.is_cancelled
    × IsWatched p.controls_loop p.is_cancelled (p.system.threads 0).task

IsReported-of_cancellation :
    (health : HealthTask) (statuses : List ServingStatus) (b : Bool)
    → IsReported health statuses b
    → IsReported health statuses true
IsReported-of_cancellation spawned statuses b none_yet = none_yet
IsReported-of_cancellation running statuses b first = first
IsReported-of_cancellation ended statuses b (inl first) = inl first
IsReported-of_cancellation ended statuses b (inr (both, cancelled)) = inr (both, refl)

IsWatched-of_cancellation :
    {V : Type 0} (loop : Loop) (b : Bool) (task : Task V (Unit {0}))
    → IsWatched loop b task
    → IsWatched loop true task
IsWatched-of_cancellation unspawned b task w = w
IsWatched-of_cancellation dropped b task w = w
IsWatched-of_cancellation connecting b task w = tt
IsWatched-of_cancellation reading b task w = tt
IsWatched-of_cancellation checking b task w = tt
IsWatched-of_cancellation sleeping b task w = tt
IsWatched-of_cancellation finished b task (c, waits) = (refl, waits)

-- A change of the task that leaves it at its end if it is there.
IsWatched-of_waiting :
    {V : Type 0} (loop : Loop) (b : Bool) (task task' : Task V (Unit {0}))
    → (task ≡ returned tt → task' ≡ returned tt)
    → IsWatched loop b task
    → IsWatched loop b task'
IsWatched-of_waiting unspawned b task task' keeps w = w
IsWatched-of_waiting dropped b task task' keeps w = w
IsWatched-of_waiting connecting b task task' keeps w = tt
IsWatched-of_waiting reading b task task' keeps w = tt
IsWatched-of_waiting checking b task task' keeps w = tt
IsWatched-of_waiting sleeping b task task' keeps w = tt
IsWatched-of_waiting finished b task task' keeps (c, waits) = (c, keeps waits)

IsWatched-of_Turn :
    {V : Type 0} (b : Bool) (task : Task V (Unit {0})) {loop loop' : Loop}
    → Turn b loop loop'
    → task ≡ returned tt
    → IsWatched loop' b task
IsWatched-of_Turn b task connects waits = tt
IsWatched-of_Turn b task (breaks c) waits = tt
IsWatched-of_Turn b task drops waits = tt
IsWatched-of_Turn b task (returns c) waits = (c, waits)
IsWatched-of_Turn b task (pauses c) waits = tt
IsWatched-of_Turn b task wakes waits = tt

module _ {V D : Type 0} (env : Env V D) (config : SynchronizerConfig) where
  Next-IsEnding : {p p' : Program V} → Next env config p p' → IsEnding p → IsEnding p'
  Next-IsEnding {p} (of_listener (ctrl_c awaits done)) (r, w) = rw (← done) (
    IsReported-of_cancellation p.health p.statuses _ r,
    IsWatched-of_cancellation p.controls_loop _ (p.system.threads 0).task w,
  )
  Next-IsEnding (of_listener (panics awaits done)) (r, w) = rw (← done) (r, w)
  Next-IsEnding {p} (of_health (serves starts done)) (r, w) =
      rw (← done) (ap (λ l. l ++ serving ∷ []) (rw starts at r), w)
  Next-IsEnding {p} (of_health (reports runs cancelled done)) (r, w) =
      rw (← done) (inr (ap (λ l. l ++ not_serving ∷ []) (rw runs at r), cancelled), w)
  Next-IsEnding {p} (of_health (fails runs done)) (r, w) =
      rw (← done) (
        inl (rw runs at r),
        IsWatched-of_cancellation p.controls_loop _ (p.system.threads 0).task w,
      )
  Next-IsEnding {p} (of_health (exits runs done)) (r, w) = rw (← done) (inl (rw runs at r), w)
  Next-IsEnding (of_controls (controls_receives msg reads waits done)) (r, w) =
      rw (← done) (r, rw reads tt)
  Next-IsEnding {p} (of_controls (controls_turns {loop} turn waits done)) (r, w) =
      rw (← done) (r, IsWatched-of_Turn p.is_cancelled (p.system.threads 0).task turn waits)
  Next-IsEnding (of_phoebus (hydrated phase waits done)) (r, w) = rw (← done) (r, w)
  Next-IsEnding {p} (of_phoebus (topic_receives k monitor now msg monitored reads waits done))
        (r, w) =
      rw (← done) (
        r,
        IsWatched-of_waiting p.controls_loop _ (p.system.threads 0).task _
            (λ e.
              ap Thread.task (update_other p.system.threads (suc (suc k)) 0 _ (omega arith)) ∙ e)
            w,
      )
  Next-IsEnding (of_phoebus (monitor_turns k monitor monitored turn waits done)) (r, w) =
      rw (← done) (r, w)
  Next-IsEnding (of_phoebus (drops_monitor k is_over done)) (r, w) = rw (← done) (r, w)
  Next-IsEnding (of_phoebus (stops cancelled done)) (r, w) = rw (← done) (r, w)
  Next-IsEnding (of_phoebus (joins phase all_finished done)) (r, w) = rw (← done) (r, w)
  Next-IsEnding {p} (proceeds i done) (r, w) = rw (← done) (
    r,
    IsWatched-of_waiting p.controls_loop _ (p.system.threads 0).task _
        (λ e. proceeds-Waits env (controls_sync config) p.system i 0 e) w,
  )

  Run-first_IsEnding : {p : Program V} → Run env config (first_program env config) p → IsEnding p
  Run-first_IsEnding begin = unfold first_program in (refl, tt)
  Run-first_IsEnding (and_then run next) = Next-IsEnding next (Run-first_IsEnding run)

  -- If `main` starts the program, then in whatever it comes to: the health server reports
  -- `Serving` first, and after it nothing but at most one `NotServing`, only after a cancellation
  -- and as the last thing it does; and the loop of the Controls synchronizer is never dropped, has
  -- returned only after a cancellation, and then has no message left in work.
  pub Run-IsEnding :
      (subscribed : Bool) (variable : String → Option String) (p : Program V) {p' : Program V}
      → main env subscribed variable ≡ ok (config, p)
      → Run env config p p'
      → IsEnding p'
  Run-IsEnding subscribed variable p started run =
      Run-first_IsEnding (rw (main-first env config subscribed variable p started) at run)
