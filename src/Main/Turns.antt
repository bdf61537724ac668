-- ===== src/Main/Turns.antt =====
-- The turns that the loops of the synchronizers make after a cancellation.
use alarms_actions_synchroni.Prelude.{
  ℕ, zero, suc, ◌+◌, ◌≤◌, Bool, true, ◌≡◌, refl, Option, none, some, arith, ite, ℕ_discrete,
}
use alarms_actions_synchroni.World.{Env}
use alarms_actions_synchroni.Startup.{SynchronizerConfig}
use alarms_actions_synchroni.System.Interleaving.{update}
use alarms_actions_synchroni.Phoebus.Monitor.{Monitor}
use alarms_actions_synchroni.Phoebus.Synchronizer.{monitors}
use alarms_actions_synchroni.Main.Starting.{IsMonitored}
use alarms_actions_synchroni.Main.Ordering.{Ordered, Run-keeps_Ordered}
use alarms_actions_synchroni.Program.{
  Program, Loop, unspawned, connecting, reading, checking, sleeping, finished, dropped, Turn,
  aborted, first_loop, nth, hydrating, connects, breaks, drops, returns, pauses, wakes,
}
use alarms_actions_synchroni.Program.Steps.{
  drops_monitor, PhoebusNext, Next, Run, begin, and_then, of_listener, of_health, of_controls,
  of_phoebus, ctrl_c, panics, serves, reports, fails, exits, controls_receives, controls_turns,
  hydrated, topic_receives, monitor_turns, stops, joins, proceeds,
}

-- The turns that a loop still makes when there is a cancellation.
abbrev pub rank : Loop → ℕ
rank sleeping = 4
rank unspawned = 3
rank connecting = 3
rank reading = 2
rank checking = 1
rank finished = 0
rank dropped = 0

pub rank_bound : (loop : Loop) → rank loop ≤ 4
rank_bound sleeping = omega arith
rank_bound unspawned = omega arith
rank_bound connecting = omega arith
rank_bound reading = omega arith
rank_bound checking = omega arith
rank_bound finished = omega arith
rank_bound dropped = omega arith

rank-aborted : (loop : Loop) → rank (aborted loop) ≤ rank loop
rank-aborted unspawned = omega arith
rank-aborted connecting = omega arith
rank-aborted reading = omega arith
rank-aborted checking = omega arith
rank-aborted sleeping = omega arith
rank-aborted finished = omega arith
rank-aborted dropped = omega arith

rank-first_loop : (monitor : Option Monitor) → rank (first_loop monitor) ≤ 3
rank-first_loop none = omega arith
rank-first_loop (some monitor) = omega arith

rank-Turn :
    (b : Bool) {loop loop' : Loop} → b ≡ true → Turn b loop loop' → rank loop ≡ suc (rank loop')
rank-Turn b c connects = refl
rank-Turn b c (breaks e) = refl
rank-Turn b c drops = refl
rank-Turn b c (returns e) = refl
rank-Turn b c (pauses e) = absurd (ground (arith, c, e))
rank-Turn b c wakes = refl

-- The loop's task is spawned, and was not dropped.
abbrev pub IsSpawned : Loop → Type 0
IsSpawned unspawned = ⊥
IsSpawned dropped = ⊥
IsSpawned _ = Unit

-- A next turn towards the end.
pub some-Turn :
    (loop : Loop) (n : ℕ)
    → IsSpawned loop
    → rank loop ≡ suc n
    → (loop' : Loop) × Turn true loop loop' × (rank loop' ≡ n) × IsSpawned loop'
some-Turn unspawned n spawned e = absurd spawned
some-Turn sleeping n spawned e = (connecting, wakes, omega (arith, e), tt)
some-Turn connecting n spawned e = (reading, connects, omega (arith, e), tt)
some-Turn reading n spawned e = (checking, breaks refl, omega (arith, e), tt)
some-Turn checking n spawned e = (finished, returns refl, omega (arith, e), tt)
some-Turn finished n spawned e = absurd (omega (arith, e))
some-Turn dropped n spawned e = absurd spawned

pub finished_of_rank : (loop : Loop) → IsSpawned loop → rank loop ≡ 0 → loop ≡ finished
finished_of_rank unspawned spawned e = absurd spawned
finished_of_rank sleeping spawned e = absurd (omega (arith, e))
finished_of_rank connecting spawned e = absurd (omega (arith, e))
finished_of_rank reading spawned e = absurd (omega (arith, e))
finished_of_rank checking spawned e = absurd (omega (arith, e))
finished_of_rank finished spawned e = refl
finished_of_rank dropped spawned e = absurd spawned

-- The loop of the Controls synchronizer, and then those of the monitors.
abbrev nth_loop : Loop → (ℕ → Loop) → ℕ → Loop
nth_loop controls_loop monitor_loops zero = controls_loop
nth_loop controls_loop monitor_loops (suc k) = monitor_loops k

abbrev pub loop_at : {V : Type 0} → ℕ → Program V → Loop
loop_at i p = nth_loop p.controls_loop p.monitor_loops i

-- Whether the loop is this one.
abbrev tick : ℕ → ℕ → ℕ
tick zero zero = 1
tick (suc j) (suc k) = ite (ℕ_discrete j k) 1 0
tick _ _ = 0

none_added : (n : ℕ) → 0 + n ≤ n
none_added n = omega arith

tick-controls :
    (b : Bool) (loop loop' : Loop) (loops : ℕ → Loop) (i : ℕ)
    → b ≡ true
    → Turn b loop loop'
    → tick 0 i + rank (nth_loop loop' loops i) ≤ rank (nth_loop loop loops i)
tick-controls b loop loop' loops zero c turn = omega (arith, rank-Turn b c turn)
tick-controls b loop loop' loops (suc k) c turn = none_added (rank (loops k))

tick-monitor :
    (b : Bool) (loop loop' : Loop) (loops : ℕ → Loop) (j i : ℕ)
    → b ≡ true
    → Turn b (loops j) loop'
    → tick (suc j) i + rank (nth_loop loop (update loops j loop') i) ≤ rank (nth_loop loop loops i)
tick-monitor b loop loop' loops j zero c turn = none_added (rank loop)
tick-monitor b loop loop' loops j (suc k) c turn = of_test (ℕ_discrete j k)
  where
    of_test : (d : Dec (j ≡ k)) → ite d 1 0 + rank (ite d loop' (loops k)) ≤ rank (loops k)
    of_test (yes same) = rw (← same) (omega (arith, rank-Turn b c turn))
    of_test (no other) = none_added (rank (loops k))

rank-dropped :
    (loops : ℕ → Loop) (k j : ℕ) → 0 + rank (update loops k (aborted (loops k)) j) ≤ rank (loops j)
rank-dropped loops k j = of_test (ℕ_discrete k j)
  where
    of_test : (d : Dec (k ≡ j)) → 0 + rank (ite d (aborted (loops k)) (loops j)) ≤ rank (loops j)
    of_test (yes same) = rw same (omega (arith, rank-aborted (loops j)))
    of_test (no other) = none_added (rank (loops j))

module _ {V D : Type 0} (env : Env V D) (config : SynchronizerConfig) where
  -- The turns that a loop makes in a run.
  abbrev turn_in : ℕ → {p p' : Program V} → Next env config p p' → ℕ
  turn_in i (of_controls (controls_turns turn waits done)) = tick 0 i
  turn_in i (of_phoebus (monitor_turns k monitor monitored turn waits done)) = tick (suc k) i
  turn_in i _ = 0

  abbrev pub turns : ℕ → {p p' : Program V} → Run env config p p' → ℕ
  turns i begin = 0
  turns i (and_then run next) = turns i run + turn_in i next

  PhoebusNext-rank :
      (i : ℕ) {p p' : Program V} (next : PhoebusNext env config p p')
      → p.is_cancelled ≡ true
      → (p.phase ≡ hydrating → (k : ℕ) → p.monitor_loops k ≡ unspawned)
      → (p'.is_cancelled ≡ true)
        × (turn_in i (of_phoebus next) + rank (loop_at i p') ≤ rank (loop_at i p))
  PhoebusNext-rank zero (hydrated phase waits done) c fresh = rw (← done) (c, none_added _)
  PhoebusNext-rank (suc k) {p} (hydrated phase waits done) c fresh =
      rw (← done, fresh phase k) (c, omega (arith, rank-first_loop (nth k (monitors config))))
  PhoebusNext-rank i (topic_receives k monitor now msg monitored reads waits done) c fresh =
      rw (← done) (c, none_added _)
  PhoebusNext-rank i {p} (monitor_turns k monitor monitored turn waits done) c fresh =
      rw (← done) (c, tick-monitor p.is_cancelled p.controls_loop _ p.monitor_loops k i c turn)
  PhoebusNext-rank i (stops cancelled done) c fresh = rw (← done) (c, none_added _)
  PhoebusNext-rank i (joins phase all_finished done) c fresh = rw (← done) (c, none_added _)
  PhoebusNext-rank zero (drops_monitor k is_over done) c fresh = rw (← done) (c, none_added _)
  PhoebusNext-rank (suc j) {p} (drops_monitor k is_over done) c fresh =
      rw (← done) (c, rank-dropped p.monitor_loops k j)

  Next-rank :
      (i : ℕ) {p p' : Program V} (next : Next env config p p')
      → p.is_cancelled ≡ true
      → (p.phase ≡ hydrating → (k : ℕ) → p.monitor_loops k ≡ unspawned)
      → (p'.is_cancelled ≡ true) × (turn_in i next + rank (loop_at i p') ≤ rank (loop_at i p))
  Next-rank i (of_listener (ctrl_c awaits done)) c fresh = rw (← done) (refl, none_added _)
  Next-rank i (of_listener (panics awaits done)) c fresh = rw (← done) (c, none_added _)
  Next-rank i (of_health (serves starts done)) c fresh = rw (← done) (c, none_added _)
  Next-rank i (of_health (reports runs cancelled done)) c fresh = rw (← done) (c, none_added _)
  Next-rank i (of_health (fails runs done)) c fresh = rw (← done) (refl, none_added _)
  Next-rank i (of_health (exits runs done)) c fresh = rw (← done) (c, none_added _)
  Next-rank i (of_controls (controls_receives msg reads waits done)) c fresh =
      rw (← done) (c, none_added _)
  Next-rank i {p} (of_controls (controls_turns turn waits done)) c fresh =
      rw (← done) (c, tick-controls p.is_cancelled p.controls_loop _ p.monitor_loops i c turn)
  Next-rank i (of_phoebus next) c fresh = PhoebusNext-rank i next c fresh
  Next-rank i (proceeds j done) c fresh = rw (← done) (c, none_added _)

  pub Run-rank :
      (i : ℕ) {p p' : Program V} (run : Run env config p p')
      → (monitored : IsMonitored config) → Ordered env config monitored p
      → p.is_cancelled ≡ true
      → (p'.is_cancelled ≡ true) × (turns i run + rank (loop_at i p') ≤ rank (loop_at i p))
  Run-rank i {p} begin monitored order c = (c, none_added (rank (loop_at i p)))
  Run-rank i (and_then run next) monitored order c =
      let (c', e) = Run-rank i run monitored order c in
      let now_ordered = Run-keeps_Ordered env config monitored run order in
      let (c'', f) = Next-rank i next c' (λ phase. rw phase at now_ordered.0.0) in
      (c'', omega (arith, e, f))
