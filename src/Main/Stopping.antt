-- ===== src/Main/Stopping.antt =====
-- How the program of main.rs comes to its end after a cancellation.
use alarms_actions_synchroni.Prelude.{
  ℕ, zero, suc, ◌+◌, ◌≤◌, String, Bool, true, Option, ok, ◌≡◌, refl, sym, subst, arith,
}
use alarms_actions_synchroni.World.{World, Env}
use alarms_actions_synchroni.Tasks.{Task, returned}
use alarms_actions_synchroni.Startup.{SynchronizerConfig}
use alarms_actions_synchroni.System.Interleaving.{update, update_self, advance}
use alarms_actions_synchroni.Program.{
  Program, Loop, unspawned, connecting, reading, checking, sleeping, dropped, finished, Turn,
  stopped, controls_sync,
}
use alarms_actions_synchroni.Program.Steps.{
  of_controls, of_phoebus, Next, Run, begin, and_then, controls_receives, controls_turns,
  topic_receives, stops, proceeds,
}
use alarms_actions_synchroni.Main.{main}
use alarms_actions_synchroni.Main.Starting.{main-first, main-IsMonitored}
use alarms_actions_synchroni.Main.Ordering.{Run-first_Ordered}
use alarms_actions_synchroni.Main.Ending.{IsWatched, Run-IsEnding}
use alarms_actions_synchroni.Main.Refining.{Run-Moves}
use alarms_actions_synchroni.Main.Turns.{
  IsSpawned, rank, rank_bound, some-Turn, finished_of_rank, loop_at, turns, Run-rank,
}
use alarms_actions_synchroni.Main.Brevity.{Brief, Brief-step, Brief-zero, Moves-IsBrief}

IsSpawned-of_watched :
    {V : Type 0} (loop : Loop) (b : Bool) (task : Task V (Unit {0}))
    → IsWatched loop b task
    → IsSpawned loop
IsSpawned-of_watched unspawned b task watched = watched
IsSpawned-of_watched connecting b task watched = tt
IsSpawned-of_watched reading b task watched = tt
IsSpawned-of_watched checking b task watched = tt
IsSpawned-of_watched sleeping b task watched = tt
IsSpawned-of_watched finished b task watched = tt
IsSpawned-of_watched dropped b task watched = watched

module _ {V D : Type 0} (env : Env V D) (config : SynchronizerConfig) where
  -- The steps of a run, and the messages that are received in it.
  abbrev pub steps : {p p' : Program V} → Run env config p p' → ℕ
  steps begin = 0
  steps (and_then run next) = suc (steps run)

  abbrev received_in : {p p' : Program V} → Next env config p p' → ℕ
  received_in (of_controls (controls_receives msg reads waits done)) = 1
  received_in (of_phoebus (topic_receives k monitor now msg monitored reads waits done)) = 1
  received_in _ = 0

  abbrev pub received : {p p' : Program V} → Run env config p p' → ℕ
  received begin = 0
  received (and_then run next) = received run + received_in next

  -- The program can come to its end in so many steps, without another message.
  record Stops (n : ℕ) (p : Program V) : Type 0 where
    end : Program V
    run : Run env config p end
    controls : end.controls_loop ≡ finished
    phoebus : end.phase ≡ stopped
    quiet : received run ≡ 0
    short : steps run ≤ n

  -- A step before a run.
  before :
      {p p' p'' : Program V} → Next env config p p' → Run env config p' p'' → Run env config p p''
  before next begin = and_then begin next
  before next (and_then run last) = and_then (before next run) last

  steps-before :
      {p p' p'' : Program V} (next : Next env config p p') (run : Run env config p' p'')
      → (steps (before next run) ≡ suc (steps run))
        × (received (before next run) ≡ received run + received_in next)
  unfolding before
  steps-before next begin = (refl, omega arith)
  steps-before next (and_then run last) =
      let (e, f) = steps-before next run in (rw e refl, omega (arith, f))

  Stops-before :
      (n : ℕ) {p p' : Program V} (next : Next env config p p')
      → received_in next ≡ 0
      → Stops n p'
      → Stops (suc n) p
  Stops-before n next unread s =
      let (e, f) = steps-before next s.run in
      record {
        end = s.end;
        run = before next s.run;
        controls = s.controls;
        phoebus = s.phoebus;
        quiet = omega (arith, f, s.quiet, unread);
        short = omega (arith, e, s.short);
      }

  -- First the turns of the Controls synchronizer that are left, then the end of the other.
  Stops-turns :
      (n : ℕ) (p : Program V)
      → p.is_cancelled ≡ true
      → (p.system.threads 0).task ≡ returned tt
      → IsSpawned p.controls_loop
      → rank p.controls_loop ≡ n
      → Stops (suc n) p
  Stops-turns zero p c waits spawned e = record {
    end = _;
    run = and_then begin (of_phoebus (stops c refl));
    controls = finished_of_rank p.controls_loop spawned e;
    phoebus = refl;
    quiet = refl;
    short = omega arith;
  }
  Stops-turns (suc n) p c waits spawned e =
      let (loop, turn, r, spawned_too) = some-Turn p.controls_loop n spawned e in
      Stops-before (suc n)
        (of_controls
          (controls_turns (subst (λ b. Turn b p.controls_loop loop) (sym c) turn) waits refl))
        refl (Stops-turns n (record p { controls_loop = loop }) c waits spawned_too r)

  -- First the accesses that are left of the message in work.
  Stops-accesses :
      (n m : ℕ) (p : Program V)
      → p.is_cancelled ≡ true
      → Brief env config n (p.system.threads 0).task
      → IsSpawned p.controls_loop
      → m ≡ n + rank p.controls_loop
      → Stops (suc m) p
  Stops-accesses zero m p c brief spawned e =
      Stops-turns m p c (Brief-zero env config _ p.system.world brief) spawned (omega (arith, e))
  Stops-accesses (suc n) zero p c brief spawned e = absurd (omega (arith, e))
  Stops-accesses (suc n) (suc m) p c brief spawned e =
      let next = advance env (controls_sync config) (p.system.threads 0) p.system.world in
      Stops-before (suc m) (proceeds 0 refl) refl (
        Stops-accesses n m
          (record p {
            system = record { world = next.1; threads = update p.system.threads 0 next.0 };
          })
          c (rw (update_self p.system.threads 0 next.0) (advanced p.system.world)) spawned
          (omega (arith, e)))
    where
      advanced :
          (w : World V)
          → Brief env config n (advance env (controls_sync config) (p.system.threads 0) w).0.task
      advanced w = unfold advance in Brief-step env config n (p.system.threads 0).task w brief

  -- `main` has started the program, and there has been a cancellation. Whatever happens from then
  -- on, the loop of the Controls synchronizer and that of each monitor makes at most four more turns: it wakes,
  -- connects, leaves the stream and returns. And the program can come to its end in at most
  -- nine steps, without another message being received: four accesses of the message from Controls
  -- that is in work, the four turns of its loop, and the end of the Phoebus synchronizer.
  pub Run-stops :
      (subscribed : Bool) (variable : String → Option String) (p : Program V) {p' : Program V}
      → main env subscribed variable ≡ ok (config, p)
      → Run env config p p'
      → p'.is_cancelled ≡ true
      → ((i : ℕ) (later : Program V) (run : Run env config p' later) → turns env config i run ≤ 4)
        × ((end : Program V) × (run : Run env config p' end) × (end.controls_loop ≡ finished)
            × (end.phase ≡ stopped)
            × (received run ≡ 0)
            × (steps run ≤ 9))
  Run-stops subscribed variable p {p'} started run c =
      let (n, le, brief) =
        Moves-IsBrief env config (Run-Moves env config subscribed variable p started run) in
      let spawned =
        IsSpawned-of_watched p'.controls_loop _ _
          (Run-IsEnding env config subscribed variable p started run).1 in
      let s = Stops-accesses n (n + rank p'.controls_loop) p' c brief spawned refl in
      let monitored = main-IsMonitored env config subscribed variable p started in
      let order =
        Run-first_Ordered env config monitored
          (rw (main-first env config subscribed variable p started) at run) in
      (
        λ i later more.
            omega
              (arith, (Run-rank env config i more monitored order c).1, rank_bound (loop_at i p')),
        (
          s.end,
          s.run,
          s.controls,
          s.phoebus,
          s.quiet,
          omega (arith, le, s.short, rank_bound p'.controls_loop),
        ),
      )
