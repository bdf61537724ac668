-- ===== src/Tests/Interleaving.antt =====
-- Two tasks on one device: an acknowledgement from Phoebus and a bypass from Controls.
use alarms_actions_synchroni.Prelude.{
  ℕ, String, none, some, List, [], ◌∷◌, ◌≡◌, refl, ◌⊎◌, zero, suc, ◌<◌, ◌≤◌, ◌+◌, arith, length,
}
use alarms_actions_synchroni.Prelude.Int.{pos}
use alarms_actions_synchroni.Prelude.HashMap.{get}
use alarms_actions_synchroni.Models.Proto.{State}
use alarms_actions_synchroni.World
use alarms_actions_synchroni.Tasks.{returned}
use alarms_actions_synchroni.System.Invariants.{Follows}
use alarms_actions_synchroni.System.Interleaving.{
  Job, from_controls, from_topic, System, at_rest, update, job_task, advance, Moves, takes,
  advances, here,
}
use alarms_actions_synchroni.System.Interleaving.Safety.{IsStaleWrite, Moves-Follows}
use alarms_actions_synchroni.System.Interleaving.Returning.{requests, postings, job_task-returns}
use alarms_actions_synchroni.System.Interleaving.Amplification.{granted, sent-Moves}
use alarms_actions_synchroni.Tasks.Interference.{after_accesses}
use alarms_actions_synchroni.Tests.Instance.{
  bypassed_world, env, sync, monitor, message, fresh_world, topic, device,
}
use alarms_actions_synchroni.Tests.Run.{run_tasks}

abbrev acknowledgement : Job
acknowledgement = from_topic monitor (pos 0) (message "command:/Vacuum/M:OUTTMP" "acknowledge")

abbrev pub bypass : Job
bypass = from_controls (message "any" "bypassed")

abbrev pub OfTwo : ℕ → Job → Type 0
OfTwo i job = i < 2

-- Both tasks are started, and neither has made an access.
abbrev started : System String
started = record (at_rest fresh_world) {
  threads =
      update
        (update (at_rest fresh_world).threads 0
          (record { task = job_task env sync acknowledgement; seen = none }))
        1 (record { task = job_task env sync bypass; seen = none });
}

-- The threads of the list make one access each, in its order.
abbrev pub after : List ℕ → System String → System String
after [] s = s
after (i ∷ order) s = after order (record {
  world = (advance env sync (s.threads i) s.world).1;
  threads = update s.threads i (advance env sync (s.threads i) s.world).0;
})

started-Moves : Moves env sync OfTwo (at_rest fresh_world) started
unfolding run_tasks
started-Moves =
    Moves.then (Moves.then here (takes 0 acknowledgement (omega arith) refl refl))
      (takes 1 bypass (omega arith) refl refl)

after-Moves :
    (order : List ℕ) {s : System String}
    → Moves env sync OfTwo (at_rest fresh_world) s
    → Moves env sync OfTwo (at_rest fresh_world) (after order s)
after-Moves [] moves = moves
after-Moves (i ∷ order) moves = after-Moves order (Moves.then moves (advances i refl))

-- The state of the device is read, then the bypass is handled as a whole, then the acknowledgement
-- is requested twice and recorded over the bypass.
abbrev overtaken : List ℕ
overtaken = 0 ∷ 1 ∷ 1 ∷ 1 ∷ 1 ∷ 0 ∷ 0 ∷ []

bypass_recorded :
    get device (after overtaken started).world.alarm_states
    ≡ some (record { state = State.bypassed; wake = none })
unfolding run_tasks
bypass_recorded = refl

bypass_lost :
    get device (after (0 ∷ []) (after overtaken started)).world.alarm_states
    ≡ some (record { state = State.acknowledged; wake = none })
unfolding run_tasks
bypass_lost = refl

-- The message that the handling of the bypass publishes, back from Phoebus.
abbrev echo : Job
echo = from_topic monitor (pos 0) (message "config:/Vacuum/M:OUTTMP" "false")

-- The bypass is published, and not yet recorded, when its echo is handled.
abbrev echo_started : System String
echo_started =
    let s = after (1 ∷ 1 ∷ 1 ∷ []) (record (at_rest fresh_world) {
      threads =
          update (at_rest fresh_world).threads 1
            (record { task = job_task env sync bypass; seen = none });
    }) in
    record s {
      threads = update s.threads 0 (record { task = job_task env sync echo; seen = none });
    }

echo_published :
    echo_started.world.published
    ≡ (record { host = "phoebus"; topic = topic }, message "config:/Vacuum/M:OUTTMP" "false") ∷ []
unfolding run_tasks
echo_published = refl

-- It is then not suppressed: the bypass is requested of the service that it came from.
echo_requested :
    (after (0 ∷ 0 ∷ 0 ∷ 0 ∷ []) echo_started).world.sent
    ≡ ("service", World.bypass ("M:OUTTMP#Epics" ∷ []) "operator")
      ∷ ("service", World.bypass ("M:OUTTMP#Epics" ∷ []) "operator")
      ∷ []
unfolding run_tasks
echo_requested = refl

-- The next move after the requests is the one that loses the bypass.
Moves-Follows_example :
    Follows
      (get device (after overtaken started).world.alarm_states)
      (get device (after (0 ∷ []) (after overtaken started)).world.alarm_states)
    ⊎ ((i : ℕ) × IsStaleWrite device
          ((after overtaken started).threads i)
          (after overtaken started).world
        × ((after (0 ∷ []) (after overtaken started)).world
            ≡ (advance env sync
                ((after overtaken started).threads i)
                (after overtaken started).world).1))
Moves-Follows_example =
    Moves-Follows env sync OfTwo device fresh_world (after-Moves overtaken started-Moves)
      (advances 0 refl)

-- The device is bypassed after the first access.
abbrev changing : ℕ → World.World String
changing zero = fresh_world
changing (suc k) = bypassed_world

job_task-returns_example :
    after_accesses env 6 changing (job_task env sync acknowledgement) ≡ returned tt
job_task-returns_example = job_task-returns env sync acknowledgement changing

sent-Moves_example :
    (length (after overtaken started).world.sent
      ≤ 0 + granted env sync OfTwo requests (after-Moves overtaken started-Moves))
    × (length (after overtaken started).world.published
        ≤ 0 + granted env sync OfTwo postings (after-Moves overtaken started-Moves))
sent-Moves_example =
    sent-Moves env sync OfTwo 2 (λ i job allowed. allowed) fresh_world
      (after-Moves overtaken started-Moves)
