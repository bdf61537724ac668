-- ===== src/Tests/Isolating.antt =====
-- A bypass from Controls, with a config of another device handled between its accesses.
use alarms_actions_synchroni.Prelude.{
  ℕ, String, some, none, List, [], ◌∷◌, ◌≡◌, ◌≢◌, refl, arith, ite, ℕ_discrete, string_eq, inl, inr,
}
use alarms_actions_synchroni.Prelude.Int.{pos}
use alarms_actions_synchroni.World.{World}
use alarms_actions_synchroni.Tasks.{returned}
use alarms_actions_synchroni.Tasks.Isolated.{entry, Uses}
use alarms_actions_synchroni.System.Interleaving.{
  Job, from_topic, System, idle, at_rest, update, job_task, do_job, Moves, takes, advances, here,
}
use alarms_actions_synchroni.System.Interleaving.Isolation.{Undisturbed, entry-Moves}
use alarms_actions_synchroni.System.Interleaving.Commuting.{AreApart, do_job-commutes}
use alarms_actions_synchroni.Tests.Instance.{env, sync, monitor, message, fresh_world, device}
use alarms_actions_synchroni.Tests.Interleaving.{bypass, OfTwo, after}
use alarms_actions_synchroni.Tests.Run.{run_tasks}

-- The config of a device that is not in scope yet.
abbrev other_config : Job
other_config = from_topic monitor (pos 0) (message "config:/Vacuum/B:OTHER" "false")

abbrev bypass_started : System String
bypass_started = record (at_rest fresh_world) {
  threads =
      update (at_rest fresh_world).threads 0
        (record { task = job_task env sync bypass; seen = none });
}

abbrev both_started : System String
both_started = record bypass_started {
  threads =
      update bypass_started.threads 1
        (record { task = job_task env sync other_config; seen = none });
}

abbrev alternating : List ℕ
alternating = 0 ∷ 1 ∷ 0 ∷ 1 ∷ 1 ∷ 0 ∷ 1 ∷ 0 ∷ []

-- Moves that leave the device to the first thread.
abbrev Apart : System String → Type 0
Apart s =
    (moves : Moves env sync OfTwo bypass_started s) × Undisturbed env sync OfTwo device 0 moves

both-Apart : Apart both_started
unfolding run_tasks
both-Apart = (
  Moves.then here (takes 1 other_config (omega arith) refl refl),
  (tt, (λ e. ground (arith, e), (λ e. cc, tt))),
)

after-Apart : (order : List ℕ) {s : System String} → Apart s → Apart (after order s)
after-Apart [] apart = apart
after-Apart (i ∷ order) (moves, undisturbed) =
    after-Apart order (Moves.then moves (advances i refl), (undisturbed, tt))

others_idle : (j : ℕ) → 0 ≢ j → Uses (λ e. device ≢ e) (bypass_started.threads j).task
others_idle j away = of_test (ℕ_discrete 0 j)
  where
    of_test :
        (t : Dec (0 ≡ j))
        → Uses
            (λ e. device ≢ e)
            (ite t (record { task = job_task env sync bypass; seen = none }) idle).task
    of_test (yes same) = absurd (away same)
    of_test (no other) = tt

bypass_taken : (bypass_started.threads 0).task ≡ job_task env sync bypass
unfolding run_tasks
bypass_taken = refl

ended : ((after alternating both_started).threads 0).task ≡ returned tt
unfolding run_tasks
ended = refl

entry-Moves_example :
    (w : World String) × (do_job env sync bypass fresh_world ≡ some w)
    × (entry device (after alternating both_started).world ≡ entry device w)
entry-Moves_example =
    entry-Moves env sync OfTwo device 0 bypass (after-Apart alternating both-Apart).0 bypass_taken
      others_idle (after-Apart alternating both-Apart).1 ended

bypass-other_config-AreApart : AreApart env sync bypass other_config
unfolding run_tasks
bypass-other_config-AreApart d = elim (string_eq.dec d device) [
  | yes mine ↦ inr (λ e. cc, tt)
  | no other ↦ inl (other, tt)
]

do_job-commutes_example :
    (wa : World String) × (wab : World String) × (wb : World String) × (wba : World String)
    × (do_job env sync bypass fresh_world ≡ some wa)
    × (do_job env sync other_config wa ≡ some wab)
    × (do_job env sync other_config fresh_world ≡ some wb)
    × (do_job env sync bypass wb ≡ some wba)
    × ((d : String) → entry d wab ≡ entry d wba)
do_job-commutes_example =
    do_job-commutes env sync bypass other_config fresh_world bypass-other_config-AreApart
