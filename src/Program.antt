-- ===== src/Program.antt =====
-- The program that main.rs starts: the two synchronizers, the health server and the listener for
-- Ctrl+C as tasks that share one cancellation token and the two caches. The loops of the
-- synchronizers are those of controls/mod.rs and phoebus/monitor/mod.rs.
pub mod Steps
use alarms_actions_synchroni.Prelude.{
  ℕ, zero, suc, Bool, true, false, Option, none, some, List, [], ◌∷◌, ◌≡◌, ◌++◌, if◌then◌else◌,
}
use alarms_actions_synchroni.Prelude.Int.{ℤ}
use alarms_actions_synchroni.External.PubSub.{StringMessage}
use alarms_actions_synchroni.World.{Env}
use alarms_actions_synchroni.Tasks.{returned}
use alarms_actions_synchroni.Startup.{SynchronizerConfig, new_world}
use alarms_actions_synchroni.Controls.{SyncImpl, new}
use alarms_actions_synchroni.Phoebus.Monitor.{Monitor}
use alarms_actions_synchroni.Phoebus.Synchronizer.{monitors}
use alarms_actions_synchroni.System.Interleaving.{
  Job, from_controls, from_topic, startup, System, update, idle, at_rest, job_task, advance,
}

pub data ServingStatus : Type 0 where
  serving not_serving : ServingStatus

-- How far the task of `spawn_health_server` is.
pub data HealthTask : Type 0 where
  spawned running ended : HealthTask

-- Whether the task of `spawn_cancel_listener` still waits for Ctrl+C.
pub data ListenerTask : Type 0 where
  awaiting gone : ListenerTask

-- How far the loop of `synchronize` of controls/mod.rs, or of `start` of phoebus/monitor/mod.rs,
-- is: it is not spawned yet, connects, reads the stream, has left the stream and looks at the
-- token, sleeps for a second, has returned, or its task was dropped on the way.
pub data Loop : Type 0 where
  unspawned connecting reading checking sleeping finished dropped : Loop

-- What the loop does between two messages, by what the token reports.
pub data Turn (is_cancelled : Bool) : Loop → Loop → Type 0 where
  connects : Turn is_cancelled connecting reading
  -- `cancelled()` of the `select!`, and the end of the stream.
  breaks : is_cancelled ≡ true → Turn is_cancelled reading checking
  drops : Turn is_cancelled reading checking
  returns : is_cancelled ≡ true → Turn is_cancelled checking finished
  pauses : is_cancelled ≡ false → Turn is_cancelled checking sleeping
  wakes : Turn is_cancelled sleeping connecting

-- How far `synchronize` of phoebus/mod.rs is.
pub data Phase : Type 0 where
  hydrating watching stopped : Phase

pub record Program (V : Type 0) : Type 0 where
  -- What every clone of the token reports.
  pub is_cancelled : Bool
  -- The statuses that the health reporter has been given.
  pub statuses : List ServingStatus
  pub health : HealthTask
  pub listener : ListenerTask
  pub controls_loop : Loop
  pub phase : Phase
  -- The loop of each monitor, which is spawned when the hydration has ended.
  pub monitor_loops : ℕ → Loop
  pub system : System V

-- The two synchronizers that `begin_controls_sync` and `begin_phoebus_sync` make.
abbrev pub controls_sync : SynchronizerConfig → SyncImpl
controls_sync config =
    new config.controls_host config.controls_topic config.phoebus_host config.phoebus_topics

-- How a synchronizer is made, and what its task starts with.
pub record RuntimeSyncFactory (V S : Type 0) : Type 0 where
  new : SynchronizerConfig → S
  run : S → Program V → Program V

-- `tokio::spawn` of the synchronizer that the factory makes.
begin_sync : {V S : Type 0} → RuntimeSyncFactory V S → SynchronizerConfig → Program V → Program V
begin_sync factory sync_config p = factory.run (factory.new sync_config) p

-- The loop of a task that is aborted.
abbrev pub aborted : Loop → Loop
aborted unspawned = unspawned
aborted finished = finished
aborted _ = dropped

-- The loop of a monitor when it is spawned, if there is one.
abbrev pub first_loop : Option Monitor → Loop
first_loop none = unspawned
first_loop (some monitor) = connecting

-- The thread of the Controls synchronizer, of the hydration, and of each monitor.
abbrev pub controls_thread : ℕ
controls_thread = 0

abbrev pub hydration_thread : ℕ
hydration_thread = 1

abbrev pub monitor_thread : ℕ → ℕ
monitor_thread k = suc (suc k)

abbrev pub is_other : ℕ → ℕ → Bool
is_other zero zero = false
is_other (suc i) (suc j) = is_other i j
is_other _ _ = true

-- The thread's future is dropped.
abbrev pub without_thread : {V : Type 0} → ℕ → System V → System V
without_thread i s = record s { threads = λ j. if is_other i j then s.threads j else idle }

abbrev pub nth : {A : Type 0} → ℕ → List A → Option A
nth i [] = none
nth zero (a ∷ l) = some a
nth (suc i) (a ∷ l) = nth i l

module _ {V D : Type 0} (env : Env V D) where
  abbrev starts : SynchronizerConfig → ℕ → Job → System V → System V
  starts config i job s = record s {
    threads =
        update s.threads i (record { task = job_task env (controls_sync config) job; seen = none });
  }

  -- The program without a task: each is as one that has returned.
  abbrev without_tasks : Program V
  without_tasks = record {
    is_cancelled = false;
    statuses = [];
    health = ended;
    listener = gone;
    controls_loop = finished;
    phase = stopped;
    monitor_loops = λ k. unspawned;
    system = at_rest new_world;
  }

  -- `RuntimeSyncFactory` for `SyncImpl` of controls/mod.rs, and for that of phoebus/mod.rs, which
  -- is its configuration.
  abbrev controls_factory : RuntimeSyncFactory V SyncImpl
  controls_factory = record {
    new = controls_sync;
    run = λ synchronizer p. record p { controls_loop = connecting };
  }

  abbrev phoebus_factory : RuntimeSyncFactory V SynchronizerConfig
  phoebus_factory = record {
    new = λ sync_config. sync_config;
    run = λ synchronizer p. record p {
      phase = hydrating;
      system =
          starts synchronizer hydration_thread
            (startup synchronizer.phoebus_host synchronizer.phoebus_topics) p.system;
    };
  }

  begin_controls_sync : SynchronizerConfig → Program V → Program V
  unfolding begin_sync
  begin_controls_sync sync_config = begin_sync controls_factory sync_config

  begin_phoebus_sync : SynchronizerConfig → Program V → Program V
  unfolding begin_sync
  begin_phoebus_sync sync_config = begin_sync phoebus_factory sync_config

  -- What `main` has spawned when it waits in `try_join!`: the health server, the listener for
  -- Ctrl+C and the two synchronizers.
  unfoldable pub first_program : SynchronizerConfig → Program V
  unfolding begin_controls_sync begin_phoebus_sync
  first_program sync_config = begin_controls_sync sync_config (
      begin_phoebus_sync sync_config
        (record without_tasks { health = spawned; listener = awaiting }))
