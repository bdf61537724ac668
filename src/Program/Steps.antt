-- ===== src/Program/Steps.antt =====
-- What can happen next in the program of main.rs: in the listener and the health server of main.rs,
-- in `synchronize` of controls/mod.rs and of phoebus/mod.rs, and in the tasks at their accesses.
use alarms_actions_synchroni.Prelude.{ℕ, true, some, [], ◌∷◌, ◌≡◌, ◌++◌}
use alarms_actions_synchroni.Prelude.Int.{ℤ}
use alarms_actions_synchroni.External.PubSub.{StringMessage}
use alarms_actions_synchroni.World.{Env}
use alarms_actions_synchroni.Tasks.{returned}
use alarms_actions_synchroni.Startup.{SynchronizerConfig}
use alarms_actions_synchroni.Phoebus.Monitor.{Monitor}
use alarms_actions_synchroni.Phoebus.Synchronizer.{monitors}
use alarms_actions_synchroni.System.Interleaving.{from_controls, from_topic, update, advance}
use alarms_actions_synchroni.Program.{
  awaiting, gone, serving, not_serving, spawned, running, ended, Loop, reading, finished, Turn,
  hydrating, watching, stopped, Program, controls_sync, controls_thread, hydration_thread,
  monitor_thread, without_thread, nth, starts, aborted, first_loop,
}

module _ {V D : Type 0} (env : Env V D) (config : SynchronizerConfig) where
  -- What can happen next in the task of `spawn_cancel_listener`: Ctrl+C, or the panic of its
  -- `expect`, which ends just this task.
  pub data ListenerNext (p p' : Program V) : Type 0 where
    ctrl_c :
        p.listener ≡ awaiting
        → record p { is_cancelled = true; listener = gone } ≡ p'
        → ListenerNext p p'
    panics : p.listener ≡ awaiting → record p { listener = gone } ≡ p' → ListenerNext p p'

  -- The health server: it reports and serves, until a cancellation, its own failure, or its end
  -- without one.
  pub data HealthNext (p p' : Program V) : Type 0 where
    serves :
        p.health ≡ spawned
        → record p { statuses = p.statuses ++ serving ∷ []; health = running } ≡ p'
        → HealthNext p p'
    reports :
        p.health ≡ running
        → p.is_cancelled ≡ true
        → record p { statuses = p.statuses ++ not_serving ∷ []; health = ended } ≡ p'
        → HealthNext p p'
    fails :
        p.health ≡ running → record p { is_cancelled = true; health = ended } ≡ p' → HealthNext p p'
    exits : p.health ≡ running → record p { health = ended } ≡ p' → HealthNext p p'

  -- The Controls synchronizer: a message, and its loop between messages.
  pub data ControlsNext (p p' : Program V) : Type 0 where
    controls_receives :
        (msg : StringMessage)
        → p.controls_loop ≡ reading
        → (p.system.threads controls_thread).task ≡ returned tt
        → record p { system = starts env config controls_thread (from_controls msg) p.system } ≡ p'
        → ControlsNext p p'
    controls_turns :
        {loop : Loop}
        → Turn p.is_cancelled p.controls_loop loop
        → (p.system.threads controls_thread).task ≡ returned tt
        → record p { controls_loop = loop } ≡ p'
        → ControlsNext p p'

  -- `synchronize` of phoebus/mod.rs returns: its hydration is dropped with it, wherever it is.
  -- The set of monitors is dropped too, which only schedules the end of their tasks.
  abbrev pub returned_phoebus : Program V → Program V
  returned_phoebus p = record p {
    phase = stopped;
    system = without_thread hydration_thread p.system;
  }

  -- The Phoebus synchronizer.
  pub data PhoebusNext (p p' : Program V) : Type 0 where
    -- The hydration has ended, and the monitors are spawned.
    hydrated :
        p.phase ≡ hydrating
        → (p.system.threads hydration_thread).task ≡ returned tt
        → record p { phase = watching; monitor_loops = λ k. first_loop (nth k (monitors config)) }
          ≡ p'
        → PhoebusNext p p'
    -- A message of a topic, and the loop of its monitor between messages.
    topic_receives :
        (k : ℕ) (monitor : Monitor) (now : ℤ) (msg : StringMessage)
        → nth k (monitors config) ≡ some monitor
        → p.monitor_loops k ≡ reading
        → (p.system.threads (monitor_thread k)).task ≡ returned tt
        → record p {
          system = starts env config (monitor_thread k) (from_topic monitor now msg) p.system;
        }
          ≡ p'
        → PhoebusNext p p'
    monitor_turns :
        (k : ℕ) (monitor : Monitor) {loop : Loop}
        → nth k (monitors config) ≡ some monitor
        → Turn p.is_cancelled (p.monitor_loops k) loop
        → (p.system.threads (monitor_thread k)).task ≡ returned tt
        → record p { monitor_loops = update p.monitor_loops k loop } ≡ p'
        → PhoebusNext p p'
    -- The end: on a cancellation, in either `select!`, or when all monitors have returned.
    stops : p.is_cancelled ≡ true → returned_phoebus p ≡ p' → PhoebusNext p p'
    joins :
        p.phase ≡ watching
        → ((k : ℕ) (monitor : Monitor)
            → nth k (monitors config) ≡ some monitor
            → p.monitor_loops k ≡ finished)
        → returned_phoebus p ≡ p'
        → PhoebusNext p p'
    -- At some moment after it, a monitor's task ends at an await. Until then it goes on.
    drops_monitor :
        (k : ℕ)
        → p.phase ≡ stopped
        → record p {
          monitor_loops = update p.monitor_loops k (aborted (p.monitor_loops k));
          system = without_thread (monitor_thread k) p.system;
        }
          ≡ p'
        → PhoebusNext p p'

  -- What can happen next in the program that `main` has started.
  pub data Next (p p' : Program V) : Type 0 where
    of_listener : ListenerNext p p' → Next p p'
    of_health : HealthNext p p' → Next p p'
    of_controls : ControlsNext p p' → Next p p'
    of_phoebus : PhoebusNext p p' → Next p p'
    -- A task makes its next access.
    proceeds :
        (i : ℕ)
        → record p {
          system = record {
            world = (advance env (controls_sync config) (p.system.threads i) p.system.world).1;
            threads =
                update p.system.threads i
                  (advance env (controls_sync config) (p.system.threads i) p.system.world).0;
          };
        }
          ≡ p'
        → Next p p'

  -- What the program can come to.
  pub data Run (p : Program V) : Program V → Type 0 where
    begin : Run p p
    and_then : {p' p'' : Program V} → Run p p' → Next p' p'' → Run p p''
