-- ===== src/System/Interleaving.antt =====
-- The two synchronizers as tasks that run at the same time on the same caches: any thread makes its
-- next access at any moment (controls/mod.rs, phoebus/mod.rs, phoebus/init/mod.rs,
-- phoebus/monitor/mod.rs).
pub mod Guards
pub mod Safety
pub mod Alone
pub mod Returning
pub mod Totals
pub mod Amplification
pub mod Bounds
pub mod Devices
pub mod Isolation
pub mod Commuting
use alarms_actions_synchroni.Prelude.{
  ℕ, String, Option, none, some, List, ◌≡◌, ◌≢◌, refl, ite, ℕ_discrete, Bool, if◌then◌else◌,
}
use alarms_actions_synchroni.Prelude.Int.{ℤ}
use alarms_actions_synchroni.Prelude.HashMap.{get}
use alarms_actions_synchroni.External.PubSub.{StringMessage}
use alarms_actions_synchroni.Models.Cache.{CachedState}
use alarms_actions_synchroni.World.{World, Env}
use alarms_actions_synchroni.Tasks.{Task, returned, read_state, ◌>>=◌, step}
use alarms_actions_synchroni.Controls
use alarms_actions_synchroni.Controls.{SyncImpl}
use alarms_actions_synchroni.Controls.Tasks as ControlsTasks
use alarms_actions_synchroni.Phoebus.Init.{get_existing_messages_from_phoebus}
use alarms_actions_synchroni.Phoebus.Init.Tasks.{get_existing_messages_task}
use alarms_actions_synchroni.Phoebus.Monitor
use alarms_actions_synchroni.Phoebus.Monitor.{Monitor}
use alarms_actions_synchroni.Phoebus.Monitor.Tasks as MonitorTasks

-- What a thread does between two waits for a message: the handling of one, or the hydration.
pub data Job : Type 0 where
  from_controls : StringMessage → Job
  from_topic : Monitor → ℤ → StringMessage → Job
  startup : String → List String → Job

-- What a task has last read of the states of the alarms, if anything: a device and its entry.
abbrev pub Seen : Type 0
Seen = Option (String × Option CachedState)

pub record Thread (V : Type 0) : Type 0 where
  pub task : Task V (Unit {0})
  pub seen : Seen

pub record System (V : Type 0) : Type 0 where
  pub world : World V
  pub threads : ℕ → Thread V

abbrev pub update : {A : Type 0} → (ℕ → A) → ℕ → A → ℕ → A
update f i a j = ite (ℕ_discrete i j) a (f j)

module _ {A : Type 0} (f : ℕ → A) (i : ℕ) where
  pub update_self : (a : A) → update f i a i ≡ a
  update_self a = of_test (ℕ_discrete i i)
    where
      of_test : (d : Dec (i ≡ i)) → ite d a (f i) ≡ a
      of_test (yes same) = refl
      of_test (no other) = absurd (other refl)

  pub update_other : (j : ℕ) (a : A) → i ≢ j → update f i a j ≡ f j
  update_other j a other = of_test (ℕ_discrete i j)
    where
      of_test : (d : Dec (i ≡ j)) → ite d a (f j) ≡ f j
      of_test (yes same) = absurd (other same)
      of_test (no _) = refl

-- A thread that waits for a message.
abbrev pub idle : {V : Type 0} → Thread V
idle = record { task = returned tt; seen = none }

abbrev pub note : {V A : Type 0} → Task V A → World V → Seen → Seen
note (read_state device next) w seen = some (device, get device w.alarm_states)
note _ w seen = seen

module _ {V D : Type 0} (env : Env V D) (sync : SyncImpl) where
  unfoldable pub job_task : Job → Task V (Unit {0})
  job_task (from_controls msg) = do
    result ← ControlsTasks.process_runtime_message_task env sync msg
    returned tt
  job_task (from_topic monitor now msg) =
      MonitorTasks.process_runtime_message_task env monitor now msg
  job_task (startup phoebus_host topics) = get_existing_messages_task env phoebus_host topics

  -- The same job without an interruption; `none` is a panic.
  unfoldable pub do_job : Job → World V → Option (World V)
  do_job (from_controls msg) w = some (Controls.process_runtime_message env sync msg w).1
  do_job (from_topic monitor now msg) w = Monitor.process_runtime_message env monitor now msg w
  do_job (startup phoebus_host topics) w =
      some (get_existing_messages_from_phoebus env phoebus_host topics w)

  -- The next access of a thread.
  unfoldable pub advance : Thread V → World V → Thread V × World V
  advance thread w = (
    record { task = (step env thread.task w).0; seen = note thread.task w thread.seen },
    (step env thread.task w).1,
  )

  -- Which thread may take which job is left open.
  module _ (may_take : ℕ → Job → Type 0) where
    pub data Move (s : System V) : System V → Type 0 where
      takes :
          (i : ℕ) (job : Job) {s' : System V}
          → may_take i job
          → (s.threads i).task ≡ returned tt
          → record s { threads = update s.threads i (record { task = job_task job; seen = none }) }
            ≡ s'
          → Move s s'
      advances :
          (i : ℕ) {s' : System V}
          → record {
            world = (advance (s.threads i) s.world).1;
            threads = update s.threads i (advance (s.threads i) s.world).0;
          }
            ≡ s'
          → Move s s'
      -- A cancellation drops some of the tasks, each at one of its accesses.
      aborts :
          (keeps : ℕ → Bool) {s' : System V}
          → record s { threads = λ i. if keeps i then s.threads i else idle } ≡ s'
          → Move s s'

    -- What the moves can reach from a system.
    pub data Moves (s : System V) : System V → Type 0 where
      here : Moves s s
      then : {s' s'' : System V} → Moves s s' → Move s' s'' → Moves s s''

-- Every thread waits.
abbrev pub at_rest : {V : Type 0} → World V → System V
at_rest w = record { world = w; threads = λ i. idle }
