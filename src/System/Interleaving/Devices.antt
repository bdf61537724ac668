-- ===== src/System/Interleaving/Devices.antt =====
-- The devices that a job is about, and what a handler does to their entries in the caches.
use alarms_actions_synchroni.Prelude.{
  Result, ok, err, ◌⊎◌, inl, inr, string_eq, String, List, Option, none, some, ◌≡◌, ◌≢◌, refl, sym,
  subst, ◌∙◌, arith,
}
use mathlib.Core.Option.{some-injective}
use alarms_actions_synchroni.World.{World, Env}
use alarms_actions_synchroni.Tasks.{returned, run_alone}
use alarms_actions_synchroni.Tasks.Binding.{left_by}
use alarms_actions_synchroni.Tasks.Isolated.{
  Entry, entry, Uses, Isolated, Settles, Each, Uses->>=, Isolated->>=,
}
use alarms_actions_synchroni.Tasks.Isolated.Steps.{Kept, Ends, run_alone-Kept, run_alone-Ends}
use alarms_actions_synchroni.Controls.{SyncImpl, deserialize_status}
use alarms_actions_synchroni.Controls.Tasks as ControlsTasks
use alarms_actions_synchroni.Controls.Tasks.Settling as ControlsSettling
use alarms_actions_synchroni.Controls.Tasks.Settling.{status_devices}
use alarms_actions_synchroni.Phoebus.Init.Tasks.Devices.{
  snapshot_devices, Uses-get_existing_messages,
}
use alarms_actions_synchroni.Phoebus.Monitor.Tasks.Devices as MonitorDevices
use alarms_actions_synchroni.Phoebus.Monitor.Tasks.Settling as MonitorSettling
use alarms_actions_synchroni.Phoebus.Monitor.Tasks.Devices.{parsed_devices, key_devices}
use alarms_actions_synchroni.System.Interleaving.{
  Job, from_controls, from_topic, startup, job_task, do_job,
}
use alarms_actions_synchroni.External.PubSub.{StringMessage}
use alarms_actions_synchroni.Models.Proto.{Status}
use alarms_actions_synchroni.Models.Phoebus.Key
use alarms_actions_synchroni.Models.Phoebus.Key.{Key, KeyParseError}
use alarms_actions_synchroni.Tasks.Isolated.Elsewhere.{Settles-elsewhere}
use alarms_actions_synchroni.Phoebus.Init.Tasks.Settling.{Settles-get_existing_messages}
use alarms_actions_synchroni.System.Interleaving.Returning.{
  accesses, requests, postings, Within-job_task,
}
use alarms_actions_synchroni.System.Interleaving.Alone.{run_alone-job_task}

module _ {V D : Type 0} (env : Env V D) (sync : SyncImpl) where
  -- The device of a status or of a key, if it can be read, and all the devices of a snapshot.
  abbrev pub devices : Job → List String
  devices (from_controls msg) = status_devices (deserialize_status env sync msg)
  devices (from_topic monitor now msg) = key_devices msg.key
  devices (startup phoebus_host topics) = snapshot_devices env phoebus_host topics

  pub Uses-job_task :
      (P : String → Type 0) (job : Job) → Each P (devices job) → Uses P (job_task env sync job)
  unfolding job_task
  Uses-job_task P (from_controls msg) each =
      Uses->>= (λ result. returned tt) P (ControlsTasks.process_runtime_message_task env sync msg)
        (ControlsSettling.Uses-process_runtime_message env sync P msg each) (λ result. tt)
  Uses-job_task P (from_topic monitor now msg) each =
      MonitorDevices.Uses-process_runtime_message env monitor P now msg each
  Uses-job_task P (startup phoebus_host topics) each =
      Uses-get_existing_messages env P phoebus_host topics each

  -- A device is the one of the status or of the key, or not.
  status_device-or_other :
      (d : String) (r : Result Status (Unit {0}))
      → Each (λ e. e ≡ d) (status_devices r) ⊎ Each (λ e. d ≢ e) (status_devices r)
  status_device-or_other d (err e) = inl tt
  status_device-or_other d (ok alarm) = elim (string_eq.dec alarm.device d) [
    | yes same ↦ inl (same, tt)
    | no other ↦ inr (λ same. other (sym same), tt)
  ]

  parsed_device-or_other :
      (d : String) (r : Result Key KeyParseError)
      → Each (λ e. e ≡ d) (parsed_devices r) ⊎ Each (λ e. d ≢ e) (parsed_devices r)
  parsed_device-or_other d (err e) = inl tt
  parsed_device-or_other d (ok key) = elim (string_eq.dec key.device d) [
    | yes same ↦ inl (same, tt)
    | no other ↦ inr (λ same. other (sym same), tt)
  ]

  key_device-or_other :
      (d : String) (key : Option String)
      → Each (λ e. e ≡ d) (key_devices key) ⊎ Each (λ e. d ≢ e) (key_devices key)
  key_device-or_other d none = inl tt
  key_device-or_other d (some text) = parsed_device-or_other d (Key.parse text)

  elsewhere :
      (job : Job) (d : String) (e : Entry V)
      → Each (λ f. d ≢ f) (devices job)
      → Settles d e (job_task env sync job)
  elsewhere job d e each =
      Settles-elsewhere d (λ u. Unit {0}) (accesses env sync job) (requests job) (postings job) e
        (job_task env sync job) (Within-job_task env sync job) (Uses-job_task (λ f. d ≢ f) job each)

  Settles-status :
      (msg : StringMessage) (d : String) (e : Entry V)
      → Each (λ f. f ≡ d) (devices (from_controls msg))
      → Settles d e (job_task env sync (from_controls msg))
  unfolding job_task
  Settles-status msg d e each =
      let (left, settled) =
        ControlsSettling.Settles-process_runtime_message env sync msg d e each in
      (
        left,
        Isolated->>= (λ result. returned tt) d (λ a found. found ≡ left) e.0 e.1
            (ControlsTasks.process_runtime_message_task env sync msg) settled,
      )

  -- A job ends, and what it leaves of a device is settled by what it finds of it.
  pub Settles-job_task :
      (job : Job) (d : String) (e : Entry V) → Settles d e (job_task env sync job)
  Settles-job_task (from_controls msg) d e =
      elim (status_device-or_other d (deserialize_status env sync msg)) [
        | inl mine ↦ Settles-status msg d e mine
        | inr other ↦ elsewhere (from_controls msg) d e other
      ]
  Settles-job_task (from_topic monitor now msg) d e = elim (key_device-or_other d msg.key) [
    | inl mine ↦
        unfold job_task in
        MonitorSettling.Settles-process_runtime_message env monitor now msg d e mine
    | inr other ↦ elsewhere (from_topic monitor now msg) d e other
  ]
  Settles-job_task (startup phoebus_host topics) d e =
      unfold job_task in Settles-get_existing_messages env d phoebus_host topics e

  left-Kept :
      (d : String) (e : Entry V) (r : Option (Unit {0} × World V)) (w : World V)
      → left_by r ≡ some w
      → Kept d e r
      → entry d w ≡ e
  left-Kept d e none w done kept = ground arith
  left-Kept d e (some (u, v)) w done kept = rw (← some-injective v w done) kept

  left-Ends :
      (d : String) (left : Entry V) (r : Option (Unit {0} × World V))
      → Ends (λ u w. entry d w ≡ left) r
      → (w : World V) × (left_by r ≡ some w) × (entry d w ≡ left)
  left-Ends d left none ends = elim ends [ ]
  left-Ends d left (some (u, w)) ends = (w, refl, ends)

  -- A handler leaves the entries of the devices that it is not about.
  pub entry-do_job_other :
      (job : Job) (d : String) (w w' : World V)
      → Each (λ e. d ≢ e) (devices job)
      → do_job env sync job w ≡ some w'
      → entry d w' ≡ entry d w
  entry-do_job_other job d w w' each done =
      left-Kept d (entry d w) (run_alone env (job_task env sync job) w) w'
        (run_alone-job_task env sync job w ∙ done)
        (run_alone-Kept env d (job_task env sync job) w (entry d w) refl
          (Uses-job_task (λ e. d ≢ e) job each))

  -- A handler leaves what the entry of its device settles, in any world with this entry.
  pub entry-do_job :
      (job : Job) (d : String) (e : Entry V) (settles : Settles d e (job_task env sync job))
      (w : World V)
      → entry d w ≡ e
      → (w' : World V) × (do_job env sync job w ≡ some w') × (entry d w' ≡ settles.0)
  entry-do_job job d e (left, settled) w found =
      let (w', done, same) = left-Ends d left (run_alone env (job_task env sync job) w) (
        run_alone-Ends env d (λ u f. f ≡ left) (job_task env sync job) w
          (subst (λ f. Isolated d (λ u g. g ≡ left) (f.0, f.1) (job_task env sync job)) (sym found)
            settled)) in
      (w', sym (run_alone-job_task env sync job w) ∙ done, same)
