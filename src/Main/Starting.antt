-- ===== src/Main/Starting.antt =====
-- What `main` of main.rs starts.
use alarms_actions_synchroni.Prelude.{String, Bool, Option, some, ok, ◌≡◌, refl, arith, ◌∙◌}
use alarms_actions_synchroni.World.{Env}
use alarms_actions_synchroni.Startup.{SynchronizerConfig, create_synchronizer_config}
use alarms_actions_synchroni.Startup.Loading.{loaded, topic_list-cons}
use alarms_actions_synchroni.Phoebus.Monitor.{Monitor}
use alarms_actions_synchroni.Phoebus.Synchronizer.{monitors, monitors-cons}
use alarms_actions_synchroni.Program.{Program, first_program, nth}
use alarms_actions_synchroni.Main.{main}

-- There is a first monitor.
abbrev pub IsMonitored : SynchronizerConfig → Type 0
IsMonitored config = (monitor : Monitor) × (nth 0 (monitors config) ≡ some monitor)

module _ {V D : Type 0} (env : Env V D) (config : SynchronizerConfig) (subscribed : Bool)
    (variable : String → Option String) (p : Program V) where
  pub main-first : main env subscribed variable ≡ ok (config, p) → p ≡ first_program env config
  unfolding main
  main-first e = ground arith

  main-config :
      main env subscribed variable ≡ ok (config, p)
      → create_synchronizer_config variable ≡ ok config
  unfolding main
  main-config e = ground arith

  -- The variable of the topics is not read as an empty list.
  pub main-IsMonitored : main env subscribed variable ≡ ok (config, p) → IsMonitored config
  main-IsMonitored e =
      let l = loaded variable config (main-config e) in
      let (topic, topics, some_topic) = topic_list-cons l.topics in
      let (monitor, others, first) =
        monitors-cons config topic topics (l.phoebus_topics ∙ some_topic) in
      (monitor, rw first refl)
