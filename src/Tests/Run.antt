-- ===== src/Tests/Run.antt =====
-- What it takes to run the code.
use alarms_actions_synchroni.Prelude.{string_eq, char_eq}
use alarms_actions_synchroni.Prelude.HashMap.{get, insert, insert_all, collect, equals}
use alarms_actions_synchroni.Prelude.Int.{as_u32, as_i32}
use alarms_actions_synchroni.Prelude.Text.{
  split_once, rsplit_once, strip_suffix, ends_with, split, trim,
}
use alarms_actions_synchroni.Models.Proto.{state_eq, source_eq, State-discrete}
use alarms_actions_synchroni.Models.Cache
use alarms_actions_synchroni.Models.Cache.{
  cached_state_eq, from_status, from_bool, from_datetime, suppresses_incoming,
  is_transition_forbidden, read_observed_state_policy, record_alarm_state,
  record_startup_state_evidence,
}
use alarms_actions_synchroni.Models.Outcomes.{into_sync_outcome}
use alarms_actions_synchroni.Models.Phoebus.{
  parse_bool, enablement_cached_state, as_enabled_string, normalize_enablement, as_cached_state,
  normalize_topic, from_unmapped,
}
use alarms_actions_synchroni.Models.Phoebus.Key.{get_key_prefix, parse_operation, parse}
use alarms_actions_synchroni.Models.Phoebus.Wire.{bool_or_string}
use alarms_actions_synchroni.Models.Metadata.{lookup_metadata_by_device, update_cached_metadata}
use alarms_actions_synchroni.Utils.{get_command_topic}
use alarms_actions_synchroni.Controls
use alarms_actions_synchroni.Controls.{
  topic_publishers, new, decide_controls_sync, deserialize_status, sync_epics_message_to_phoebus,
  process_controls_message, process_status,
}
use alarms_actions_synchroni.Controls.Transform.{
  state_to_operation, get_phoebus_key, get_topic_for_operation, normalized_enablement_from_controls,
  controls_to_phoebus,
}
use alarms_actions_synchroni.Phoebus.Sync.{
  run_operation, execute_command, acknowledge_alarm, activate_alarm, bypass_alarm, snooze_alarm,
}
use alarms_actions_synchroni.Phoebus.Monitor
use alarms_actions_synchroni.Phoebus.Monitor.{
  decide_phoebus_command, decide_phoebus_config, get_pv_metadata, process_command, process_config,
  process_parsed_config, dispatch, log_parse_error,
}
use alarms_actions_synchroni.Phoebus.Init.{
  severity_state, extract_severity, handle_state, read_config, handle_config, hydrate_message,
  populate_caches, get_existing_messages_from_phoebus,
}
use alarms_actions_synchroni.Tasks.{◌>>=◌, step}
use alarms_actions_synchroni.Controls.Tasks as ControlsTasks
use alarms_actions_synchroni.Phoebus.Sync.Tasks.{execute_command_task}
use alarms_actions_synchroni.Phoebus.Monitor.Tasks as MonitorTasks
use alarms_actions_synchroni.Phoebus.Monitor.Tasks.{process_command_task, process_config_task}
use alarms_actions_synchroni.Phoebus.Init.Tasks.{
  hydrate_message_task, populate_caches_task, get_existing_messages_task,
}
use alarms_actions_synchroni.Phoebus.Synchronizer.{
  new_client, new_monitor, with_command_topics, monitors,
}
use alarms_actions_synchroni.System.Interleaving.{job_task, advance}
use alarms_actions_synchroni.Startup.{topic_list, create_synchronizer_config}
use alarms_actions_synchroni.Program.{first_program}
use alarms_actions_synchroni.Main.{setup_logging, spawn_health_server, main}

-- `unfolding run` computes what the two synchronizers do.
unfoldable pub run : Unit {0}
unfolding string_eq char_eq get insert insert_all collect equals as_u32 as_i32 split_once
    rsplit_once strip_suffix ends_with split trim state_eq source_eq State-discrete Cache.bypassed
    cached_state_eq from_status from_bool from_datetime suppresses_incoming is_transition_forbidden
    read_observed_state_policy record_alarm_state record_startup_state_evidence into_sync_outcome
    parse_bool enablement_cached_state as_enabled_string normalize_enablement as_cached_state
    normalize_topic from_unmapped get_key_prefix parse_operation parse bool_or_string
    lookup_metadata_by_device update_cached_metadata get_command_topic topic_publishers new
    decide_controls_sync deserialize_status sync_epics_message_to_phoebus process_controls_message
    process_status Controls.process_runtime_message state_to_operation get_phoebus_key
    get_topic_for_operation normalized_enablement_from_controls controls_to_phoebus run_operation
    execute_command acknowledge_alarm activate_alarm bypass_alarm snooze_alarm
    decide_phoebus_command decide_phoebus_config get_pv_metadata process_command process_config
    process_parsed_config dispatch log_parse_error Monitor.process_runtime_message severity_state
    extract_severity handle_state read_config handle_config hydrate_message populate_caches
    get_existing_messages_from_phoebus
run = tt

-- `unfolding run_tasks` computes what their tasks and `main` do.
unfoldable pub run_tasks : Unit {0}
unfolding run job_task advance step ◌>>=◌ MonitorTasks.process_runtime_message_task
    process_command_task process_config_task execute_command_task
    ControlsTasks.process_runtime_message_task ControlsTasks.process_controls_message_task
    ControlsTasks.sync_epics_message_task hydrate_message_task populate_caches_task
    get_existing_messages_task new_client new_monitor with_command_topics monitors topic_list
    create_synchronizer_config setup_logging spawn_health_server first_program main
run_tasks = tt
