-- ===== src/Lib.antt =====
-- Alarms Actions Synchronizer
--
-- The alarms actions synchronizer passes user actions between two alarm worlds. Controls announces
-- alarm statuses on a Kafka topic and takes requests by gRPC; Phoebus reads and writes configs and
-- commands on Kafka topics. One synchronizer mirrors Controls into Phoebus (src/controls/mod.rs),
-- the other Phoebus into Controls (src/phoebus/mod.rs). They share two caches: the latest observed
-- state of each alarm (src/models/cache/mod.rs), which keeps a change from going round in circles,
-- and the metadata of each device in scope (src/models/metadata/mod.rs).
--
-- Files and code:
-- - Models: src/models. Cache is cache/mod.rs, Metadata is metadata/mod.rs, Outcomes is
--   outcomes/mod.rs. Phoebus is phoebus/mod.rs, with Key for `Key::parse` and `Operation` and Wire
--   for `bool_or_string`. Proto has the protobuf messages. A lock's map is the map itself, passed in
--   and out; a critical section is a function.
-- - World: the two caches, the requests sent and the messages posted so far. Every handler takes a
--   world and returns the next one.
-- - Controls: src/controls/mod.rs. `process_runtime_message` handles one message,
--   `decide_controls_sync` decides, `sync_epics_message_to_phoebus` posts. Controls.Transform is
--   src/controls/transform/mod.rs; Utils is `get_command_topic` of src/utils/mod.rs.
-- - Phoebus.Monitor: src/phoebus/monitor/mod.rs. `process_command` and `process_config` handle a
--   message of a topic; an unwrap that panics is `none`. Phoebus.Init: src/phoebus/init/mod.rs,
--   `populate_caches` and its handlers. Phoebus.Sync: src/phoebus/sync/mod.rs, `execute_command`
--   with its second attempt. Phoebus.KeyErrors: `map_key_parse_error` of src/phoebus/mod.rs.
--   Phoebus.Synchronizer: the monitors that `synchronize` of that file spawns.
-- - Startup: `create_synchronizer_config` of src/main.rs and src/models/config/mod.rs. Prelude.Text has
--   the methods of `str` that the source calls.
-- - Streams: the loops of both synchronizers over a stream, with its reconnections. Controls.Loop
--   and Phoebus.Monitor.Loop apply them.
-- - System: both synchronizers on one world, as a relation of steps; one step handles one message.
-- - Tasks: an async handler as what is left of it: its next access of a cache or call of a service,
--   and the rest by the result. Controls.Tasks, Phoebus.Monitor.Tasks, Phoebus.Sync.Tasks and
--   Phoebus.Init.Tasks write the handlers of their parents in this form, each await a point at which
--   another task can run; each access holds the lock of its cache for just that access.
-- - System.Interleaving: threads that run such tasks on one world, the next access being any one's,
--   with a cancellation that drops tasks at their awaits. Tasks.Isolated and the Devices and
--   Settling modules treat a task that has its device for itself.
-- - Program: the tasks that `main` spawns and the state of the program. Program.Steps: the program as
--   a relation of steps, one relation for each task: the listener for Ctrl+C, the health server,
--   `synchronize` of src/controls/mod.rs, and `synchronize` of src/phoebus/mod.rs with its phases and
--   its monitors, whose loops have their connections and the second between two of them. A monitor's
--   task outlives that `synchronize` until it is dropped at an await. The threads stand in
--   System.Interleaving: 0 handles the messages from Controls, 1 hydrates, and each later one is a
--   monitor. Main: `main` of src/main.rs with its panics, and what the program that it starts does;
--   Phases and Callings say what holds of the tasks in each phase.
-- - Tests: a small concrete outside world, and the theorems at concrete inputs.
--
-- Parameters: serde_json with the derived code, chrono, the publisher, the gRPC client and the
-- snapshot are the records SerdeJson, Chrono and Env; what a theorem relies on of them stands in
-- IsChrono and RereadsEnabled. Which texts are socket addresses is a part of Env too. The time of a
-- comparison with `Utc::now()` is an argument. The outcome of a request or a posting is an arbitrary
-- function of the number of earlier ones.
--
-- Numbers: the nanoseconds of a timestamp are cast between i32 and u32 with their wrap-around;
-- seconds are unbounded, as chrono decides which it accepts. The fuel of
-- `connect_and_watch` bounds the connections, and more fuel than there are events is enough; every
-- other function recurs on its list or text.
--
-- Not modelled: how long anything takes, what tracing and tonic-health do, the manual `PartialEq` of
-- the configuration and of `MetadataScope`, which compares addresses and serves the tests, and the
-- generated protobuf code. In System a step is one whole message; in System.Interleaving it is one
-- access.
pub mod Prelude
pub mod External
pub mod Models
pub mod Utils
pub mod World
pub mod Streams
pub mod Tasks
pub mod Controls
pub mod Phoebus
pub mod Startup
pub mod System
pub mod Main
pub mod Program
pub mod Tests
