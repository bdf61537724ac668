-- ===== src/Main.antt =====
-- main.rs: the start of the program.
pub mod Starting
pub mod Phases
pub mod Callings
pub mod Ordering
pub mod Failing
pub mod Refining
pub mod Ending
pub mod Safety
pub mod Turns
pub mod Brevity
pub mod Stopping
use alarms_actions_synchroni.Prelude.{
  String, Bool, true, false, Option, none, some, if◌then◌else◌, Result, ok, err, ok_or, ◌>>=◌,
}
use alarms_actions_synchroni.World.{Env}
use alarms_actions_synchroni.Startup.Variables
use alarms_actions_synchroni.Startup.{
  SynchronizerConfig, ConfigLoadError, missing_variable, create_synchronizer_config,
}
use alarms_actions_synchroni.Program.{Program, first_program}

pub data LoggingInitError : Type 0 where
  already_initialized : LoggingInitError

-- `Display` of `LoggingInitError`
unfoldable pub logging_init_message : LoggingInitError → String
logging_init_message already_initialized = "A global tracing subscriber has already been set"

-- The panics of `main`, by the call whose `expect` fails.
pub data StartError : Type 0 where
  logger : LoggingInitError → StartError
  configuration : ConfigLoadError → StartError
  health_endpoint : ConfigLoadError → StartError

-- `map_err`
abbrev pub map_err : {A E F : Type 0} → (E → F) → Result A E → Result A F
map_err f (ok a) = ok a
map_err f (err e) = err (f e)

-- `setup_logging`; whether a global subscriber was set is the outside world's.
unfoldable pub setup_logging : Bool → Result (Unit {0}) LoggingInitError
setup_logging true = ok tt
setup_logging false = err already_initialized

module _ {V D : Type 0} (env : Env V D) where
  -- `to_option` at the `SocketAddr` that `serve` takes
  to_socket_addr : Option String → Option String
  to_socket_addr none = none
  to_socket_addr (some text) = if env.is_socket_addr text then some text else none

  -- The address that `spawn_health_server` serves on, when it spawns its task.
  unfoldable pub spawn_health_server : (String → Option String) → Result String ConfigLoadError
  unfolding to_socket_addr
  spawn_health_server variable =
      ok_or (to_socket_addr (variable Variables.health_addr))
        (missing_variable Variables.health_addr)

  unfoldable pub main :
      Bool → (String → Option String) → Result (SynchronizerConfig × Program V) StartError
  unfolding setup_logging spawn_health_server
  main subscribed variable = do
    u ← map_err logger (setup_logging subscribed)
    sync_config ← map_err configuration (create_synchronizer_config variable)
    health_addr ← map_err health_endpoint (spawn_health_server variable)
    ok (sync_config, first_program env sync_config)
