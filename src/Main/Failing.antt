-- ===== src/Main/Failing.antt =====
-- When main.rs starts the program, and what it panics with otherwise.
use alarms_actions_synchroni.Prelude.{
  String, Bool, true, false, Option, none, some, Result, ok, err, List, [], ◌∷◌, ◌≡◌, arith,
  if◌then◌else◌,
}
use alarms_actions_synchroni.World.{Env}
use alarms_actions_synchroni.Startup.{ConfigLoadError, missing_variable, create_synchronizer_config}
use alarms_actions_synchroni.Main.{
  StartError, logger, configuration, health_endpoint, already_initialized, main,
}

abbrev pub first_missing : (String → Option String) → List String → Option String
first_missing variable [] = none
first_missing variable (name ∷ names) = elim (variable name) [
  | none ↦ some name
  | some value ↦ first_missing variable names
]

-- The five variables of the configuration, in the order in which they are read.
abbrev pub config_variables : List String
config_variables =
    "CONTROLS_HOST" ∷ "CONTROLS_TOPIC" ∷ "GRPC_ALARMS_SERVICE_HOST" ∷ "PHOEBUS_HOST"
    ∷ "PHOEBUS_TOPICS" ∷ []

abbrev pub error_of : {A E : Type 0} → Result A E → Option E
error_of (ok a) = none
error_of (err e) = some e

-- The health server has no address: its variable is not set, or holds none.
abbrev no_address : (String → Bool) → Option String → Option String
no_address is_socket_addr none = some "HEALTH_ADDR"
no_address is_socket_addr (some text) = if is_socket_addr text then none else some "HEALTH_ADDR"

-- What `main` must panic with, if anything, and where.
abbrev expected_error : Bool → Option String → Option String → Option StartError
expected_error false config health = some (logger already_initialized)
expected_error true (some name) health = some (configuration (missing_variable name))
expected_error true none (some name) = some (health_endpoint (missing_variable name))
expected_error true none none = none

module _ (variable : String → Option String) where
  abbrev named : Option String → Option ConfigLoadError
  named none = none
  named (some name) = some (missing_variable name)

  -- The loading of the configuration alone.
  pub create_synchronizer_config-error :
      error_of (create_synchronizer_config variable)
      ≡ named (first_missing variable config_variables)
  unfolding create_synchronizer_config
  create_synchronizer_config-error = ground arith

  -- `main` panics before it starts the program exactly when a global subscriber was set before, a
  -- variable of the configuration is not set, or the health server's address is not set or is no
  -- socket address; it names the first of these in this order, and of the configuration's variables
  -- the first in the order of the code. An address that is set but is none is reported as not set.
  pub main-error :
      {V D : Type 0} (env : Env V D) (subscribed : Bool)
      → error_of (main env subscribed variable)
        ≡ expected_error subscribed
            (first_missing variable config_variables)
            (no_address env.is_socket_addr (variable "HEALTH_ADDR"))
  unfolding main create_synchronizer_config
  main-error env subscribed = ground arith
