-- ===== src/Startup.antt =====
-- main.rs and models/config/mod.rs: the configuration from the environment variables.
pub mod Variables
pub mod Loading
pub mod Topics
use alarms_actions_synchroni.Prelude.{
  String, Option, none, some, Result, ok, err, ok_or, ◌>>=◌, List, [], ◌∷◌,
}
use alarms_actions_synchroni.Prelude.Text.{split, trim, ◌++◌}
use alarms_actions_synchroni.World.{World}
use alarms_actions_synchroni.Models.Metadata.{new_scope}

-- `SynchronizerConfig` without the cancellation token and the two caches.
pub record SynchronizerConfig : Type 0 where
  pub controls_host : String
  pub controls_topic : String
  pub grpc_alarms_svc_host : String
  pub phoebus_host : String
  pub phoebus_topics : List String

-- The caches that `SynchronizerConfig::new` makes, before anything is sent.
unfoldable pub new_world : {V : Type 0} → World V
new_world = record { alarm_states = []; metadata_scope = new_scope; sent = []; published = [] }

pub data ConfigLoadError : Type 0 where
  missing_variable : String → ConfigLoadError

-- `Display` of `ConfigLoadError`
unfoldable pub config_load_message : ConfigLoadError → String
config_load_message (missing_variable var) =
    "Required environment variable '" ++ var ++ "' is not set"

trim_all : List String → List String
trim_all [] = []
trim_all (s ∷ parts) = trim s ∷ trim_all parts

-- `split(',').map(trim).collect()`
unfoldable pub topic_list : String → List String
unfolding trim_all
topic_list value = trim_all (split value ",")

module _ (variable : String → Option String) where
  require : String → Result String ConfigLoadError
  require name = ok_or (variable name) (missing_variable name)

  -- `variable` is `env_var::get(..).to_option()`.
  unfoldable pub create_synchronizer_config : Result SynchronizerConfig ConfigLoadError
  unfolding require
  create_synchronizer_config = do
    controls_host ← require Variables.controls_host
    controls_topic ← require Variables.controls_topic
    grpc_alarms_svc_host ← require Variables.grpc_alarms_service_host
    phoebus_host ← require Variables.phoebus_host
    phoebus_topics ← require Variables.phoebus_topics
    ok (record {
      controls_host = controls_host;
      controls_topic = controls_topic;
      grpc_alarms_svc_host = grpc_alarms_svc_host;
      phoebus_host = phoebus_host;
      phoebus_topics = topic_list phoebus_topics;
    })
