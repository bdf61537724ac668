-- ===== src/External/SerdeJson.antt =====
-- The `serde_json` crate and the code that `#[derive(Deserialize, Serialize)]` generates. A failure
-- is `none`. `V` is `serde_json::Value`.
use alarms_actions_synchroni.Prelude.{String, Bool, Option}
use alarms_actions_synchroni.Models.Proto.{Status}
use alarms_actions_synchroni.Models.Phoebus.{Command, Config}

pub record SerdeJson (V : Type 0) : Type 0 where
  -- `PartialEq` of `Value`
  pub same_value : V → V → Bool
  pub is_null : V → Bool
  pub as_str : V → Option String
  pub as_bool : V → Option Bool
  -- `Value::get`
  pub field : V → String → Option V
  pub value_from_str : String → Option V
  pub command_from_str : String → Option Command
  pub command_to_string : Command → Option String
  -- The derived code takes the function that `deserialize_with` names for the field `enabled`.
  pub config_from_str : (V → Option (Option String)) → String → Option (Config V)
  pub config_to_string : Config V → Option String
  pub status_from_str : String → Option Status
