-- ===== src/Models/Phoebus.antt =====
-- models/phoebus/mod.rs: the messages of the Phoebus topics and their meaning, and `PvMetadata`.
pub mod Key
pub mod Wire
use alarms_actions_synchroni.Prelude.{
  String, Bool, true, false, Option, none, some, Result, ok, err, unwrap_or, Eq, ◌==◌, string_eq,
  ◌>>=◌, if◌then◌else◌, [],
}
use alarms_actions_synchroni.Prelude.Int.{ℤ}
use alarms_actions_synchroni.Prelude.Text.{strip_suffix}
use alarms_actions_synchroni.Prelude.HashMap.{HashMap}
use alarms_actions_synchroni.External.Chrono.{Chrono}
use alarms_actions_synchroni.Models.Cache
use alarms_actions_synchroni.Models.Cache.{CachedState, from_bool, from_datetime}

pub record Command : Type 0 where
  pub user : String
  pub host : String
  pub command : String

pub data NormalizedEnablement (D : Type 0) : Type 0 where
  active bypassed : NormalizedEnablement D
  snoozed_until : D → NormalizedEnablement D

-- `V` is `serde_json::Value`.
pub record Config (V : Type 0) : Type 0 where
  pub enabled : Option String
  pub host : String
  pub user : String
  pub phoebus_specific : HashMap V

pub data PhoebusParseError : Type 0 where
  malformed_message unexpected_state : PhoebusParseError

pub record PvMetadata (V : Type 0) : Type 0 where
  pub phoebus_config_metadata : HashMap V
  pub display_path : String
  pub phoebus_topic : String

-- `bool::to_string`
abbrev pub bool_to_string : Bool → String
bool_to_string true = "true"
bool_to_string false = "false"

-- `str::parse::<bool>`
unfoldable pub parse_bool : String → Option Bool
parse_bool s = if s == "true" then some true else if s == "false" then some false else none

module _ {D : Type 0} (chrono : Chrono D) where
  -- `NormalizedEnablement::as_cached_state`
  unfoldable pub enablement_cached_state : ℤ → NormalizedEnablement D → CachedState
  enablement_cached_state now active = from_bool true
  enablement_cached_state now NormalizedEnablement.bypassed = Cache.bypassed
  enablement_cached_state now (snoozed_until dt) = from_datetime chrono now dt

  unfoldable pub as_enabled_string : NormalizedEnablement D → Option String
  as_enabled_string active = some (bool_to_string true)
  as_enabled_string NormalizedEnablement.bypassed = some (bool_to_string false)
  as_enabled_string (snoozed_until dt) = some (chrono.to_rfc3339 dt)

  boolean_enablement : Option Bool → Result (NormalizedEnablement D) PhoebusParseError
  boolean_enablement (some true) = ok active
  boolean_enablement (some false) = ok NormalizedEnablement.bypassed
  boolean_enablement none = err malformed_message

  value_enablement : String → Option D → Result (NormalizedEnablement D) PhoebusParseError
  unfolding boolean_enablement parse_bool
  value_enablement value (some dt) = ok (snoozed_until dt)
  value_enablement value none = boolean_enablement (parse_bool value)

  -- `Config::normalize_enablement`, which reads the field `enabled` alone.
  unfoldable pub normalize_enablement :
      Option String → Result (NormalizedEnablement D) PhoebusParseError
  unfolding value_enablement
  normalize_enablement none = ok NormalizedEnablement.bypassed
  normalize_enablement (some value) = value_enablement value (chrono.parse_from_rfc3339 value)

  -- `Config::as_cached_state`
  unfoldable pub as_cached_state :
      {V : Type 0} → ℤ → Config V → Result CachedState PhoebusParseError
  as_cached_state now config = do
    enablement ← normalize_enablement config.enabled
    ok (enablement_cached_state now enablement)

unfoldable pub normalize_topic : String → String
normalize_topic topic = unwrap_or (strip_suffix topic "Command") topic

-- `PvMetadata::from_unmapped`
unfoldable pub from_unmapped : {V : Type 0} → Key.Key → String → PvMetadata V
from_unmapped key topic = record {
  phoebus_config_metadata = [];
  display_path = key.display_path;
  phoebus_topic = normalize_topic topic;
}
