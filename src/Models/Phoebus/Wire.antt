-- ===== src/Models/Phoebus/Wire.antt =====
-- models/phoebus/mod.rs: `bool_or_string`, which reads the field `enabled` of a `Config`.
use alarms_actions_synchroni.Prelude.{String, Bool, Option, none, some, if◌then◌else◌, ◌≡◌}
use alarms_actions_synchroni.External.SerdeJson.{SerdeJson}
use alarms_actions_synchroni.Models.Phoebus.{Config, bool_to_string}

-- The local enum of the function.
pub data StringOrBool : Type 0 where
  str : String → StringOrBool
  bool : Bool → StringOrBool

-- `Display`
display : StringOrBool → String
display (str s) = s
display (bool b) = bool_to_string b

untagged : Option String → Option Bool → Option StringOrBool
untagged (some s) b = some (str s)
untagged none (some b) = some (bool b)
untagged none none = none

to_string : Option StringOrBool → Option (Option String)
unfolding display
to_string none = none
to_string (some v) = some (some (display v))

-- `none` is the error of the deserializer. Serde tries the variants of an untagged enum in order.
unfoldable pub bool_or_string : {V : Type 0} → SerdeJson V → V → Option (Option String)
unfolding untagged to_string
bool_or_string json value =
    if json.is_null value
    then some none
    else to_string (untagged (json.as_str value) (json.as_bool value))

-- What serde does for a `Config` that it wrote and can read: the field `enabled` is the same.
pub record RereadsEnabled {V : Type 0} (json : SerdeJson V) : Type 0 where
  pub enabled-config_from_str :
      (config config' : Config V) (text : String)
      → json.config_to_string config ≡ some text
      → json.config_from_str (bool_or_string json) text ≡ some config'
      → config'.enabled ≡ config.enabled
