-- ===== src/Models/Phoebus/Key.antt =====
-- models/phoebus/mod.rs: `Operation`, `Key` and `KeyParseError`.
use alarms_actions_synchroni.Prelude.{
  String, Option, none, some, Result, ok, err, ok_or, ◌==◌, string_eq, ◌>>=◌, if◌then◌else◌,
}
use alarms_actions_synchroni.Prelude.Text.{split_once, rsplit_once}

pub data KeyParseError : Type 0 where
  malformed_structure unsupported_operation empty_device : KeyParseError

pub data Operation : Type 0 where
  command config state : Operation

pub record Key : Type 0 where
  pub device : String
  pub display_path : String
  pub operation : Operation

unfoldable pub get_key_prefix : Operation → String
get_key_prefix command = "command"
get_key_prefix config = "config"
get_key_prefix state = "state"

-- `Operation::parse`
unfoldable pub parse_operation : String → Option Operation
parse_operation value =
    if value == "command"
    then some command
    else if value == "config"
    then some config
    else if value == "state"
    then some state
    else none

non_empty : String → Result String KeyParseError
non_empty device = if device == "" then err empty_device else ok device

-- `Key::parse`
unfoldable pub parse : String → Result Key KeyParseError
unfolding non_empty
parse value = do
  (operation_str, path_with_device) ← ok_or (split_once value ":") malformed_structure
  operation ←
      ok_or (parse_operation operation_str)
        (if operation_str == "" then malformed_structure else unsupported_operation)
  (display_path, device) ← ok_or (rsplit_once path_with_device "/") malformed_structure
  device ← non_empty device
  ok (record { device = device; display_path = display_path; operation = operation })
