-- ===== src/Utils.antt =====
-- utils/mod.rs
use alarms_actions_synchroni.Prelude.{String}
use alarms_actions_synchroni.Prelude.Text.{◌++◌}

unfoldable pub get_command_topic : String → String
get_command_topic topic = topic ++ "Command"
