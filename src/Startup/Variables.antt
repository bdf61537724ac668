-- ===== src/Startup/Variables.antt =====
-- The names of the environment variables of main.rs.
use alarms_actions_synchroni.Prelude.{String}

abbrev pub controls_host : String
controls_host = "CONTROLS_HOST"

abbrev pub controls_topic : String
controls_topic = "CONTROLS_TOPIC"

abbrev pub grpc_alarms_service_host : String
grpc_alarms_service_host = "GRPC_ALARMS_SERVICE_HOST"

abbrev pub health_addr : String
health_addr = "HEALTH_ADDR"

abbrev pub phoebus_host : String
phoebus_host = "PHOEBUS_HOST"

abbrev pub phoebus_topics : String
phoebus_topics = "PHOEBUS_TOPICS"
