-- ===== src/Tests/Instance.antt =====
-- A small outside world: JSON texts that are one word, dates that are a number of seconds, and one
-- device on one Phoebus topic.
use alarms_actions_synchroni.Prelude.{
  ℕ, String, true, Option, none, some, List, [], ◌∷◌, ◌≡◌, refl, arith, ltb, ◌==◌, string_eq,
  if◌then◌else◌,
}
use Prim.Native.Nat.{◌*◌, ◌+◌}
use alarms_actions_synchroni.Prelude.Int.{ℤ, pos, negsuc}
use alarms_actions_synchroni.External.Chrono.{Chrono, IsChrono}
use alarms_actions_synchroni.External.SerdeJson.{SerdeJson}
use alarms_actions_synchroni.External.PubSub.{StringMessage}
use alarms_actions_synchroni.Models.Proto.{State, Source, Status, Timestamp}
use alarms_actions_synchroni.Models.Phoebus.{Config, PvMetadata}
use alarms_actions_synchroni.Models.Phoebus.Key.{Key, Operation}
use alarms_actions_synchroni.Models.Phoebus.Wire.{RereadsEnabled, bool_or_string}
use alarms_actions_synchroni.World.{World, Env}
use alarms_actions_synchroni.Controls.{SyncImpl, new}
use alarms_actions_synchroni.Controls.Transform.Keys.{IsDeviceName}
use alarms_actions_synchroni.Phoebus.Monitor.{Monitor}

abbrev pub Date : Type 0
Date = ℤ × ℕ

abbrev millis : ℤ → ℤ
millis (pos s) = pos (s * 1000)
millis (negsuc s) = negsuc (s * 1000 + 999)

-- The one date that the texts can name.
abbrev pub new_year : String
new_year = "2100-01-01T00:00:00+00:00"

abbrev pub read_date : String → Option Date
read_date text = if text == new_year then some (pos 4102444800, 0) else none

abbrev pub chrono : Chrono Date
chrono = record {
  timestamp = λ d. d.0;
  timestamp_millis = λ d. millis d.0;
  timestamp_subsec_nanos = λ d. d.1;
  parse_from_rfc3339 = read_date;
  to_rfc3339 = λ d. new_year;
  fixed_offset = λ d. d;
  timestamp_opt = λ s n. some (s, n);
}

pub chrono-IsChrono : IsChrono chrono
unfolding string_eq
chrono-IsChrono = record {
  timestamp-timestamp_opt = λ s n d e. ground arith;
  subsec_nanos-timestamp_opt = λ s n d e. ground arith;
  parse-true = refl;
  parse-false = refl;
}

abbrev pub device : String
device = "M:OUTTMP"

abbrev pub status : State → Option Timestamp → Status
status state wake = record {
  device = device;
  user = "operator";
  state = state;
  source = Source.epics;
  wake = wake;
}

abbrev read_status : String → Option Status
read_status text =
    if text == "bypassed"
    then some (status State.bypassed none)
    else if text == "alarmed"
    then some (status State.alarmed none)
    else none

abbrev config_of : Option (Option String) → Option (Config String)
config_of none = none
config_of (some enabled) =
    some (record { enabled = enabled; host = "host"; user = "operator"; phoebus_specific = [] })

abbrev write_enabled : Option String → Option String
write_enabled none = some "null"
write_enabled (some text) = if text == "null" then none else some text

abbrev pub json : SerdeJson String
json = record {
  same_value = λ v w. v == w;
  is_null = λ v. v == "null";
  as_str = λ v. some v;
  as_bool = λ v. none;
  field = λ v name. if name == "severity" then some v else none;
  value_from_str = λ text. some text;
  command_from_str = λ text. some (record { user = "operator"; host = "host"; command = text });
  command_to_string = λ c. some c.command;
  config_from_str = λ read text. config_of (read text);
  config_to_string = λ c. write_enabled c.enabled;
  status_from_str = read_status;
}

reread :
    (enabled : Option String) (config : Config String) (text : String)
    → write_enabled enabled ≡ some text
    → config_of (bool_or_string json text) ≡ some config
    → config.enabled ≡ enabled
unfolding bool_or_string
reread none config text written read = ground arith
reread (some s) config text written read = ground arith

pub json-RereadsEnabled : RereadsEnabled json
json-RereadsEnabled = record {
  enabled-config_from_str =
      λ config config' text written read. reread config.enabled config' text written read;
}

abbrev pub topic : String
topic = "Accelerator"

abbrev pub message : String → String → StringMessage
message key value = record { key = some key; value = value }

abbrev pub snapshot : List StringMessage
snapshot =
    message "config:/Vacuum/M:OUTTMP" "false"
    ∷ message "state:/Vacuum/M:OUTTMP" "MAJOR"
    ∷ message "no key" "false"
    ∷ []

-- The first request is rejected, and every later one accepted.
abbrev pub env : Env String Date
env = record {
  json = json;
  chrono = chrono;
  is_socket_addr = λ text. text == "0.0.0.0:50051";
  connects = λ host. true;
  accepts = λ n. ltb 0 n;
  delivers = λ n. true;
  snapshot = λ host t. if t == topic then some snapshot else none;
  startup_clock = λ t n. pos 0;
}

abbrev pub sync : SyncImpl
sync = new "controls" "alarms" "phoebus" (topic ∷ [])

abbrev pub monitor : Monitor
monitor = record {
  controls_client = record { grpc_alarms_svc_host = "service" };
  phoebus_host = "phoebus";
  topic = topic;
}

abbrev pub metadata : PvMetadata String
metadata = record { phoebus_config_metadata = []; display_path = "/Vacuum"; phoebus_topic = topic }

-- The device is in scope, and nothing is known of its alarm.
abbrev pub fresh_world : World String
fresh_world = record {
  alarm_states = [];
  metadata_scope = (device, metadata) ∷ [];
  sent = [];
  published = [];
}

-- The device is in scope, and recorded as bypassed.
abbrev pub bypassed_world : World String
bypassed_world = record fresh_world {
  alarm_states = (device, record { state = State.bypassed; wake = none }) ∷ [];
}

abbrev pub enabled_key : Key
enabled_key = record { device = device; display_path = "/Vacuum"; operation = Operation.config }

abbrev pub command_key : Key
command_key = record enabled_key { operation = Operation.command }

abbrev pub enabled : String → Config String
enabled text = record {
  enabled = some text;
  host = "host";
  user = "operator";
  phoebus_specific = [];
}

pub device-IsDeviceName : IsDeviceName device
device-IsDeviceName = (
  λ e. cc,
  (λ e. cc, (λ e. cc, (λ e. cc, (λ e. cc, (λ e. cc, (λ e. cc, (λ e. cc, (λ e. cc, tt)))))))),
)
