-- ===== src/World.antt =====
-- What the two synchronizers share and reach: the two caches, and what has been sent so far.
-- The outside world answers through `Env`, whose results the code cannot choose.
use alarms_actions_synchroni.Prelude.{ℕ, String, Bool, Option, List}
use alarms_actions_synchroni.Prelude.Int.{ℤ}
use alarms_actions_synchroni.External.Chrono.{Chrono}
use alarms_actions_synchroni.External.SerdeJson.{SerdeJson}
use alarms_actions_synchroni.External.PubSub.{StringMessage, Publisher}
use alarms_actions_synchroni.Models.Proto.{Timestamp}
use alarms_actions_synchroni.Models.Cache.{AlarmStateCache}
use alarms_actions_synchroni.Models.Metadata.{MetadataScope}

-- The requests of `services.alarm_commands`; `snooze` carries `wake` too.
pub data Request : Type 0 where
  acknowledge activate bypass : List String → String → Request
  snooze : List String → String → Option Timestamp → Request

pub record World (V : Type 0) : Type 0 where
  pub alarm_states : AlarmStateCache
  pub metadata_scope : MetadataScope V
  -- Every request handed to the gRPC client, and every message handed to a publisher.
  pub sent : List (String × Request)
  pub published : List (Publisher × StringMessage)

pub record Env (V D : Type 0) : Type 0 where
  pub json : SerdeJson V
  pub chrono : Chrono D
  -- `to_option()` at `SocketAddr` reads an address from this text.
  pub is_socket_addr : String → Bool
  -- `AlarmCommandsClient::from_endpoint_with_provider` returns a client for this host.
  pub connects : String → Bool
  -- The result of the request, or of the publication, after as many earlier ones.
  pub accepts : ℕ → Bool
  pub delivers : ℕ → Bool
  -- `SNAP::get(host, topic)`, `none` on an error
  pub snapshot : String → String → Option (List StringMessage)
  -- `Utc::now()` in milliseconds, when the startup message of this topic is handled that has so
  -- many messages after it
  pub startup_clock : String → ℕ → ℤ
