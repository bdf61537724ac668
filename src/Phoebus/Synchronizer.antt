-- ===== src/Phoebus/Synchronizer.antt =====
-- `SyncImpl` of phoebus/mod.rs: the monitors that it starts after the hydration, and that they
-- watch what the Controls synchronizer publishes on.
use alarms_actions_synchroni.Prelude.{
  String, ◌≡◌, ◌⊎◌, ◌↔◌, refl, inl, inr, List, [], ◌∷◌, sym, ap, some, ◌∙◌, arith,
}
use alarms_actions_synchroni.Startup.{SynchronizerConfig}
use alarms_actions_synchroni.Utils.{get_command_topic}
use alarms_actions_synchroni.Controls.Publishers.{IsServed, publishers_iff}
use alarms_actions_synchroni.Controls.{new}
use alarms_actions_synchroni.External.PubSub.{Publisher}
use alarms_actions_synchroni.Prelude.HashMap.{get}
use alarms_actions_synchroni.Phoebus.Sync.{ControlsClient}
use alarms_actions_synchroni.Phoebus.Monitor.{Monitor}

-- `ControlsClient::new`
unfoldable pub new_client : String → ControlsClient
new_client grpc_alarms_svc_host = record { grpc_alarms_svc_host = grpc_alarms_svc_host }

-- `Monitor::new`
unfoldable pub new_monitor : String → SynchronizerConfig → ControlsClient → Monitor
new_monitor topic config controls_client = record {
  controls_client = controls_client;
  phoebus_host = config.phoebus_host;
  topic = topic;
}

-- `flat_map(|topic| [topic.clone(), get_command_topic(topic)])`
unfoldable pub with_command_topics : List String → List String
with_command_topics [] = []
with_command_topics (topic ∷ topics) = topic ∷ get_command_topic topic ∷ with_command_topics topics

module _ (config : SynchronizerConfig) (controls_client : ControlsClient) where
  monitors_for : List String → List Monitor
  unfolding new_monitor
  monitors_for [] = []
  monitors_for (topic ∷ topics) = new_monitor topic config controls_client ∷ monitors_for topics

-- The monitors that `synchronize` spawns.
unfoldable pub monitors : SynchronizerConfig → List Monitor
unfolding monitors_for with_command_topics new_client
monitors config =
    monitors_for config (new_client config.grpc_alarms_svc_host)
      (with_command_topics config.phoebus_topics)

abbrev pub IsAmong : {A : Type 0} → A → List A → Type 0
IsAmong a [] = ⊥
IsAmong a (b ∷ l) = (a ≡ b) ⊎ IsAmong a l

-- The monitor of the first topic.
pub monitors-cons :
    (config : SynchronizerConfig) (topic : String) (topics : List String)
    → config.phoebus_topics ≡ topic ∷ topics
    → (monitor : Monitor) × (others : List Monitor) × (monitors config ≡ monitor ∷ others)
unfolding monitors with_command_topics monitors_for
monitors-cons config topic topics e =
    let client = new_client config.grpc_alarms_svc_host in
    (
      new_monitor topic config client,
      monitors_for config client (get_command_topic topic ∷ with_command_topics topics),
      rw e refl,
    )

with_command_topics_iff :
    (k : String) (topics : List String) → IsAmong k (with_command_topics topics) ↔ IsServed k topics
unfolding with_command_topics
with_command_topics_iff k [] = (λ h. h, λ h. h)
with_command_topics_iff k (topic ∷ topics) = ground (arith, with_command_topics_iff k topics)

monitors_for_iff :
    (config : SynchronizerConfig) (client : ControlsClient) (topics : List String) (m : Monitor)
    → IsAmong m (monitors_for config client topics)
      ↔ ((m ≡ new_monitor m.topic config client) × IsAmong m.topic topics)
unfolding monitors_for new_monitor
monitors_for_iff config client [] m = (λ h. absurd h, λ h. absurd h.1)
monitors_for_iff config client (topic ∷ topics) m =
    let (to, from) = monitors_for_iff config client topics m in
    (
      λ h. elim h [
        | inl e ↦
            let same = ap Monitor.topic e in
            (e ∙ ap (λ t. new_monitor t config client) (sym same), inl same)
        | inr rest ↦ let (made, among) = to rest in (made, inr among)
      ],
      λ h. elim h.1 [
        | inl same ↦ inl (h.0 ∙ ap (λ t. new_monitor t config client) same)
        | inr among ↦ inr (from (h.0, among))
      ],
    )

-- The monitors that are spawned after the hydration watch, with the configured hosts, exactly the
-- topics for which the Controls synchronizer has a publisher: each configured topic and its command
-- topic.
pub monitors_iff :
    (config : SynchronizerConfig) (m : Monitor)
    → IsAmong m (monitors config) ↔ (
        (m.controls_client.grpc_alarms_svc_host ≡ config.grpc_alarms_svc_host)
        × (m.phoebus_host ≡ config.phoebus_host)
        × IsServed m.topic config.phoebus_topics
        × ((publisher : Publisher) × (get m.topic
                (new config.controls_host config.controls_topic config.phoebus_host
                  config.phoebus_topics).phoebus_publishers
              ≡ some publisher)))
unfolding monitors new_client new_monitor
monitors_iff config m =
    let client = new_client config.grpc_alarms_svc_host in
    let (to, from) = monitors_for_iff config client (with_command_topics config.phoebus_topics) m in
    let (serves, served) = with_command_topics_iff m.topic config.phoebus_topics in
    (
      λ h.
          let (made, among) = to h in
          (
            ap (λ (m : Monitor). m.controls_client.grpc_alarms_svc_host) made,
            ap Monitor.phoebus_host made,
            serves among,
            (
              _,
              (publishers_iff config.controls_host config.controls_topic config.phoebus_host m.topic
                    config.phoebus_topics _).1
                  (refl, serves among),
            ),
          ),
      λ (host, phoebus, serves, published). from (rw (host, phoebus) refl, served serves),
    )
