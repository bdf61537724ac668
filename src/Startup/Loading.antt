-- ===== src/Startup/Loading.antt =====
-- When `create_synchronizer_config` of main.rs succeeds, and what it makes.
use alarms_actions_synchroni.Prelude.{
  List, ◌∷◌, refl, String, Option, some, ok, ◌≡◌, arith, inl, inr, Option-cases,
}
use alarms_actions_synchroni.Prelude.Text.{trim}
use alarms_actions_synchroni.Prelude.Text.Splitting.{split_cons}
use alarms_actions_synchroni.Startup.{
  SynchronizerConfig, create_synchronizer_config, topic_list, trim_all,
}

-- Every variable is set, and the configuration has their values.
pub record IsLoaded (variable : String → Option String) (c : SynchronizerConfig) : Type 0 where
  controls_host : variable "CONTROLS_HOST" ≡ some c.controls_host
  controls_topic : variable "CONTROLS_TOPIC" ≡ some c.controls_topic
  grpc_alarms_svc_host : variable "GRPC_ALARMS_SERVICE_HOST" ≡ some c.grpc_alarms_svc_host
  phoebus_host : variable "PHOEBUS_HOST" ≡ some c.phoebus_host
  pub topics : String
  topics_set : variable "PHOEBUS_TOPICS" ≡ some topics
  pub phoebus_topics : c.phoebus_topics ≡ topic_list topics

-- There is a first topic, which is empty if the variable is.
pub topic_list-cons :
    (value : String)
    → (topic : String) × (topics : List String) × (topic_list value ≡ topic ∷ topics)
unfolding topic_list
topic_list-cons value =
    let (part, parts, e) = split_cons value "," in (trim part, trim_all parts, rw e refl)

module _ (variable : String → Option String) where
  pub loaded :
      (c : SynchronizerConfig) → create_synchronizer_config variable ≡ ok c → IsLoaded variable c
  unfolding create_synchronizer_config
  loaded c e = elim (Option-cases (variable "CONTROLS_HOST")) [
    | inl a ↦ absurd (ground arith)
    | inr (host, a) ↦ elim (Option-cases (variable "CONTROLS_TOPIC")) [
      | inl b ↦ absurd (ground arith)
      | inr (topic, b) ↦ elim (Option-cases (variable "GRPC_ALARMS_SERVICE_HOST")) [
        | inl d ↦ absurd (ground arith)
        | inr (svc, d) ↦ elim (Option-cases (variable "PHOEBUS_HOST")) [
          | inl f ↦ absurd (ground arith)
          | inr (phoebus, f) ↦ elim (Option-cases (variable "PHOEBUS_TOPICS")) [
            | inl g ↦ absurd (ground arith)
            | inr (topics, g) ↦ record {
              controls_host = ground arith;
              controls_topic = ground arith;
              grpc_alarms_svc_host = ground arith;
              phoebus_host = ground arith;
              topics = topics;
              topics_set = g;
              phoebus_topics = ground arith;
            }
          ]
        ]
      ]
    ]
  ]
