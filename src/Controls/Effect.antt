-- ===== src/Controls/Effect.antt =====
-- What `process_runtime_message` of controls/mod.rs changes, and when.
use alarms_actions_synchroni.Prelude.{
  String, false, ◌≡◌, ◌⊎◌, refl, some, ok, arith, List, [], ◌∷◌, ◌++◌, inl, inr, Option-cases,
  Result-cases, Bool-cases, ap,
}
use alarms_actions_synchroni.Prelude.HashMap.{get, insert}
use alarms_actions_synchroni.External.PubSub.{StringMessage, Publisher}
use alarms_actions_synchroni.Models.Proto.{Status, Source, source_eq}
use alarms_actions_synchroni.Models.Cache.{
  from_status, suppresses_incoming, read_observed_state_policy, record_alarm_state,
}
use alarms_actions_synchroni.Models.Phoebus.{PvMetadata}
use alarms_actions_synchroni.Models.Phoebus.Key.{Operation}
use alarms_actions_synchroni.Models.Metadata.{lookup_metadata_by_device}
use alarms_actions_synchroni.World.{World, Env}
use alarms_actions_synchroni.Controls.Transform
use alarms_actions_synchroni.Controls.Transform.{state_to_operation, get_topic_for_operation}
use alarms_actions_synchroni.Controls.{
  SyncImpl, sync_epics_message_to_phoebus, process_controls_message, process_status,
  process_runtime_message, decide_controls_sync,
}

module _ {V D : Type 0} (env : Env V D) (sync : SyncImpl) where
  -- One message is handed to the publisher of the topic that the device's metadata give.
  pub record Posts (alarm : Status) (operation : Operation) (metadata : PvMetadata V)
      (before after : List (Publisher × StringMessage)) : Type 0 where
    pub topic : String
    pub publisher : Publisher
    pub message : StringMessage
    pub routed : get_topic_for_operation operation metadata ≡ some topic
    pub served : get topic sync.phoebus_publishers ≡ some publisher
    pub encoded :
        Transform.controls_to_phoebus env.json env.chrono alarm operation metadata ≡ ok message
    pub posted : after ≡ before ++ (publisher, message) ∷ []

  -- The alarm is recorded as observed and at most one message is posted; nothing else changes.
  pub record Mirrors (alarm : Status) (w w' : World V) : Type 0 where
    pub metadata : PvMetadata V
    pub operation : Operation
    pub in_scope : get alarm.device w.metadata_scope ≡ some metadata
    pub relevant : state_to_operation alarm.state ≡ some operation
    pub fresh :
        suppresses_incoming
          (record { observed = get alarm.device w.alarm_states })
          (from_status alarm)
        ≡ false
    pub recorded : w'.alarm_states ≡ insert alarm.device (from_status alarm) w.alarm_states
    pub same_scope : w'.metadata_scope ≡ w.metadata_scope
    pub same_sent : w'.sent ≡ w.sent
    pub outbound :
        (w'.published ≡ w.published) ⊎ Posts alarm operation metadata w.published w'.published

  record Attempt (alarm : Status) (operation : Operation) (metadata : PvMetadata V) (w w' : World V)
      : Type 0 where
    same_states : w'.alarm_states ≡ w.alarm_states
    same_scope : w'.metadata_scope ≡ w.metadata_scope
    same_sent : w'.sent ≡ w.sent
    outbound :
        (w'.published ≡ w.published) ⊎ Posts alarm operation metadata w.published w'.published

  attempt :
      (alarm : Status) (operation : Operation) (metadata : PvMetadata V) (w : World V)
      → Attempt alarm operation metadata w
          (sync_epics_message_to_phoebus env sync alarm operation metadata w).1
  unfolding sync_epics_message_to_phoebus
  attempt alarm operation metadata w =
      elim (Option-cases (get_topic_for_operation operation metadata)) [
        | inl unrouted ↦ ground arith
        | inr (topic, routed) ↦
            elim (Result-cases
              (Transform.controls_to_phoebus env.json env.chrono alarm operation metadata)) [
                | inr (e, malformed) ↦ ground arith
                | inl (message, encoded) ↦ elim (Option-cases (get topic sync.phoebus_publishers)) [
                  | inl unserved ↦ ground arith
                  | inr (publisher, served) ↦ record {
                    same_states = ground arith;
                    same_scope = ground arith;
                    same_sent = ground arith;
                    outbound = inr (record {
                      topic = topic;
                      publisher = publisher;
                      message = message;
                      routed = routed;
                      served = served;
                      encoded = encoded;
                      posted = ground arith;
                    });
                  }
                ]
              ]
      ]

  mirrors :
      (alarm : Status) (metadata : PvMetadata V) (operation : Operation) (w : World V)
      → get alarm.device w.metadata_scope ≡ some metadata
      → state_to_operation alarm.state ≡ some operation
      → suppresses_incoming
          (record { observed = get alarm.device w.alarm_states })
          (from_status alarm)
        ≡ false
      → Mirrors alarm w
          (process_controls_message env sync alarm
            (read_observed_state_policy w.alarm_states alarm.device)
            w).1
  unfolding process_controls_message decide_controls_sync read_observed_state_policy
      record_alarm_state lookup_metadata_by_device from_status
  mirrors alarm metadata operation w in_scope relevant fresh =
      let done = attempt alarm operation metadata w in
      rw (in_scope, decide_controls_sync, relevant, fresh)
        (record {
          metadata = metadata;
          operation = operation;
          in_scope = in_scope;
          relevant = relevant;
          fresh = fresh;
          recorded = ap (insert alarm.device (from_status alarm)) done.same_states;
          same_scope = done.same_scope;
          same_sent = done.same_sent;
          outbound = done.outbound;
        })

  process_controls_message_effect :
      (alarm : Status) (w : World V)
      → let w' =
          (process_controls_message env sync alarm
            (read_observed_state_policy w.alarm_states alarm.device)
            w).1 in
        (w' ≡ w) ⊎ Mirrors alarm w w'
  unfolding process_controls_message decide_controls_sync read_observed_state_policy
      lookup_metadata_by_device from_status
  process_controls_message_effect alarm w =
      elim (Option-cases (get alarm.device w.metadata_scope)) [
        | inl unknown ↦ inl (ground arith)
        | inr (metadata, in_scope) ↦ elim (Option-cases (state_to_operation alarm.state)) [
          | inl noise ↦ inl (ground arith)
          | inr (operation, relevant) ↦
              elim (Bool-cases (
                suppresses_incoming (record { observed = get alarm.device w.alarm_states })
                  (from_status alarm))) [
                    | inl suppressed ↦ inl (ground arith)
                    | inr fresh ↦ inr (mirrors alarm metadata operation w in_scope relevant fresh)
                  ]
        ]
      ]

  pub process_status-epics :
      (alarm : Status) (w : World V)
      → alarm.source ≡ Source.epics
      → process_status env sync alarm w
        ≡ process_controls_message env sync alarm
            (read_observed_state_policy w.alarm_states alarm.device)
            w
  unfolding process_status
  process_status-epics alarm w epics = ground arith

  pub process_runtime_message_effect :
      (msg : StringMessage) (w : World V)
      → ((process_runtime_message env sync msg w).1 ≡ w)
        ⊎ ((alarm : Status) × (env.json.status_from_str msg.value ≡ some alarm)
            × (alarm.source ≡ Source.epics)
            × Mirrors alarm w (process_runtime_message env sync msg w).1)
  unfolding process_runtime_message process_status
  process_runtime_message_effect msg w = elim (Option-cases (env.json.status_from_str msg.value)) [
    | inl malformed ↦ inl (ground arith)
    | inr (alarm, decoded) ↦ elim (source_eq.dec alarm.source Source.epics) [
      | no other ↦ inl (ground arith)
      | yes epics ↦
          rw (decoded, process_runtime_message, process_status-epics alarm w epics)
            (elim (process_controls_message_effect alarm w) [
              | inl same ↦ inl same
              | inr changed ↦ inr (alarm, refl, epics, changed)
            ])
    ]
  ]
