-- ===== src/Phoebus/Init/Bypass.antt =====
-- What `populate_caches` of phoebus/init/mod.rs does to the alarm state of one device.
use alarms_actions_synchroni.Prelude.{
  String, ◌≡◌, none, some, arith, Option-cases, Result-cases, inl, inr, Option, List, [], ◌∷◌,
  length, ◌==◌, string_eq, if◌then◌else◌,
}
use alarms_actions_synchroni.Prelude.Int.{ℤ}
use alarms_actions_synchroni.Prelude.HashMap.{get, get-insert}
use alarms_actions_synchroni.External.PubSub.{StringMessage}
use alarms_actions_synchroni.Models.Proto.{State}
use alarms_actions_synchroni.Models.Cache.{
  CachedState, record_alarm_state, record_startup_state_evidence,
}
use alarms_actions_synchroni.Models.Phoebus.Key.{Key, Operation, parse}
use alarms_actions_synchroni.World.{World, Env}
use alarms_actions_synchroni.Phoebus.Init.{
  read_config, hydrate_message, handle_parsed, handle_config, handle, hydrate, handle_severity,
  handle_state, extract_severity, severity_state, populate_caches,
}
use alarms_actions_synchroni.Phoebus.Init.Evidence.{
  ConfigRecord, record_of_operation, config_record, last_config_record,
}

module _ {V D : Type 0} (env : Env V D) (device : String) where
  abbrev pub states : World V → Option CachedState
  states w = get device w.alarm_states

  -- A config record of the device is recorded over what was there.
  states-handle_record :
      (now : ℤ) (topic : String) (key : Key) (operation : Operation) (value : String) (w : World V)
      (r : ConfigRecord V)
      → (if device == key.device
          then record_of_operation env device now key operation value
          else none)
        ≡ some r
      → states (handle env now topic key operation value w).1 ≡ some r.2
  unfolding handle handle_config hydrate record_alarm_state
  states-handle_record now topic key Operation.config value w r e =
      elim (Result-cases (read_config env now value)) [
        | inr (failure, unread) ↦ absurd (ground arith)
        | inl ((config, s), read) ↦ ground (arith, get-insert key.device device s w.alarm_states)
      ]
  states-handle_record now topic key _ value w r e = absurd (ground arith)

  -- Whatever is no config record of the device leaves its bypass alone.
  states-handle_bypass :
      (now : ℤ) (topic : String) (key : Key) (operation : Operation) (value : String) (w : World V)
      (s : CachedState)
      → (if device == key.device
          then record_of_operation env device now key operation value
          else none)
        ≡ none
      → states w ≡ some s
      → s.state ≡ State.bypassed
      → states (handle env now topic key operation value w).1 ≡ some s
  unfolding handle handle_config hydrate record_alarm_state handle_state handle_severity
      record_startup_state_evidence
  states-handle_bypass now topic key Operation.config value w s e old bypass =
      elim (Result-cases (read_config env now value)) [
        | inr (failure, unread) ↦ ground arith
        | inl ((config, s'), read) ↦ ground (arith, get-insert key.device device s' w.alarm_states)
      ]
  states-handle_bypass now topic key Operation.state value w s e old bypass =
      elim (Option-cases (extract_severity env value)) [
        | inl none_found ↦ ground arith
        | inr (severity, found) ↦ ground (
          arith,
          get-insert key.device device (record { state = severity_state severity; wake = none })
              w.alarm_states,
        )
      ]
  states-handle_bypass now topic key Operation.command value w s e old bypass = old

  states-message_record :
      (now : ℤ) (topic : String) (msg : StringMessage) (w : World V) (r : ConfigRecord V)
      → config_record env device now msg ≡ some r
      → states (hydrate_message env now topic msg w) ≡ some r.2
  unfolding hydrate_message
  states-message_record now topic msg w r e = elim (Option-cases msg.key) [
    | inl missing ↦ absurd (ground arith)
    | inr (text, present) ↦ elim (Result-cases (parse text)) [
      | inr (failure, bad) ↦ absurd (ground arith)
      | inl (key, good) ↦
          rw (present, hydrate_message, good, handle_parsed)
            (states-handle_record now topic key key.operation msg.value w r (ground arith))
    ]
  ]

  states-message_bypass :
      (now : ℤ) (topic : String) (msg : StringMessage) (w : World V) (s : CachedState)
      → config_record env device now msg ≡ none
      → states w ≡ some s
      → s.state ≡ State.bypassed
      → states (hydrate_message env now topic msg w) ≡ some s
  unfolding hydrate_message
  states-message_bypass now topic msg w s e old bypass = elim (Option-cases msg.key) [
    | inl missing ↦ ground arith
    | inr (text, present) ↦ elim (Result-cases (parse text)) [
      | inr (failure, bad) ↦ ground arith
      | inl (key, good) ↦
          rw (present, hydrate_message, good, handle_parsed)
            (states-handle_bypass now topic key key.operation msg.value w s (ground arith) old
              bypass)
    ]
  ]

  -- Of the messages of one topic: no config record, and a bypass stays.
  pub topic_keeps :
      (messages : List StringMessage) (topic : String) (w : World V) (s : CachedState)
      → last_config_record env device messages topic ≡ none
      → states w ≡ some s
      → s.state ≡ State.bypassed
      → states (populate_caches env messages topic w) ≡ some s
  unfolding populate_caches last_config_record
  topic_keeps [] topic w s e old bypass = old
  topic_keeps (msg ∷ messages) topic w s e old bypass =
      let now = env.startup_clock topic (length messages) in
      topic_keeps messages topic (hydrate_message env now topic msg w) s (ground arith)
        (states-message_bypass now topic msg w s (ground arith) old bypass) bypass

  -- The last config record says bypassed, and the messages after it leave that.
  pub topic_records :
      (messages : List StringMessage) (topic : String) (w : World V) (r : ConfigRecord V)
      → last_config_record env device messages topic ≡ some r
      → r.2.state ≡ State.bypassed
      → states (populate_caches env messages topic w) ≡ some r.2
  unfolding populate_caches last_config_record
  topic_records [] topic w r e bypass = absurd (ground arith)
  topic_records (msg ∷ messages) topic w r e bypass =
      let now = env.startup_clock topic (length messages) in
      elim (Option-cases (last_config_record env device messages topic)) [
        | inr (r', found) ↦
            topic_records messages topic (hydrate_message env now topic msg w) r (ground arith)
              bypass
        | inl none_later ↦
            topic_keeps messages topic (hydrate_message env now topic msg w) r.2 none_later
              (states-message_record now topic msg w r (ground arith)) bypass
      ]
