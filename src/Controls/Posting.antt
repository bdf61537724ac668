-- ===== src/Controls/Posting.antt =====
-- Which messages `process_runtime_message` of controls/mod.rs posts.
use alarms_actions_synchroni.Prelude.{
  String, false, ◌≡◌, ◌≢◌, ◌⊎◌, ◌↔◌, sym, Option, none, some, ok, arith, List, [], ◌∷◌, ◌++◌, inl,
  inr, ap, ◌∙◌,
}
use alarms_actions_synchroni.Prelude.HashMap.{get}
use alarms_actions_synchroni.External.PubSub.{StringMessage, Publisher}
use alarms_actions_synchroni.Models.Proto.{State, Status, Source, source_eq}
use alarms_actions_synchroni.Models.Cache.{
  CachedState, from_status, suppresses_incoming, read_observed_state_policy, record_alarm_state,
}
use alarms_actions_synchroni.Models.Phoebus.{PvMetadata}
use alarms_actions_synchroni.Models.Phoebus.Key.{Operation}
use alarms_actions_synchroni.Models.Metadata.{lookup_metadata_by_device}
use alarms_actions_synchroni.Utils.{get_command_topic}
use alarms_actions_synchroni.World.{World, Env}
use alarms_actions_synchroni.Controls.Transform
use alarms_actions_synchroni.Controls.Transform.{state_to_operation, get_topic_for_operation}
use alarms_actions_synchroni.Controls.{
  SyncImpl, sync_epics_message_to_phoebus, process_controls_message, process_runtime_message,
  decide_controls_sync,
}
use alarms_actions_synchroni.Controls.Effect.{
  Posts, Mirrors, process_status-epics, process_runtime_message_effect,
}

-- An acknowledgement is a command, on the command topic of the device; a bypass and its end are
-- configs, on the topic itself; no other state has an operation.
abbrev IsRouted : {V : Type 0} → State → PvMetadata V → Operation → String → Type 0
IsRouted state metadata operation topic =
    ((state ≡ State.acknowledged)
      × (operation ≡ Operation.command)
      × (topic ≡ get_command_topic metadata.phoebus_topic))
    ⊎ (((state ≡ State.bypassed) ⊎ (state ≡ State.unbypassed))
        × (operation ≡ Operation.config)
        × (topic ≡ metadata.phoebus_topic))

-- The state is not the one that is recorded, and a bypass is followed only by a bypass or its end.
abbrev IsNews : Option CachedState → CachedState → Type 0
IsNews observed incoming =
    (observed ≡ none)
    ⊎ ((recorded : CachedState) × (observed ≡ some recorded)
        × (recorded ≢ incoming)
        × ((recorded.state ≢ State.bypassed)
            ⊎ ((incoming.state ≡ State.bypassed) ⊎ (incoming.state ≡ State.unbypassed))))

suppresses_incoming_iff :
    (observed : Option CachedState) (incoming : CachedState)
    → (suppresses_incoming (record { observed = observed }) incoming ≡ false)
      ↔ IsNews observed incoming
unfolding suppresses_incoming
suppresses_incoming_iff observed incoming = ground arith

IsRouted-of_operation :
    {V : Type 0} (state : State) (metadata : PvMetadata V) (operation : Operation) (topic : String)
    → state_to_operation state ≡ some operation
    → get_topic_for_operation operation metadata ≡ some topic
    → IsRouted state metadata operation topic
unfolding state_to_operation get_topic_for_operation
IsRouted-of_operation state metadata operation topic relevant routed = ground arith

routed_operation :
    {V : Type 0} (state : State) (metadata : PvMetadata V) (operation : Operation) (topic : String)
    → IsRouted state metadata operation topic
    → (state_to_operation state ≡ some operation)
      × (get_topic_for_operation operation metadata ≡ some topic)
unfolding state_to_operation get_topic_for_operation
routed_operation state metadata operation topic routed = ground arith

module _ {A : Type 0} where
  unequal_append : (l : List A) (a : A) → l ≢ l ++ a ∷ []
  unequal_append [] a = λ e. cc
  unequal_append (b ∷ l) a = λ e. unequal_append l a (ground arith)

  append_injective : (l : List A) (a b : A) → l ++ a ∷ [] ≡ l ++ b ∷ [] → a ≡ b
  append_injective [] a b e = ground arith
  append_injective (c ∷ l) a b e = append_injective l a b (ground arith)

module _ {V D : Type 0} (env : Env V D) (sync : SyncImpl) where
  -- The message is a status of an EPICS device in scope that says news, and this is its message
  -- and where it goes.
  pub record IsMirrored (msg : StringMessage) (publisher : Publisher) (message : StringMessage)
      (w : World V) : Type 0 where
    alarm : Status
    metadata : PvMetadata V
    operation : Operation
    topic : String
    decoded : env.json.status_from_str msg.value ≡ some alarm
    epics : alarm.source ≡ Source.epics
    in_scope : get alarm.device w.metadata_scope ≡ some metadata
    news : IsNews (get alarm.device w.alarm_states) (from_status alarm)
    routed : IsRouted alarm.state metadata operation topic
    served : get topic sync.phoebus_publishers ≡ some publisher
    encoded :
        Transform.controls_to_phoebus env.json env.chrono alarm operation metadata ≡ ok message

  posted :
      (alarm : Status) (operation : Operation) (metadata : PvMetadata V) (topic : String)
      (publisher : Publisher) (message : StringMessage) (w : World V)
      → get alarm.device w.metadata_scope ≡ some metadata
      → state_to_operation alarm.state ≡ some operation
      → suppresses_incoming
          (record { observed = get alarm.device w.alarm_states })
          (from_status alarm)
        ≡ false
      → get_topic_for_operation operation metadata ≡ some topic
      → get topic sync.phoebus_publishers ≡ some publisher
      → Transform.controls_to_phoebus env.json env.chrono alarm operation metadata ≡ ok message
      → (process_controls_message env sync alarm
          (read_observed_state_policy w.alarm_states alarm.device)
          w).1.published
        ≡ w.published ++ (publisher, message) ∷ []
  unfolding process_controls_message decide_controls_sync read_observed_state_policy
      record_alarm_state lookup_metadata_by_device from_status sync_epics_message_to_phoebus
  posted alarm operation metadata topic publisher message w in_scope relevant fresh routed served
        encoded =
      ground arith

  posts :
      (msg : StringMessage) (publisher : Publisher) (message : StringMessage) (w : World V)
      → IsMirrored msg publisher message w
      → (process_runtime_message env sync msg w).1.published
        ≡ w.published ++ (publisher, message) ∷ []
  unfolding process_runtime_message
  posts msg publisher message w m =
      let (relevant, routed) =
        routed_operation m.alarm.state m.metadata m.operation m.topic m.routed in
      let fresh =
        (suppresses_incoming_iff (get m.alarm.device w.alarm_states) (from_status m.alarm)).1
          m.news in
      rw (m.decoded, process_runtime_message, process_status-epics env sync m.alarm w m.epics)
        (posted m.alarm m.operation m.metadata m.topic publisher message w m.in_scope relevant fresh
          routed m.served m.encoded)

  -- What was posted, from what the handler changes.
  IsMirrored-of_Posts :
      (msg : StringMessage) (publisher : Publisher) (message : StringMessage) (w w' : World V)
      (alarm : Status)
      → env.json.status_from_str msg.value ≡ some alarm
      → alarm.source ≡ Source.epics
      → (m : Mirrors env sync alarm w w')
      → Posts env sync alarm m.operation m.metadata w.published w'.published
      → w'.published ≡ w.published ++ (publisher, message) ∷ []
      → IsMirrored msg publisher message w
  IsMirrored-of_Posts msg publisher message w w' alarm decoded epics m p e =
      let same = append_injective w.published _ _ (sym p.posted ∙ e) in
      record {
        alarm = alarm;
        metadata = m.metadata;
        operation = m.operation;
        topic = p.topic;
        decoded = decoded;
        epics = epics;
        in_scope = m.in_scope;
        news =
            (suppresses_incoming_iff (get alarm.device w.alarm_states) (from_status alarm)).0
              m.fresh;
        routed =
            IsRouted-of_operation alarm.state m.metadata m.operation p.topic m.relevant p.routed;
        served = p.served ∙ ap (λ (x : Publisher × StringMessage). some x.0) same;
        encoded = p.encoded ∙ ap (λ (x : Publisher × StringMessage). ok x.1) same;
      }

  -- The handling of a message from Controls posts a message to Phoebus exactly when its text is a
  -- status of an EPICS device in scope, whose state or wake time is not the recorded one and, where
  -- a bypass is recorded, which is a bypass or its end; and then the posted one is its encoding, an
  -- acknowledgement as a command to the publisher of the command topic of the device and a bypass
  -- or its end as a config to that of its topic. Any other state is not posted, and neither is a
  -- status without a publisher or without an encoding.
  pub process_runtime_message_iff :
      (msg : StringMessage) (publisher : Publisher) (message : StringMessage) (w : World V)
      → ((process_runtime_message env sync msg w).1.published
          ≡ w.published ++ (publisher, message) ∷ [])
        ↔ IsMirrored msg publisher message w
  process_runtime_message_iff msg publisher message w = (
    λ e. elim (process_runtime_message_effect env sync msg w) [
      | inl same ↦ absurd (
          unequal_append w.published (publisher, message)
            (sym (ap (λ (v : World V). v.published) same) ∙ e))
      | inr (alarm, decoded, epics, m) ↦ elim m.outbound [
        | inl unposted ↦ absurd (unequal_append w.published (publisher, message) (sym unposted ∙ e))
        | inr p ↦ IsMirrored-of_Posts msg publisher message w _ alarm decoded epics m p e
      ]
    ],
    posts msg publisher message w,
  )
