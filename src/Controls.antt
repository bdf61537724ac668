-- ===== src/Controls.antt =====
-- controls/mod.rs: the synchronizer from Controls to Phoebus.
pub mod Transform
pub mod Publishers
pub mod Effect
pub mod Posting
pub mod Topics
pub mod Loop
pub mod Tasks
use alarms_actions_synchroni.Prelude.{
  String, Option, none, some, Result, ok, err, ◌==◌, not, length, List, [], ◌∷◌, ◌++◌, ok_or,
  if◌then◌else◌, ◌>>=◌, true, false, Bool,
}
use alarms_actions_synchroni.Prelude.HashMap.{HashMap, get, collect}
use alarms_actions_synchroni.External.PubSub.{StringMessage, Publisher}
use alarms_actions_synchroni.Models.Proto.{State, Source, Status, source_eq}
use alarms_actions_synchroni.Models.Cache.{
  CachedState, ObservedStatePolicy, from_status, suppresses_incoming, read_observed_state_policy,
  record_alarm_state,
}
use alarms_actions_synchroni.Models.Outcomes.{
  SyncOutcome, ignored, SyncDirection, IgnoreReason, OutboundSyncResult, SkipReason,
  into_sync_outcome,
}
use alarms_actions_synchroni.Models.Phoebus.{PvMetadata}
use alarms_actions_synchroni.Models.Phoebus.Key.{Operation}
use alarms_actions_synchroni.Models.Metadata.{lookup_metadata_by_device}
use alarms_actions_synchroni.World.{World, Env}
use Transform.{state_to_operation, get_topic_for_operation}
use Transform
use alarms_actions_synchroni.Utils.{get_command_topic}

-- `SyncImpl` without the two shared caches, which stand in the world.
pub record SyncImpl : Type 0 where
  pub controls_host : String
  pub controls_topic : String
  pub phoebus_publishers : HashMap Publisher

-- The `flat_map` of `new`: a publisher for each topic and for its command topic.
unfoldable pub topic_publishers : String → List String → List (String × Publisher)
topic_publishers host [] = []
topic_publishers host (topic ∷ topics) =
    (topic, record { host = host; topic = topic })
    ∷ (get_command_topic topic, record { host = host; topic = get_command_topic topic })
    ∷ topic_publishers host topics

-- `new`
unfoldable pub new : String → String → String → List String → SyncImpl
unfolding topic_publishers
new controls_host controls_topic phoebus_host phoebus_topics = record {
  controls_host = controls_host;
  controls_topic = controls_topic;
  phoebus_publishers = collect (topic_publishers phoebus_host phoebus_topics);
}

pub data ControlsInboundDecision (V : Type 0) : Type 0 where
  ignore_non_sync_state out_of_scope suppressed_by_policy : ControlsInboundDecision V
  sync_to_phoebus : Operation → PvMetadata V → CachedState → ControlsInboundDecision V

-- The outcomes that these functions log and return.
abbrev pub handle_acnet_device : String → Source → SyncOutcome
handle_acnet_device device source = ignored IgnoreReason.external_source

abbrev pub handle_non_sync_controls_state : String → State → SyncOutcome
handle_non_sync_controls_state device state = ignored IgnoreReason.state_noise

abbrev pub handle_out_of_scope_decision : String → SyncOutcome
handle_out_of_scope_decision device = SyncOutcome.out_of_scope

abbrev pub handle_suppressed_by_policy : Status → SyncOutcome
handle_suppressed_by_policy controls_alarm = ignored IgnoreReason.suppressed_by_policy

module _ {V : Type 0} where
  decide_known :
      Status → ObservedStatePolicy → PvMetadata V → Option Operation → ControlsInboundDecision V
  decide_known controls_alarm previous pv_metadata none =
      ControlsInboundDecision.ignore_non_sync_state
  decide_known controls_alarm previous pv_metadata (some operation) =
      if suppresses_incoming previous (from_status controls_alarm)
      then ControlsInboundDecision.suppressed_by_policy
      else sync_to_phoebus operation pv_metadata (from_status controls_alarm)

  unfoldable pub decide_controls_sync :
      Status → ObservedStatePolicy → Option (PvMetadata V) → ControlsInboundDecision V
  unfolding decide_known
  decide_controls_sync controls_alarm previous none = ControlsInboundDecision.out_of_scope
  decide_controls_sync controls_alarm previous (some pv_metadata) =
      decide_known controls_alarm previous pv_metadata
        (state_to_operation (from_status controls_alarm).state)

module _ {V D : Type 0} (env : Env V D) (sync : SyncImpl) where
  unfoldable pub deserialize_status : StringMessage → Result Status (Unit {0})
  deserialize_status msg = ok_or (env.json.status_from_str msg.value) tt

  -- `publisher.publish(message)`, and the two arms on its result.
  publish : Option Publisher → StringMessage → World V → OutboundSyncResult × World V
  publish none message w = (OutboundSyncResult.skipped SkipReason.missing_publisher, w)
  publish (some publisher) message w = (
    (if env.delivers (length w.published)
        then OutboundSyncResult.succeeded
        else OutboundSyncResult.failed),
    record w { published = w.published ++ (publisher, message) ∷ [] },
  )

  publish_result : String → Result StringMessage (Unit {0}) → World V → OutboundSyncResult × World V
  unfolding publish
  publish_result topic (err e) w = (OutboundSyncResult.skipped SkipReason.malformed_message, w)
  publish_result topic (ok message) w = publish (get topic sync.phoebus_publishers) message w

  sync_on_topic :
      Option String → Status → Operation → PvMetadata V → World V → OutboundSyncResult × World V
  unfolding publish_result
  sync_on_topic none controls_alarm operation pv_metadata w =
      (OutboundSyncResult.skipped SkipReason.missing_topic, w)
  sync_on_topic (some topic) controls_alarm operation pv_metadata w =
      publish_result topic
        (Transform.controls_to_phoebus env.json env.chrono controls_alarm operation pv_metadata) w

  unfoldable pub sync_epics_message_to_phoebus :
      Status → Operation → PvMetadata V → World V → OutboundSyncResult × World V
  unfolding sync_on_topic
  sync_epics_message_to_phoebus controls_alarm operation pv_metadata w =
      sync_on_topic (get_topic_for_operation operation pv_metadata) controls_alarm operation
        pv_metadata w

  -- The arms of the `match` on the decision.
  act : Status → ControlsInboundDecision V → World V → SyncOutcome × World V
  act controls_alarm ControlsInboundDecision.ignore_non_sync_state w =
      (handle_non_sync_controls_state controls_alarm.device controls_alarm.state, w)
  act controls_alarm ControlsInboundDecision.out_of_scope w =
      (handle_out_of_scope_decision controls_alarm.device, w)
  act controls_alarm ControlsInboundDecision.suppressed_by_policy w =
      (handle_suppressed_by_policy controls_alarm, w)
  act controls_alarm (sync_to_phoebus operation pv_metadata updated_state) w =
      let (result, w') = sync_epics_message_to_phoebus controls_alarm operation pv_metadata w in
      (
        into_sync_outcome result SyncDirection.controls_to_phoebus,
        record w' {
          alarm_states = record_alarm_state w'.alarm_states controls_alarm.device updated_state;
        },
      )

  unfoldable pub process_controls_message :
      Status → ObservedStatePolicy → World V → SyncOutcome × World V
  unfolding act
  process_controls_message controls_alarm previous w =
      act controls_alarm
        (decide_controls_sync controls_alarm previous
          (lookup_metadata_by_device w.metadata_scope controls_alarm.device))
        w

  unfoldable pub process_status : Status → World V → SyncOutcome × World V
  process_status controls_alarm w =
      if not (controls_alarm.source == Source.epics)
      then (handle_acnet_device controls_alarm.device controls_alarm.source, w)
      else process_controls_message controls_alarm
          (read_observed_state_policy w.alarm_states controls_alarm.device) w

  -- `process_runtime_message`; an error leaves the world as it was.
  unfoldable pub process_runtime_message :
      StringMessage → World V → Result SyncOutcome (Unit {0}) × World V
  unfolding deserialize_status
  process_runtime_message msg w = elim (deserialize_status msg) [
    | err e ↦ (err e, w)
    | ok controls_alarm ↦ let (outcome, w') = process_status controls_alarm w in (ok outcome, w')
  ]
