-- ===== src/Controls/Topics.antt =====
-- `get_command_topic` of utils/mod.rs, `normalize_topic` and `PvMetadata::from_unmapped` of
-- models/phoebus/mod.rs, and `get_topic_for_operation` of controls/transform/mod.rs.
use alarms_actions_synchroni.Prelude.{
  String, ◌≡◌, ◌≢◌, none, some, arith, Option-cases, inl, inr, unwrap_or,
}
use alarms_actions_synchroni.Prelude.Text.{strip_suffix}
use alarms_actions_synchroni.Prelude.Text.Suffixes.{strip_suffix-append, strip_suffix-inverse}
use alarms_actions_synchroni.Models.Phoebus.{PvMetadata, normalize_topic, from_unmapped}
use alarms_actions_synchroni.Models.Phoebus.Key.{Key, Operation}
use alarms_actions_synchroni.Controls.Transform.{get_topic_for_operation}
use alarms_actions_synchroni.Utils.{get_command_topic}

-- A topic that is not the command topic of another.
abbrev pub IsBaseTopic : String → Type 0
IsBaseTopic topic = (base : String) → topic ≢ get_command_topic base

pub normalize_topic-get_command_topic :
    (topic : String) → normalize_topic (get_command_topic topic) ≡ topic
unfolding normalize_topic get_command_topic
normalize_topic-get_command_topic topic = rw (strip_suffix-append topic "Command", unwrap_or)

normalize_topic_of_base : (topic : String) → IsBaseTopic topic → normalize_topic topic ≡ topic
unfolding normalize_topic get_command_topic
normalize_topic_of_base topic base = elim (Option-cases (strip_suffix topic "Command")) [
  | inl kept ↦ rw (kept, unwrap_or)
  | inr (s, cut) ↦ absurd (base s (strip_suffix-inverse topic "Command" s cut))
]

-- Where the messages about a device go that was discovered on a topic.
abbrev pub RoutesTo : {V : Type 0} → PvMetadata V → String → Type 0
RoutesTo metadata topic =
    (get_topic_for_operation Operation.config metadata ≡ some topic)
    × (get_topic_for_operation Operation.command metadata ≡ some (get_command_topic topic))
    × (get_topic_for_operation Operation.state metadata ≡ none)

-- Whether a device is discovered on a base topic or on its command topic, its configs are
-- published on the base topic, its commands on the command topic, and its states nowhere.
pub RoutesTo-from_unmapped :
    (V : Type 0) (key : Key) (topic : String)
    → IsBaseTopic topic
    → RoutesTo (from_unmapped {V = V} key topic) topic
      × RoutesTo (from_unmapped {V = V} key (get_command_topic topic)) topic
unfolding get_topic_for_operation from_unmapped
RoutesTo-from_unmapped V key topic base =
    ground (arith, normalize_topic_of_base topic base, normalize_topic-get_command_topic topic)
