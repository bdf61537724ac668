-- ===== src/Controls/Publishers.antt =====
-- The publishers that `SyncImpl::new` of controls/mod.rs makes.
use alarms_actions_synchroni.Prelude.{
  String, Bool, true, false, ◌||◌, ◌≡◌, ◌⊎◌, ◌↔◌, refl, some, arith, ◌==◌, string_eq, List, [], ◌∷◌,
  if◌then◌else◌,
}
use alarms_actions_synchroni.Prelude.HashMap.{HashMap, get, insert_all, collect, get-insert}
use alarms_actions_synchroni.External.PubSub.{Publisher}
use alarms_actions_synchroni.Controls.{new, topic_publishers}
use alarms_actions_synchroni.Utils.{get_command_topic}

-- The topic is one of the list, or the command topic of one.
abbrev pub IsServed : String → List String → Type 0
IsServed k [] = ⊥
IsServed k (topic ∷ topics) = ((k ≡ topic) ⊎ (k ≡ get_command_topic topic)) ⊎ IsServed k topics

is_served : String → List String → Bool
is_served k [] = false
is_served k (topic ∷ topics) = (k == topic || k == get_command_topic topic) || is_served k topics

is_served_iff :
    (k : String) (topics : List String) → (is_served k topics ≡ true) ↔ IsServed k topics
unfolding is_served
is_served_iff k [] = ground arith
is_served_iff k (topic ∷ topics) = ground (arith, is_served_iff k topics)

get-topic_publishers :
    (host k : String) (topics : List String) (m : HashMap Publisher)
    → get k (insert_all m (topic_publishers host topics))
      ≡ (if is_served k topics then some (record { host = host; topic = k }) else get k m)
unfolding topic_publishers insert_all is_served
get-topic_publishers host k [] m = refl
get-topic_publishers host k (topic ∷ topics) m =
    rw (get-topic_publishers host k topics _) (simp get-insert (ground arith))

-- Each configured topic and its command topic has a publisher for the Phoebus host and that very
-- topic, and no other topic has one.
pub publishers_iff :
    (controls_host controls_topic phoebus_host k : String) (topics : List String)
    (publisher : Publisher)
    → (get k (new controls_host controls_topic phoebus_host topics).phoebus_publishers
        ≡ some publisher)
      ↔ ((publisher ≡ record { host = phoebus_host; topic = k }) × IsServed k topics)
unfolding new collect get
publishers_iff controls_host controls_topic phoebus_host k topics publisher =
    ground (arith, get-topic_publishers phoebus_host k topics [], is_served_iff k topics)
