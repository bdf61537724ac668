-- ===== src/Phoebus/Init/Startup.antt =====
-- What `get_existing_messages_from_phoebus` of phoebus/init/mod.rs leaves in the two caches.
use alarms_actions_synchroni.Prelude.{
  String, ◌≡◌, refl, none, some, arith, Option-cases, inl, inr, Option, List, [], ◌∷◌, string_eq,
}
use mathlib.Core.Option
use alarms_actions_synchroni.Prelude.HashMap.{get}
use alarms_actions_synchroni.Models.Proto.{State}
use alarms_actions_synchroni.Models.Cache.{CachedState}
use alarms_actions_synchroni.World.{World, Env}
use alarms_actions_synchroni.Phoebus.Init.{
  populate_caches, or_empty, get_existing_messages_from_phoebus,
}
use alarms_actions_synchroni.Phoebus.Init.Bypass.{states, topic_keeps, topic_records}
use alarms_actions_synchroni.Phoebus.Init.Evidence.{
  ConfigRecord, metadata_of, later, last_config_record, metadata-populate_caches,
}

module _ {V D : Type 0} (env : Env V D) (device : String) where
  -- The last config record of the device in all the topics, with its topic.
  unfoldable pub startup_record : String → List String → Option (String × ConfigRecord V)
  startup_record host [] = none
  startup_record host (topic ∷ topics) = later (startup_record host topics) (
      Option.map (λ r. (topic, r))
        (last_config_record env device (or_empty (env.snapshot host topic)) topic))

  -- After startup a device is in scope exactly if it was before or one of the configured topics
  -- holds a readable config record of it; its metadata are those of the last such record.
  pub startup_scope :
      (host : String) (topics : List String) (w : World V)
      → get device (get_existing_messages_from_phoebus env host topics w).metadata_scope
        ≡ later
            (Option.map (λ (topic, r). metadata_of topic r) (startup_record host topics))
            (get device w.metadata_scope)
  unfolding get_existing_messages_from_phoebus startup_record
  startup_scope host [] w = refl
  startup_scope host (topic ∷ topics) w =
      let messages = or_empty (env.snapshot host topic) in
      ground (
        arith,
        startup_scope host topics (populate_caches env messages topic w),
        metadata-populate_caches env device messages topic w,
      )

  startup_keeps :
      (host : String) (topics : List String) (w : World V) (s : CachedState)
      → startup_record host topics ≡ none
      → states env device w ≡ some s
      → s.state ≡ State.bypassed
      → states env device (get_existing_messages_from_phoebus env host topics w) ≡ some s
  unfolding get_existing_messages_from_phoebus startup_record
  startup_keeps host [] w s e old bypass = old
  startup_keeps host (topic ∷ topics) w s e old bypass =
      let messages = or_empty (env.snapshot host topic) in
      startup_keeps host topics (populate_caches env messages topic w) s (ground arith)
        (topic_keeps env device messages topic w s (ground arith) old bypass) bypass

  -- If the last config record of a device says that it is bypassed or snoozed, that state stands in
  -- the cache after startup, whatever state records the topics hold and wherever they stand.
  pub startup_bypass :
      (host : String) (topics : List String) (w : World V) (topic : String) (r : ConfigRecord V)
      → startup_record host topics ≡ some (topic, r)
      → r.2.state ≡ State.bypassed
      → states env device (get_existing_messages_from_phoebus env host topics w) ≡ some r.2
  unfolding get_existing_messages_from_phoebus startup_record
  startup_bypass host [] w topic r e bypass = absurd (ground arith)
  startup_bypass host (t ∷ topics) w topic r e bypass =
      let messages = or_empty (env.snapshot host t) in
      let w' = populate_caches env messages t w in
      elim (Option-cases (startup_record host topics)) [
        | inr (found, later_found) ↦ startup_bypass host topics w' topic r (ground arith) bypass
        | inl none_later ↦
            startup_keeps host topics w' r.2 none_later
              (topic_records env device messages t w r (ground arith) bypass) bypass
      ]
