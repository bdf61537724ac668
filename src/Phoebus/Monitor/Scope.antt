-- ===== src/Phoebus/Monitor/Scope.antt =====
-- Which runtime configs bring a device into scope, in phoebus/monitor/mod.rs.
use alarms_actions_synchroni.Prelude.{
  String, true, ◌≡◌, ◌≢◌, ◌⊎◌, refl, none, some, ok, arith, inl, inr, unwrap_or, [], ◌∷◌,
  Option-cases, ap, Bool,
}
use alarms_actions_synchroni.Prelude.Int.{ℤ}
use alarms_actions_synchroni.Prelude.HashMap.{HashMap, get, equals, get-insert_self}
use alarms_actions_synchroni.Models.Cache.{CachedState, suppresses_incoming}
use alarms_actions_synchroni.Models.Metadata.{lookup_metadata_by_device}
use alarms_actions_synchroni.Models.Outcomes.{SyncOutcome}
use alarms_actions_synchroni.Models.Phoebus.{Config, PvMetadata, as_cached_state, from_unmapped}
use alarms_actions_synchroni.Models.Phoebus.Key.{Key}
use alarms_actions_synchroni.Models.Phoebus.Wire.{bool_or_string}
use alarms_actions_synchroni.World.{World, Env}
use alarms_actions_synchroni.Phoebus.Monitor.{Monitor, process_config, get_pv_metadata}
use alarms_actions_synchroni.Phoebus.Monitor.Effect.{
  ReadEffect, ConfigEffect, process_config_effect,
}

equals-nil : {A : Type 0} (same : A → A → Bool) (m : HashMap A) → equals same m [] ≡ true → m ≡ []
unfolding equals
equals-nil same [] e = refl
equals-nil same ((k, v) ∷ m) e = absurd (ground arith)

module _ {V D : Type 0} (env : Env V D) (monitor : Monitor) (now : ℤ) (key : Key) where
  -- The config changes nothing: the device is out of scope, the state is suppressed, and there are
  -- no other settings.
  pub record Overlooked (config : Config V) (s : CachedState) (w w' : World V) : Type 0 where
    unknown : get key.device w.metadata_scope ≡ none
    suppressed : suppresses_incoming (record { observed = get key.device w.alarm_states }) s ≡ true
    bare : config.phoebus_specific ≡ []
    unchanged : w' ≡ w

  unmapped :
      (w : World V)
      → get key.device w.metadata_scope ≡ none
      → (get_pv_metadata env monitor key w).phoebus_config_metadata ≡ []
  unfolding get_pv_metadata lookup_metadata_by_device from_unmapped
  unmapped w e = rw (e, unwrap_or) refl

  abbrev updated : Config V → World V → PvMetadata V
  updated config w = record (get_pv_metadata env monitor key w) {
    phoebus_config_metadata = config.phoebus_specific;
  }

  scope_of_read :
      (config : Config V) (s : CachedState) {outcome : SyncOutcome} {w w' : World V}
      → ReadEffect env monitor now key w config s outcome w'
      → (get key.device w'.metadata_scope ≢ none) ⊎ Overlooked config s w w'
  scope_of_read config s {w} (ReadEffect.duplicates old same) =
      elim (Option-cases (get key.device w.metadata_scope)) [
        | inr (m, known) ↦ inl (λ e. cc)
        | inl unknown ↦ inr (record {
          unknown = unknown;
          suppressed = old;
          bare =
              equals-nil env.json.same_value config.phoebus_specific
                (rw (unmapped w unknown) at same);
          unchanged = refl;
        })
      ]
  scope_of_read config s {w} (ReadEffect.updates old other) =
      inl (λ e. cc (e, get-insert_self key.device (updated config w) w.metadata_scope))
  scope_of_read config s {w} (ReadEffect.mirrors fresh e done) = inl (λ gone. cc (
    gone,
    ap (λ (r : SyncOutcome × World V). get key.device r.1.metadata_scope) done,
    get-insert_self key.device (updated config w) _,
  ))

  -- A readable config that is processed at runtime brings its device into scope, or leaves it
  -- there, unless it changes nothing at all because the device is out of scope, its recorded state
  -- suppresses that of the config, and the config has no further settings.
  pub process_config_scope :
      (text : String) (config : Config V) (s : CachedState) (outcome : SyncOutcome) (w w' : World V)
      → env.json.config_from_str (bool_or_string env.json) text ≡ some config
      → as_cached_state env.chrono now config ≡ ok s
      → process_config env monitor now key text w ≡ some (outcome, w')
      → (get key.device w'.metadata_scope ≢ none) ⊎ Overlooked config s w w'
  process_config_scope text config s outcome w w' decoded parsed done =
      of_effect (process_config_effect env monitor now key text w)
    where
      of_effect :
          (o : SyncOutcome) × (v : World V) × (process_config env monitor now key text w
              ≡ some (o, v))
            × ConfigEffect env monitor now key text w o v
          → (get key.device w'.metadata_scope ≢ none) ⊎ Overlooked config s w w'
      of_effect (o, v, ended, ConfigEffect.unreadable bad) = absurd (bad config s decoded parsed)
      of_effect (o, v, ended, ConfigEffect.read config' s' decoded' parsed' effect) =
          rw (same_world, same_config, same_state) at (scope_of_read config' s' effect)
        where
          same_world : v ≡ w'
          same_world = ground arith

          same_config : config' ≡ config
          same_config = ground arith

          same_state : s' ≡ s
          same_state = ground (arith, same_config)
