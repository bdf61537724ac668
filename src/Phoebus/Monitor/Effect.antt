-- ===== src/Phoebus/Monitor/Effect.antt =====
-- What `process_config` of phoebus/monitor/mod.rs does, on every branch.
use alarms_actions_synchroni.Prelude.{
  String, true, false, ◌≡◌, ◌≢◌, refl, none, some, ok, err, arith, inl, inr, Option-cases,
  Result-cases, Bool-cases,
}
use alarms_actions_synchroni.Prelude.Int.{ℤ, ltb_ℤ}
use alarms_actions_synchroni.Prelude.HashMap.{HashMap, get, insert, equals}
use alarms_actions_synchroni.Models.Proto.{State, Timestamp}
use alarms_actions_synchroni.Models.Cache.{
  CachedState, suppresses_incoming, read_observed_state_policy, record_alarm_state, from_bool,
  from_datetime, bypassed,
}
use alarms_actions_synchroni.Models.Outcomes.{
  SyncOutcome, ignored, SyncDirection, IgnoreReason, SkipReason, OutboundSyncResult,
  into_sync_outcome,
}
use alarms_actions_synchroni.Models.Phoebus.{
  Config, PvMetadata, as_cached_state, normalize_enablement, enablement_cached_state,
  NormalizedEnablement, PhoebusParseError,
}
use alarms_actions_synchroni.Models.Phoebus.Key.{Key}
use alarms_actions_synchroni.Models.Phoebus.Wire.{bool_or_string}
use alarms_actions_synchroni.Models.Metadata.{update_cached_metadata}
use alarms_actions_synchroni.World.{World, Env, Request, activate, bypass, snooze}
use alarms_actions_synchroni.External.Chrono.{Chrono}
use alarms_actions_synchroni.Phoebus.Sync.{
  execute_command, devices, activate_alarm, bypass_alarm, snooze_alarm,
}
use alarms_actions_synchroni.Phoebus.Monitor.{
  Monitor, process_parsed_config, process_config, get_pv_metadata, decide_phoebus_config,
  is_duplicate,
}

-- A config stands for a bypass, a snooze or an unbypass without a wake time.
pub data IsEnablement : CachedState → Type 0 where
  is_bypass : IsEnablement (record { state = State.bypassed; wake = none })
  is_snooze : (t : Timestamp) → IsEnablement (record { state = State.bypassed; wake = some t })
  is_active : IsEnablement (record { state = State.unbypassed; wake = none })

module _ {D : Type 0} (chrono : Chrono D) where
  enablement_cached_state-IsEnablement :
      (now : ℤ) (e : NormalizedEnablement D) → IsEnablement (enablement_cached_state chrono now e)
  unfolding enablement_cached_state from_bool from_datetime bypassed
  enablement_cached_state-IsEnablement now NormalizedEnablement.active = is_active
  enablement_cached_state-IsEnablement now NormalizedEnablement.bypassed = is_bypass
  enablement_cached_state-IsEnablement now (NormalizedEnablement.snoozed_until dt) =
      elim (Bool-cases (ltb_ℤ now (chrono.timestamp_millis dt))) [
        | inl later ↦ rw later (is_snooze _)
        | inr over ↦ rw over is_active
      ]

  pub as_cached_state-IsEnablement :
      {V : Type 0} (now : ℤ) (config : Config V) (s : CachedState)
      → as_cached_state chrono now config ≡ ok s
      → IsEnablement s
  unfolding as_cached_state
  as_cached_state-IsEnablement now config s e =
      elim (Result-cases (normalize_enablement chrono config.enabled)) [
        | inl (enablement, read) ↦
            let same : enablement_cached_state chrono now enablement ≡ s = ground arith in
            rw (← same) (enablement_cached_state-IsEnablement now enablement)
        | inr (failure, unread) ↦ absurd (ground arith)
      ]

-- The request that mirrors an enablement into Controls.
abbrev pub request_for : String → String → {s : CachedState} → IsEnablement s → Request
request_for device user is_bypass = bypass (devices device) user
request_for device user (is_snooze t) = snooze (devices device) user (some t)
request_for device user is_active = activate (devices device) user

module _ {V D : Type 0} (env : Env V D) (monitor : Monitor) (now : ℤ) (key : Key) where
  abbrev apply :
      CachedState → HashMap V → PvMetadata V → OutboundSyncResult × World V → SyncOutcome × World V
  apply s specific cached (result, w) = (
    into_sync_outcome result SyncDirection.phoebus_to_controls,
    record w {
      alarm_states = insert key.device s w.alarm_states;
      metadata_scope =
          insert key.device (record cached { phoebus_config_metadata = specific }) w.metadata_scope;
    },
  )

  not_duplicate :
      (r : OutboundSyncResult) (d : SyncDirection) → is_duplicate (into_sync_outcome r d) ≡ false
  unfolding into_sync_outcome
  not_duplicate OutboundSyncResult.succeeded d = refl
  not_duplicate OutboundSyncResult.failed d = refl
  not_duplicate (OutboundSyncResult.skipped r) d = refl

  applies :
      (config : Config V) (w : World V) (s : CachedState) (e : IsEnablement s)
      → as_cached_state env.chrono now config ≡ ok s
      → suppresses_incoming (record { observed = get key.device w.alarm_states }) s ≡ false
      → process_parsed_config env monitor now key (some config) w
        ≡ some (
            apply s config.phoebus_specific (get_pv_metadata env monitor key w) (
              execute_command env monitor.controls_client (request_for key.device config.user e) w))
  unfolding process_parsed_config decide_phoebus_config read_observed_state_policy
      record_alarm_state update_cached_metadata bypass_alarm snooze_alarm activate_alarm
  applies config w s is_bypass read fresh = rw (read, decide_phoebus_config, fresh, not_duplicate)
  applies config w s (is_snooze t) read fresh =
      rw (read, decide_phoebus_config, fresh, not_duplicate)
  applies config w s is_active read fresh = rw (read, decide_phoebus_config, fresh, not_duplicate)

  -- What a config that can be read does, from the world `w`.
  pub data ReadEffect (w : World V) (config : Config V) (s : CachedState)
      : SyncOutcome → World V → Type 0 where
    -- It says nothing new.
    duplicates :
        suppresses_incoming (record { observed = get key.device w.alarm_states }) s ≡ true
        → equals env.json.same_value config.phoebus_specific
            (get_pv_metadata env monitor key w).phoebus_config_metadata
          ≡ true
        → ReadEffect w config s SyncOutcome.duplicate w
    -- It says nothing new of the alarm, and its other settings are stored.
    updates :
        suppresses_incoming (record { observed = get key.device w.alarm_states }) s ≡ true
        → equals env.json.same_value config.phoebus_specific
            (get_pv_metadata env monitor key w).phoebus_config_metadata
          ≡ false
        → ReadEffect w config s (ignored IgnoreReason.state_noise) (record w {
          metadata_scope =
              insert key.device
                (record (get_pv_metadata env monitor key w) {
                  phoebus_config_metadata = config.phoebus_specific;
                })
                w.metadata_scope;
        })
    -- The request that mirrors it is sent, and the state and the settings are stored whatever the
    -- result is.
    mirrors :
        suppresses_incoming (record { observed = get key.device w.alarm_states }) s ≡ false
        → (e : IsEnablement s) {r : SyncOutcome × World V}
        → r
          ≡ apply s config.phoebus_specific
              (get_pv_metadata env monitor key w)
              (execute_command env monitor.controls_client (request_for key.device config.user e) w)
        → ReadEffect w config s r.0 r.1

  pub data ConfigEffect (text : String) (w : World V) : SyncOutcome → World V → Type 0 where
    unreadable :
        ((config : Config V) (s : CachedState)
          → env.json.config_from_str (bool_or_string env.json) text ≡ some config
          → as_cached_state env.chrono now config ≢ ok s)
        → ConfigEffect text w (SyncOutcome.skipped SkipReason.malformed_message) w
    read :
        {outcome : SyncOutcome} {w' : World V} (config : Config V) (s : CachedState)
        → env.json.config_from_str (bool_or_string env.json) text ≡ some config
        → as_cached_state env.chrono now config ≡ ok s
        → ReadEffect w config s outcome w'
        → ConfigEffect text w outcome w'

  read_effect :
      (config : Config V) (s : CachedState) (w : World V)
      → as_cached_state env.chrono now config ≡ ok s
      → (r : SyncOutcome × World V) × (process_parsed_config env monitor now key (some config) w
          ≡ some r)
        × ReadEffect w config s r.0 r.1
  unfolding process_parsed_config decide_phoebus_config read_observed_state_policy
      update_cached_metadata
  read_effect config s w parsed =
      elim (Bool-cases
        (suppresses_incoming (record { observed = get key.device w.alarm_states }) s)) [
          | inr fresh ↦
              let e = as_cached_state-IsEnablement env.chrono now config s parsed in
              (_, applies config w s e parsed fresh, mirrors fresh e refl)
          | inl old ↦
              elim (Bool-cases (
                equals env.json.same_value config.phoebus_specific
                  (get_pv_metadata env monitor key w).phoebus_config_metadata)) [
                    | inl same ↦ ((SyncOutcome.duplicate, w), ground arith, duplicates old same)
                    | inr other ↦
                        (_, rw (parsed, decide_phoebus_config, old, other), updates old other)
                  ]
        ]

  unread :
      (w : World V)
      → process_parsed_config env monitor now key none w
        ≡ some (SyncOutcome.skipped SkipReason.malformed_message, w)
  unfolding process_parsed_config
  unread w = refl

  misread :
      (config : Config V) (w : World V) (e : PhoebusParseError)
      → as_cached_state env.chrono now config ≡ err e
      → process_parsed_config env monitor now key (some config) w
        ≡ some (SyncOutcome.skipped SkipReason.malformed_message, w)
  unfolding process_parsed_config decide_phoebus_config
  misread config w e failed = rw (failed, decide_phoebus_config)

  -- `process_config` never panics. It skips a text that it cannot read; it drops a config that
  -- repeats what is known; it stores the settings of one that changes no alarm state; and any other
  -- it mirrors into Controls by the one request that fits it, and stores with its state.
  pub process_config_effect :
      (text : String) (w : World V)
      → (outcome : SyncOutcome) × (w' : World V) × (process_config env monitor now key text w
          ≡ some (outcome, w'))
        × ConfigEffect text w outcome w'
  unfolding process_config
  process_config_effect text w =
      elim (Option-cases (env.json.config_from_str (bool_or_string env.json) text)) [
        | inl malformed ↦ (_, _, rw malformed (unread w), unreadable (λ config s decoded. cc))
        | inr (config, decoded) ↦ elim (Result-cases (as_cached_state env.chrono now config)) [
          | inr (e, failed) ↦ (
            _,
            _,
            rw decoded (misread config w e failed),
            unreadable (λ config' s decoded' parsed. ground arith),
          )
          | inl (s, parsed) ↦
              let ((outcome, w'), done, effect) = read_effect config s w parsed in
              (outcome, w', rw decoded done, read config s decoded parsed effect)
        ]
      ]
