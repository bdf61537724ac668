-- ===== src/Controls/Transform/Enablement.antt =====
-- The field `enabled` that `normalized_enablement_from_controls` of controls/transform/mod.rs and
-- `as_enabled_string` of models/phoebus/mod.rs write, and that `as_cached_state` reads back.
use alarms_actions_synchroni.Prelude.{
  String, true, ◌≡◌, none, some, ok, arith, string_eq, ◌∙◌, ◌≢◌, ap,
}
use alarms_actions_synchroni.Prelude.Int.{ℤ, as_u32, ltb_ℤ, InI32, as_i32-as_u32}
use alarms_actions_synchroni.External.Chrono.{Chrono, IsChrono}
use alarms_actions_synchroni.Models.Proto.{State, Status, Timestamp, state_eq}
use alarms_actions_synchroni.Models.Cache
use alarms_actions_synchroni.Models.Cache.{CachedState, from_status, from_bool, from_datetime}
use alarms_actions_synchroni.Models.Phoebus.{
  Config, as_enabled_string, as_cached_state, normalize_enablement, enablement_cached_state,
  parse_bool,
}
use alarms_actions_synchroni.Controls.Transform.{normalized_enablement_from_controls}

module _ {D : Type 0} (chrono : Chrono D) (now : ℤ) where
  -- A status whose state and wake time the Phoebus messages can express at the time `now`.
  pub data IsMirrorable (alarm : Status) : Type 0 where
    acknowledges : alarm.state ≡ State.acknowledged → alarm.wake ≡ none → IsMirrorable alarm
    unbypasses : alarm.state ≡ State.unbypassed → alarm.wake ≡ none → IsMirrorable alarm
    bypasses : alarm.state ≡ State.bypassed → alarm.wake ≡ none → IsMirrorable alarm
    -- A snooze until a date in the future, which RFC 3339 can write.
    snoozes :
        (t : Timestamp) (d : D)
        → alarm.state ≡ State.bypassed
        → alarm.wake ≡ some t
        → InI32 t.nanos
        → chrono.timestamp_opt t.seconds (as_u32 t.nanos) ≡ some d
        → chrono.parse_from_rfc3339 (chrono.to_rfc3339 (chrono.fixed_offset d))
          ≡ some (chrono.fixed_offset d)
        → ltb_ℤ now (chrono.timestamp_millis (chrono.fixed_offset d)) ≡ true
        → IsMirrorable alarm

  module _ (laws : IsChrono chrono) where
    read_true :
        {V : Type 0} (config : Config V)
        → config.enabled ≡ some "true"
        → as_cached_state chrono now config ≡ ok (record { state = State.unbypassed; wake = none })
    unfolding as_cached_state normalize_enablement parse_bool enablement_cached_state from_bool
    read_true config e = ground (arith, laws.parse-true)

    read_false :
        {V : Type 0} (config : Config V)
        → config.enabled ≡ some "false"
        → as_cached_state chrono now config ≡ ok (record { state = State.bypassed; wake = none })
    unfolding as_cached_state normalize_enablement parse_bool enablement_cached_state Cache.bypassed
        string_eq
    read_false config e = ground (arith, laws.parse-false)

    read_date :
        {V : Type 0} (config : Config V) (text : String) (d : D)
        → config.enabled ≡ some text
        → chrono.parse_from_rfc3339 text ≡ some d
        → as_cached_state chrono now config ≡ ok (from_datetime chrono now d)
    unfolding as_cached_state normalize_enablement enablement_cached_state
    read_date config text d e parsed = ground arith

    future :
        (t : Timestamp) (d : D)
        → InI32 t.nanos
        → chrono.timestamp_opt t.seconds (as_u32 t.nanos) ≡ some d
        → ltb_ℤ now (chrono.timestamp_millis (chrono.fixed_offset d)) ≡ true
        → from_datetime chrono now (chrono.fixed_offset d)
          ≡ record { state = State.bypassed; wake = some t }
    unfolding from_datetime
    future t d h made later = rw (
      later,
      laws.timestamp-timestamp_opt _ _ d made,
      laws.subsec_nanos-timestamp_opt _ _ d made,
      as_i32-as_u32 t.nanos h,
    )

    enabled_false :
        (alarm : Status)
        → alarm.state ≡ State.bypassed
        → alarm.wake ≡ none
        → as_enabled_string chrono (normalized_enablement_from_controls chrono alarm) ≡ some "false"
    unfolding normalized_enablement_from_controls as_enabled_string
    enabled_false alarm e w = ground arith

    enabled_true :
        (alarm : Status)
        → alarm.state ≡ State.unbypassed
        → as_enabled_string chrono (normalized_enablement_from_controls chrono alarm) ≡ some "true"
    unfolding normalized_enablement_from_controls as_enabled_string
    enabled_true alarm e = ground arith

    enabled_date :
        (alarm : Status) (t : Timestamp) (d : D)
        → alarm.state ≡ State.bypassed
        → alarm.wake ≡ some t
        → chrono.timestamp_opt t.seconds (as_u32 t.nanos) ≡ some d
        → as_enabled_string chrono (normalized_enablement_from_controls chrono alarm)
          ≡ some (chrono.to_rfc3339 (chrono.fixed_offset d))
    unfolding normalized_enablement_from_controls as_enabled_string
    enabled_date alarm t d e w made = ground arith

    -- A config whose field `enabled` encodes a mirrorable status that is not an acknowledgement is
    -- read back, at the time `now`, as the very state and wake time of the status.
    pub as_cached_state-from_status :
        {V : Type 0} (alarm : Status) (config : Config V)
        → IsMirrorable alarm
        → alarm.state ≢ State.acknowledged
        → config.enabled
          ≡ as_enabled_string chrono (normalized_enablement_from_controls chrono alarm)
        → as_cached_state chrono now config ≡ ok (from_status alarm)
    unfolding from_status
    as_cached_state-from_status alarm config (acknowledges e w) other enabled = absurd (other e)
    as_cached_state-from_status alarm config (unbypasses e w) other enabled =
        rw (e, w) (read_true config (enabled ∙ enabled_true alarm e))
    as_cached_state-from_status alarm config (bypasses e w) other enabled =
        rw (e, w) (read_false config (enabled ∙ enabled_false alarm e w))
    as_cached_state-from_status alarm config (snoozes t d e w h made kept later) other enabled =
        rw (e, w)
          (read_date config _ (chrono.fixed_offset d) (enabled ∙ enabled_date alarm t d e w made)
              kept
            ∙ ap ok (future t d h made later))
