-- ===== src/Phoebus/Init/Hydrating.antt =====
-- What the startup messages of phoebus/init/mod.rs can do to the two caches: the entry of one
-- device, and no other.
use alarms_actions_synchroni.Prelude.{
  String, false, ◌≡◌, refl, none, some, ok, arith, Option-cases, Result-cases, inl, inr, Option,
  Bool-cases, ◌==◌,
}
use alarms_actions_synchroni.Prelude.Int.{ℤ}
use alarms_actions_synchroni.Prelude.HashMap.{get}
use alarms_actions_synchroni.External.PubSub.{StringMessage}
use alarms_actions_synchroni.Models.Proto.{State, state_eq}
use alarms_actions_synchroni.Models.Cache.{
  CachedState, record_alarm_state, record_startup_state_evidence, is_some_and,
}
use alarms_actions_synchroni.Models.Phoebus.{Config, as_cached_state}
use alarms_actions_synchroni.Models.Phoebus.Key.{Key, Operation, parse}
use alarms_actions_synchroni.Models.Phoebus.Wire.{bool_or_string}
use alarms_actions_synchroni.Models.Metadata.{update_cached_metadata}
use alarms_actions_synchroni.World.{World, Env}
use alarms_actions_synchroni.Phoebus.Init.{
  read_config, hydrate_message, handle_parsed, handle_config, handle, hydrate, handle_severity,
  handle_state, extract_severity, severity_state,
}
use alarms_actions_synchroni.Phoebus.Monitor.Effect.{IsEnablement, as_cached_state-IsEnablement}
use alarms_actions_synchroni.System.Touching.{
  Touches, Touches-refl, MayFollow, MayFollow_of_enablement,
}

-- Startup evidence goes over no bypass.
pub MayFollow_of_evidence :
    (old : Option CachedState) (s : CachedState)
    → is_some_and old (λ existing. existing.state == State.bypassed) ≡ false
    → MayFollow old s
MayFollow_of_evidence none s kept = tt
MayFollow_of_evidence (some old) s kept = ground arith

module _ {V D : Type 0} (env : Env V D) (now : ℤ) (topic : String) where
  pub read_config-IsEnablement :
      (value : String) (config : Config V) (s : CachedState)
      → read_config env now value ≡ ok (config, s)
      → IsEnablement s
  unfolding read_config
  read_config-IsEnablement value config s e =
      elim (Option-cases (env.json.config_from_str (bool_or_string env.json) value)) [
        | inl malformed ↦ absurd (ground arith)
        | inr (config', decoded) ↦ elim (Result-cases (as_cached_state env.chrono now config')) [
          | inr (failure, unread) ↦ absurd (ground arith)
          | inl (s', parsed) ↦ as_cached_state-IsEnablement env.chrono now config' s (ground arith)
        ]
      ]

  handle_config-Touches :
      (key : Key) (value : String) (w : World V)
      → Touches w (handle_config env now topic key value w).1
  unfolding handle_config record_alarm_state update_cached_metadata
  handle_config-Touches key value w = elim (Result-cases (read_config env now value)) [
    | inr (failure, unread) ↦ rw (unread, hydrate) (Touches-refl w)
    | inl ((config, s), read) ↦
        rw (read, hydrate)
          (record {
            device = key.device;
            states =
                inr (
                  s,
                  MayFollow_of_enablement _ (read_config-IsEnablement value config s read),
                  refl,
                );
            scope = inr (_, refl);
          })
  ]

  handle_state-Touches :
      (key : Key) (value : String) (w : World V) → Touches w (handle_state env key value w).1
  unfolding handle_state record_startup_state_evidence
  handle_state-Touches key value w = elim (Option-cases (extract_severity env value)) [
    | inl missing ↦ rw (missing, handle_severity) (Touches-refl w)
    | inr (severity, found) ↦
        rw (found, handle_severity)
          (elim (Bool-cases (
            is_some_and (get key.device w.alarm_states)
              (λ existing. existing.state == State.bypassed))) [
                | inl bypass ↦ record {
                  device = key.device;
                  states = inl (ground arith);
                  scope = inl refl;
                }
                | inr free ↦ record {
                  device = key.device;
                  states = inr (
                    record { state = severity_state severity; wake = none },
                    MayFollow_of_evidence _ _ free,
                    ground arith,
                  );
                  scope = inl refl;
                }
              ])
  ]

  handle-Touches :
      (key : Key) (operation : Operation) (value : String) (w : World V)
      → Touches w (handle env now topic key operation value w).1
  unfolding handle
  handle-Touches key Operation.config value w = handle_config-Touches key value w
  handle-Touches key Operation.state value w = handle_state-Touches key value w
  handle-Touches key Operation.command value w = Touches-refl w

  pub hydrate_message-Touches :
      (msg : StringMessage) (w : World V) → Touches w (hydrate_message env now topic msg w)
  unfolding hydrate_message
  hydrate_message-Touches msg w = elim (Option-cases msg.key) [
    | inl missing ↦ rw (missing, hydrate_message) (Touches-refl w)
    | inr (text, present) ↦ elim (Result-cases (parse text)) [
      | inr (failure, bad) ↦ rw (present, hydrate_message, bad, handle_parsed) (Touches-refl w)
      | inl (key, good) ↦
          rw (present, hydrate_message, good, handle_parsed)
            (handle-Touches key key.operation msg.value w)
    ]
  ]
