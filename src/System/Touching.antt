-- ===== src/System/Touching.antt =====
-- What one step can do to the two caches: the entry of one device, and no other.
use alarms_actions_synchroni.Prelude.{
  String, false, ◌≡◌, ◌⊎◌, refl, none, some, arith, inl, inr, ap, Option, ◌∙◌,
}
use alarms_actions_synchroni.Prelude.Int.{ℤ}
use alarms_actions_synchroni.Prelude.HashMap.{get, insert}
use alarms_actions_synchroni.External.PubSub.{StringMessage}
use alarms_actions_synchroni.Models.Proto.{State, Status}
use alarms_actions_synchroni.Models.Cache.{CachedState, from_status, suppresses_incoming}
use alarms_actions_synchroni.Models.Outcomes.{SyncOutcome}
use alarms_actions_synchroni.Models.Phoebus.{Config, PvMetadata}
use alarms_actions_synchroni.Models.Phoebus.Key.{Key}
use alarms_actions_synchroni.World.{World, Env, acknowledge}
use alarms_actions_synchroni.Controls.{SyncImpl}
use alarms_actions_synchroni.Controls.Effect.{Mirrors}
use alarms_actions_synchroni.Phoebus.Sync.{devices}
use alarms_actions_synchroni.Phoebus.Sync.Retry.{
  execute_command-IsRetried, alarm_states-command, metadata_scope-command,
}
use alarms_actions_synchroni.Phoebus.Monitor.{Monitor, acknowledged_state}
use alarms_actions_synchroni.Phoebus.Monitor.Effect.{
  IsEnablement, is_bypass, is_snooze, is_active, ReadEffect, ConfigEffect, request_for,
}
use alarms_actions_synchroni.Phoebus.Monitor.Commands.{CommandEffect}
use alarms_actions_synchroni.Phoebus.Monitor.Runtime.{KeyedEffect, MessageEffect}

-- The state may follow what was recorded: a bypass is followed by a bypass or an unbypass.
abbrev pub MayFollow : Option CachedState → CachedState → Type 0
MayFollow none s = Unit
MayFollow (some old) s =
    (old.state ≡ State.bypassed) → (s.state ≡ State.bypassed) ⊎ (s.state ≡ State.unbypassed)

module _ {V : Type 0} where
  pub record Touches (w w' : World V) : Type 0 where
    pub device : String
    pub states :
        (w'.alarm_states ≡ w.alarm_states)
        ⊎ ((s : CachedState) × MayFollow (get device w.alarm_states) s
            × (w'.alarm_states ≡ insert device s w.alarm_states))
    pub scope :
        (w'.metadata_scope ≡ w.metadata_scope)
        ⊎ ((m : PvMetadata V) × (w'.metadata_scope ≡ insert device m w.metadata_scope))

  pub Touches-refl : (w : World V) → Touches w w
  Touches-refl w = record { device = ""; states = inl refl; scope = inl refl }

pub MayFollow_of_fresh :
    (old : Option CachedState) (s : CachedState)
    → suppresses_incoming (record { observed = old }) s ≡ false
    → MayFollow old s
unfolding suppresses_incoming
MayFollow_of_fresh none s fresh = tt
MayFollow_of_fresh (some old) s fresh = ground arith

pub MayFollow_of_enablement :
    (old : Option CachedState) {s : CachedState} → IsEnablement s → MayFollow old s
MayFollow_of_enablement none e = tt
MayFollow_of_enablement (some old) is_bypass = λ _. inl refl
MayFollow_of_enablement (some old) (is_snooze t) = λ _. inl refl
MayFollow_of_enablement (some old) is_active = λ _. inr refl

module _ {V D : Type 0} (env : Env V D) (monitor : Monitor) (now : ℤ) where
  ReadEffect-Touches :
      (key : Key) (config : Config V) (s : CachedState) {outcome : SyncOutcome} {w w' : World V}
      → ReadEffect env monitor now key w config s outcome w'
      → Touches w w'
  ReadEffect-Touches key config s (ReadEffect.duplicates old same) = Touches-refl _
  ReadEffect-Touches key config s (ReadEffect.updates old other) = record {
    device = key.device;
    states = inl refl;
    scope = inr (_, refl);
  }
  ReadEffect-Touches key config s {w} (ReadEffect.mirrors fresh e done) =
      let retried =
        execute_command-IsRetried env monitor.controls_client (request_for key.device config.user e)
          w in
      record {
        device = key.device;
        states = inr (
          s,
          MayFollow_of_fresh (get key.device w.alarm_states) s fresh,
          ap (λ (r : SyncOutcome × World V). r.1.alarm_states) done
              ∙ ap (insert key.device s)
                  (alarm_states-command env monitor.controls_client _ w retried),
        );
        scope = inr (
          _,
          ap (λ (r : SyncOutcome × World V). r.1.metadata_scope) done
              ∙ ap (insert key.device _)
                  (metadata_scope-command env monitor.controls_client _ w retried),
        );
      }

  ConfigEffect-Touches :
      (key : Key) (text : String) {outcome : SyncOutcome} {w w' : World V}
      → ConfigEffect env monitor now key text w outcome w'
      → Touches w w'
  ConfigEffect-Touches key text (ConfigEffect.unreadable bad) = Touches-refl _
  ConfigEffect-Touches key text (ConfigEffect.read config s decoded parsed effect) =
      ReadEffect-Touches key config s effect

  CommandEffect-Touches :
      (key : Key) (text : String) {w : World V} {r : SyncOutcome × World V}
      → CommandEffect env monitor key text w r
      → Touches w r.1
  CommandEffect-Touches key text (CommandEffect.unreadable bad) = Touches-refl _
  CommandEffect-Touches key text (CommandEffect.unsupported c decoded other) = Touches-refl _
  CommandEffect-Touches key text (CommandEffect.suppressed c decoded same old) = Touches-refl _
  CommandEffect-Touches key text {w} (CommandEffect.mirrors c decoded same fresh done) =
      let retried =
        execute_command-IsRetried env monitor.controls_client
          (acknowledge (devices key.device) c.user) w in
      record {
        device = key.device;
        states = inr (
          acknowledged_state,
          MayFollow_of_fresh (get key.device w.alarm_states) acknowledged_state fresh,
          ap (λ (r : SyncOutcome × World V). r.1.alarm_states) done
              ∙ ap (insert key.device acknowledged_state)
                  (alarm_states-command env monitor.controls_client _ w retried),
        );
        scope = inl (
            ap (λ (r : SyncOutcome × World V). r.1.metadata_scope) done
            ∙ metadata_scope-command env monitor.controls_client _ w retried);
      }

  pub MessageEffect-Touches :
      (msg : StringMessage) {w w' : World V} → MessageEffect env monitor now msg w w' → Touches w w'
  MessageEffect-Touches msg (MessageEffect.no_key missing) = Touches-refl _
  MessageEffect-Touches msg (MessageEffect.bad_key text e present bad) = Touches-refl _
  MessageEffect-Touches msg
        (MessageEffect.keyed text key present good (KeyedEffect.state_noise o)) =
      Touches-refl _
  MessageEffect-Touches msg
        (MessageEffect.keyed text key present good (KeyedEffect.commands o effect)) =
      CommandEffect-Touches key msg.value effect
  MessageEffect-Touches msg
        (MessageEffect.keyed text key present good (KeyedEffect.configures o effect)) =
      ConfigEffect-Touches key msg.value effect

module _ {V D : Type 0} (env : Env V D) (sync : SyncImpl) where
  pub Mirrors-Touches :
      (alarm : Status) {w w' : World V} → Mirrors env sync alarm w w' → Touches w w'
  Mirrors-Touches alarm {w} m = record {
    device = alarm.device;
    states = inr (from_status alarm, MayFollow_of_fresh _ _ m.fresh, m.recorded);
    scope = inl m.same_scope;
  }
