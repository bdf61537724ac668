-- ===== src/Phoebus/Monitor/Repeats.antt =====
-- What the monitor of phoebus/monitor/mod.rs does with a message that says nothing new.
use alarms_actions_synchroni.Prelude.{
  String, true, ◌≡◌, refl, some, ok, arith, ap, Option, ◌∙◌, sym,
}
use alarms_actions_synchroni.Prelude.Int.{ℤ}
use alarms_actions_synchroni.Prelude.HashMap.{get, get-insert_self}
use alarms_actions_synchroni.External.PubSub.{StringMessage}
use alarms_actions_synchroni.Models.Cache.{CachedState, suppresses_incoming, cached_state_eq}
use alarms_actions_synchroni.Models.Outcomes.{SyncOutcome}
use alarms_actions_synchroni.Models.Phoebus.{Command, Config, as_cached_state}
use alarms_actions_synchroni.Models.Phoebus.Key.{Key, Operation, parse}
use alarms_actions_synchroni.Models.Phoebus.Wire.{bool_or_string}
use alarms_actions_synchroni.Controls.Transform.{ack_command}
use alarms_actions_synchroni.World.{World, Env}
use alarms_actions_synchroni.Phoebus.Monitor.{Monitor, acknowledged_state, process_runtime_message}
use alarms_actions_synchroni.Phoebus.Monitor.Effect.{ReadEffect, ConfigEffect}
use alarms_actions_synchroni.Phoebus.Monitor.Commands.{CommandEffect}
use alarms_actions_synchroni.Phoebus.Monitor.Runtime.{
  KeyedEffect, MessageEffect, process_runtime_message_total,
}

-- No request is sent, no message is posted, and no alarm state changes.
pub record Quiet {V : Type 0} (w w' : World V) : Type 0 where
  pub same_states : w'.alarm_states ≡ w.alarm_states
  pub same_sent : w'.sent ≡ w.sent
  pub same_published : w'.published ≡ w.published

Quiet-refl : {V : Type 0} (w : World V) → Quiet w w
Quiet-refl w = record { same_states = refl; same_sent = refl; same_published = refl }

pub suppresses-recorded :
    (o : Option CachedState) (s : CachedState)
    → o ≡ some s
    → suppresses_incoming (record { observed = o }) s ≡ true
unfolding suppresses_incoming
suppresses-recorded o s e = rw e (ground arith)

module _ {V D : Type 0} (env : Env V D) (monitor : Monitor) (now : ℤ) where
  -- The policy suppresses the state.
  abbrev pub Suppressed : World V → String → CachedState → Type 0
  Suppressed w device s =
      suppresses_incoming (record { observed = get device w.alarm_states }) s ≡ true

  -- What a message about the key says is nothing new.
  pub record Known (key : Key) (value : String) (w : World V) : Type 0 where
    pub of_config :
        key.operation ≡ Operation.config
        → (config : Config V) (s : CachedState)
        → env.json.config_from_str (bool_or_string env.json) value ≡ some config
        → as_cached_state env.chrono now config ≡ ok s
        → Suppressed w key.device s
    pub of_command :
        key.operation ≡ Operation.command
        → (c : Command) → env.json.command_from_str value ≡ some c
        → c.command ≡ ack_command
        → Suppressed w key.device acknowledged_state

  Quiet-read :
      (key : Key) (config : Config V) (s : CachedState) {outcome : SyncOutcome} {w w' : World V}
      → ReadEffect env monitor now key w config s outcome w'
      → Suppressed w key.device s
      → Quiet w w'
  Quiet-read key config s (ReadEffect.duplicates old same) h = Quiet-refl _
  Quiet-read key config s (ReadEffect.updates old other) h = record {
    same_states = refl;
    same_sent = refl;
    same_published = refl;
  }
  Quiet-read key config s (ReadEffect.mirrors fresh e done) h = absurd (cc)

  Quiet-keyed :
      (key : Key) (value : String) {w w' : World V}
      → KeyedEffect env monitor now key value w w'
      → Known key value w
      → Quiet w w'
  Quiet-keyed key value (KeyedEffect.state_noise o) k = Quiet-refl _
  Quiet-keyed key value (KeyedEffect.commands o (CommandEffect.unreadable bad)) k = Quiet-refl _
  Quiet-keyed key value (KeyedEffect.commands o (CommandEffect.unsupported c decoded other)) k =
      Quiet-refl _
  Quiet-keyed key value (KeyedEffect.commands o (CommandEffect.suppressed c decoded same old)) k =
      Quiet-refl _
  Quiet-keyed key value (KeyedEffect.commands o (CommandEffect.mirrors c decoded same fresh done))
        k =
      absurd (cc (k.of_command o c decoded same, fresh))
  Quiet-keyed key value (KeyedEffect.configures o (ConfigEffect.unreadable bad)) k = Quiet-refl _
  Quiet-keyed key value
        (KeyedEffect.configures o (ConfigEffect.read config s decoded parsed effect)) k =
      Quiet-read key config s effect (k.of_config o config s decoded parsed)

  pub Quiet-message :
      (msg : StringMessage) {w w' : World V}
      → MessageEffect env monitor now msg w w'
      → ((text : String) (key : Key)
          → msg.key ≡ some text
          → parse text ≡ ok key
          → Known key msg.value w)
      → Quiet w w'
  Quiet-message msg (MessageEffect.no_key missing) k = Quiet-refl _
  Quiet-message msg (MessageEffect.bad_key text e present bad) k = Quiet-refl _
  Quiet-message msg (MessageEffect.keyed text key present good effect) k =
      Quiet-keyed key msg.value effect (k text key present good)

  -- A message of which everything is known is processed quietly.
  pub Quiet-process :
      (msg : StringMessage) (w : World V)
      → ((text : String) (key : Key)
          → msg.key ≡ some text
          → parse text ≡ ok key
          → Known key msg.value w)
      → (w' : World V) × (process_runtime_message env monitor now msg w ≡ some w') × Quiet w w'
  Quiet-process msg w k =
      let (w', done, effect) = process_runtime_message_total env monitor now msg w in
      (w', done, Quiet-message msg effect k)

  known_read :
      (key : Key) (config : Config V) (s : CachedState) {outcome : SyncOutcome} {w w' : World V}
      → ReadEffect env monitor now key w config s outcome w'
      → Suppressed w' key.device s
  known_read key config s (ReadEffect.duplicates old same) = old
  known_read key config s (ReadEffect.updates old other) = old
  known_read key config s {w} (ReadEffect.mirrors fresh e done) = suppresses-recorded _ s (
      ap (λ (r : SyncOutcome × World V). get key.device r.1.alarm_states) done
      ∙ get-insert_self key.device s _)

  known_command :
      (key : Key) (value : String) (c : Command) {w : World V} {r : SyncOutcome × World V}
      → CommandEffect env monitor key value w r
      → env.json.command_from_str value ≡ some c
      → c.command ≡ ack_command
      → Suppressed r.1 key.device acknowledged_state
  known_command key value c (CommandEffect.unreadable bad) decoded same = absurd (cc)
  known_command key value c (CommandEffect.unsupported c' decoded' other) decoded same =
      absurd (ground arith)
  known_command key value c (CommandEffect.suppressed c' decoded' same' old) decoded same = old
  known_command key value c (CommandEffect.mirrors c' decoded' same' fresh done) decoded same =
      suppresses-recorded _ acknowledged_state (
        ap (λ (r : SyncOutcome × World V). get key.device r.1.alarm_states) done
        ∙ get-insert_self key.device acknowledged_state _)

  pub known_config :
      (key : Key) (value : String) (config : Config V) (s : CachedState) {outcome : SyncOutcome}
      {w w' : World V}
      → ConfigEffect env monitor now key value w outcome w'
      → env.json.config_from_str (bool_or_string env.json) value ≡ some config
      → as_cached_state env.chrono now config ≡ ok s
      → Suppressed w' key.device s
  known_config key value config s (ConfigEffect.unreadable bad) decoded parsed =
      absurd (bad config s decoded parsed)
  known_config key value config s (ConfigEffect.read config' s' decoded' parsed' effect) decoded
        parsed =
      rw same at (known_read key config' s' effect)
    where
      same_config : config' ≡ config
      same_config = ground arith

      same : s' ≡ s
      same = ground (arith, same_config)

  Known-keyed :
      (key : Key) (value : String) {w w' : World V}
      → KeyedEffect env monitor now key value w w'
      → Known key value w'
  Known-keyed key value (KeyedEffect.state_noise o) = record {
    of_config = λ o' _ _ _ _. absurd (ground arith);
    of_command = λ o' _ _ _. absurd (ground arith);
  }
  Known-keyed key value (KeyedEffect.commands o effect) = record {
    of_config = λ o' _ _ _ _. absurd (ground arith);
    of_command = λ o' c decoded same. known_command key value c effect decoded same;
  }
  Known-keyed key value (KeyedEffect.configures o effect) = record {
    of_config = λ o' config s decoded parsed. known_config key value config s effect decoded parsed;
    of_command = λ o' _ _ _. absurd (ground arith);
  }

  Known-message :
      (msg : StringMessage) {w w' : World V}
      → MessageEffect env monitor now msg w w'
      → (text : String) (key : Key) → msg.key ≡ some text
      → parse text ≡ ok key
      → Known key msg.value w'
  Known-message msg (MessageEffect.no_key missing) text key present good = absurd (cc)
  Known-message msg (MessageEffect.bad_key text' e present' bad) text key present good =
      absurd (ground arith)
  Known-message msg (MessageEffect.keyed text' key' present' good' effect) text key present good =
      rw (← same_key) (Known-keyed key' msg.value effect)
    where
      same_key : key' ≡ key
      same_key = ground arith

module _ {V D : Type 0} (env : Env V D) (monitor : Monitor) (now now' : ℤ) where
  -- If the message is about a config, the config means the same at both times.
  abbrev pub MeansTheSame : Key → String → Type 0
  MeansTheSame key value =
      key.operation ≡ Operation.config
      → (config : Config V) → env.json.config_from_str (bool_or_string env.json) value ≡ some config
      → as_cached_state env.chrono now' config ≡ as_cached_state env.chrono now config

  -- What is known at one time is known at the other.
  later_Known :
      (key : Key) (value : String) (w : World V)
      → MeansTheSame key value
      → Known env monitor now key value w
      → Known env monitor now' key value w
  later_Known key value w same known = record {
    of_config = λ o config s decoded parsed.
        known.of_config o config s decoded (sym (same o config decoded) ∙ parsed);
    of_command = known.of_command;
  }

  -- A message that has been processed is processed again, whenever it is delivered next, without a
  -- request and without a change of any alarm state, if its config, when it is one, means the same
  -- state and wake time at both deliveries: the wake time of a snooze has not passed between them.
  -- A command needs no condition.
  pub process_runtime_message_twice :
      (msg : StringMessage) (w w' : World V)
      → ((text : String) (key : Key)
          → msg.key ≡ some text
          → parse text ≡ ok key
          → MeansTheSame key msg.value)
      → process_runtime_message env monitor now msg w ≡ some w'
      → (w'' : World V) × (process_runtime_message env monitor now' msg w' ≡ some w'')
        × Quiet w' w''
  process_runtime_message_twice msg w w' same e =
      let (v, done, effect) = process_runtime_message_total env monitor now msg w in
      let v_is : v ≡ w' = cc in
      Quiet-process env monitor now' msg w' (λ text key present good.
        later_Known key msg.value w' (same text key present good)
          (Known-message env monitor now msg (rw v_is at effect) text key present good))
