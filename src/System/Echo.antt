-- ===== src/System/Echo.antt =====
-- What happens to the echo of a change: a change that one synchronizer has mirrored comes back to
-- the other one as a message of its own.
use alarms_actions_synchroni.Prelude.{
  String, true, ◌≡◌, ◌≢◌, refl, sym, some, ok, arith, inl, inr, ap, ◌∙◌, Option-cases,
}
use alarms_actions_synchroni.Prelude.Int.{ℤ}
use alarms_actions_synchroni.Prelude.HashMap.{get, get-insert_self}
use alarms_actions_synchroni.External.Chrono.{Chrono, IsChrono}
use alarms_actions_synchroni.External.PubSub.{StringMessage}
use alarms_actions_synchroni.Models.Proto.{State, Status}
use alarms_actions_synchroni.Models.Cache.{CachedState, from_status, suppresses_incoming}
use alarms_actions_synchroni.Models.Outcomes.{SyncOutcome}
use alarms_actions_synchroni.Models.Phoebus.{
  Command, Config, PvMetadata, as_cached_state, as_enabled_string,
}
use alarms_actions_synchroni.Models.Phoebus.Key.{Key, Operation, parse}
use alarms_actions_synchroni.Models.Phoebus.Wire.{bool_or_string, RereadsEnabled}
use alarms_actions_synchroni.World.{World, Env}
use alarms_actions_synchroni.Controls
use alarms_actions_synchroni.Controls.{SyncImpl}
use alarms_actions_synchroni.Controls.Effect.{Posts, Mirrors, process_runtime_message_effect}
use alarms_actions_synchroni.Controls.Transform.{
  controls_to_phoebus, state_to_operation, get_phoebus_key, normalized_enablement_from_controls,
  ack_command, controls_app,
}
use alarms_actions_synchroni.Controls.Transform.Keys.{IsDeviceName, parse-get_phoebus_key}
use alarms_actions_synchroni.Controls.Transform.Enablement.{
  IsMirrorable, as_cached_state-from_status,
}
use alarms_actions_synchroni.Phoebus.Monitor.{Monitor, process_config, acknowledged_state}
use alarms_actions_synchroni.Phoebus.Monitor
use alarms_actions_synchroni.Phoebus.Monitor.Effect.{process_config_effect}
use alarms_actions_synchroni.Phoebus.Monitor.Repeats.{
  Quiet, Known, suppresses-recorded, Quiet-process, known_config,
}

not_acknowledged :
    (state : State) → state_to_operation state ≡ some Operation.config → state ≢ State.acknowledged
unfolding state_to_operation
not_acknowledged state e same = ground arith

acknowledged_of_command :
    (state : State) → state_to_operation state ≡ some Operation.command → state ≡ State.acknowledged
unfolding state_to_operation
acknowledged_of_command state e = ground arith

acknowledgement :
    {D : Type 0} (chrono : Chrono D) (now : ℤ) (alarm : Status)
    → IsMirrorable chrono now alarm
    → alarm.state ≡ State.acknowledged
    → from_status alarm ≡ acknowledged_state
unfolding from_status
acknowledgement chrono now alarm (IsMirrorable.acknowledges e w) same = rw (e, w) refl
acknowledgement chrono now alarm (IsMirrorable.unbypasses e w) same = absurd (ground arith)
acknowledgement chrono now alarm (IsMirrorable.bypasses e w) same = absurd (ground arith)
acknowledgement chrono now alarm (IsMirrorable.snoozes t d e w h made kept later) same =
    absurd (ground arith)

module _ {V D : Type 0} (env : Env V D) (sync : SyncImpl) where
  -- What is posted for a status: the key names its device, and the text is that of a config whose
  -- `enabled` encodes the status, or of some command.
  record Encodes (alarm : Status) (operation : Operation) (message : StringMessage) : Type 0 where
    display_path : String
    keyed : message.key ≡ some (get_phoebus_key operation display_path alarm.device)
    written :
        operation ≡ Operation.config
        → (config : Config V) × (env.json.config_to_string config ≡ some message.value)
          × (config.enabled
              ≡ as_enabled_string env.chrono (normalized_enablement_from_controls env.chrono alarm))

  abbrev command_of : Status → Command
  command_of alarm = record { user = alarm.user; host = controls_app; command = ack_command }

  abbrev config_of : Status → PvMetadata V → Config V
  config_of alarm metadata = record {
    enabled = as_enabled_string env.chrono (normalized_enablement_from_controls env.chrono alarm);
    host = controls_app;
    user = alarm.user;
    phoebus_specific = metadata.phoebus_config_metadata;
  }

  encodes :
      (alarm : Status) (operation : Operation) (metadata : PvMetadata V) (message : StringMessage)
      → controls_to_phoebus env.json env.chrono alarm operation metadata ≡ ok message
      → Encodes alarm operation message
  unfolding controls_to_phoebus
  encodes alarm Operation.state metadata message e = absurd (ground arith)
  encodes alarm Operation.command metadata message e = record {
    display_path = metadata.display_path;
    keyed = elim (Option-cases (env.json.command_to_string (command_of alarm))) [
      | inl failed ↦ absurd (ground arith)
      | inr (text, written) ↦ ground arith
    ];
    written = λ o. absurd (ground arith);
  }
  encodes alarm Operation.config metadata message e =
      elim (Option-cases (env.json.config_to_string (config_of alarm metadata))) [
        | inl failed ↦ absurd (ground arith)
        | inr (text, written) ↦ record {
          display_path = metadata.display_path;
          keyed = ground arith;
          written = λ _. (config_of alarm metadata, ground arith, refl);
        }
      ]

  recorded_state :
      (alarm : Status) {w w' : World V}
      → Mirrors env sync alarm w w'
      → get alarm.device w'.alarm_states ≡ some (from_status alarm)
  recorded_state alarm {w} m =
      ap (get alarm.device) m.recorded ∙ get-insert_self alarm.device (from_status alarm) _

  module _ (rereads : RereadsEnabled env.json) (laws : IsChrono env.chrono) (monitor : Monitor)
      (now : ℤ) where
    Known-echo :
        (alarm : Status) (operation : Operation) (message : StringMessage) (w : World V)
        → state_to_operation alarm.state ≡ some operation
        → get alarm.device w.alarm_states ≡ some (from_status alarm)
        → IsDeviceName alarm.device
        → IsMirrorable env.chrono now alarm
        → Encodes alarm operation message
        → (text : String) (key : Key) → message.key ≡ some text
        → parse text ≡ ok key
        → Known env monitor now key message.value w
    Known-echo alarm operation message w relevant recorded named mirrorable encoded text key present
          good =
        record {
          of_config = λ o config s read parsed.
              let (written, printed, enabled) = encoded.written (sym same_operation ∙ o) in
              let reread =
                as_cached_state-from_status env.chrono now laws alarm config mirrorable
                  (not_acknowledged alarm.state (relevant ∙ ap some (sym same_operation ∙ o)))
                  (rereads.enabled-config_from_str written config message.value printed read
                    ∙ enabled) in
              let same : from_status alarm ≡ s = ground arith in
              suppresses-recorded _ s (here ∙ ap some same);
          of_command = λ o c read ack. suppresses-recorded _ acknowledged_state (
              here
              ∙ ap some (
                  acknowledgement env.chrono now alarm mirrorable (
                    acknowledged_of_command alarm.state
                      (relevant ∙ ap some (sym same_operation ∙ o)))));
        }
      where
        printed_key : Key
        printed_key = record {
          device = alarm.device;
          display_path = encoded.display_path;
          operation = operation;
        }

        same_text : text ≡ get_phoebus_key operation encoded.display_path alarm.device
        same_text = ground (arith, present, encoded.keyed)

        parsed_key : parse text ≡ ok printed_key
        parsed_key =
            ap parse same_text
            ∙ parse-get_phoebus_key operation encoded.display_path alarm.device named

        same_operation : key.operation ≡ operation
        same_operation = ground (arith, parsed_key)

        here : get key.device w.alarm_states ≡ some (from_status alarm)
        here = ground (arith, parsed_key)

    -- When Controls reports a mirrorable change of a device whose name fits into a key, and the
    -- message for it is posted to Phoebus, then the monitor that reads that message back sends no
    -- request and changes no alarm state, in any world where the state recorded for the device is
    -- still the one that was recorded with the posting.
    pub phoebus_echo-Quiet :
        (alarm : Status) (w w' v : World V)
        → (m : Mirrors env sync alarm w w')
        → (p : Posts env sync alarm m.operation m.metadata w.published w'.published)
        → IsDeviceName alarm.device
        → IsMirrorable env.chrono now alarm
        → get alarm.device v.alarm_states ≡ get alarm.device w'.alarm_states
        → (v' : World V) × (Monitor.process_runtime_message env monitor now p.message v ≡ some v')
          × Quiet v v'
    phoebus_echo-Quiet alarm w w' v m p named mirrorable same =
        Quiet-process env monitor now p.message v (
          Known-echo alarm m.operation p.message v m.relevant (same ∙ recorded_state alarm m) named
            mirrorable (encodes alarm m.operation m.metadata p.message p.encoded))

  -- A status that the policy suppresses changes nothing.
  suppressed_status :
      (msg : StringMessage) (alarm : Status) (w : World V)
      → env.json.status_from_str msg.value ≡ some alarm
      → suppresses_incoming
          (record { observed = get alarm.device w.alarm_states })
          (from_status alarm)
        ≡ true
      → (Controls.process_runtime_message env sync msg w).1 ≡ w
  suppressed_status msg alarm w decoded old = elim (process_runtime_message_effect env sync msg w) [
    | inl same ↦ same
    | inr (alarm', decoded', epics, mirrored) ↦
        let same : alarm' ≡ alarm = ground arith in absurd (cc (mirrored.fresh, same, old))
  ]

  -- A message from Controls that has just been handled is handled again without any effect on the
  -- caches, and without a posting.
  pub controls_twice :
      (msg : StringMessage) (w : World V)
      → let w' = (Controls.process_runtime_message env sync msg w).1 in
        (Controls.process_runtime_message env sync msg w').1 ≡ w'
  controls_twice msg w = elim (process_runtime_message_effect env sync msg w) [
    | inl same ↦ rw same same
    | inr (alarm, decoded, epics, mirrored) ↦
        suppressed_status msg alarm _ decoded
          (suppresses-recorded _ _ (recorded_state alarm mirrored))
  ]

  suppressed_at :
      (device : String) (alarm : Status) (s : CachedState) (w : World V)
      → alarm.device ≡ device
      → from_status alarm ≡ s
      → suppresses_incoming (record { observed = get device w.alarm_states }) s ≡ true
      → suppresses_incoming
          (record { observed = get alarm.device w.alarm_states })
          (from_status alarm)
        ≡ true
  suppressed_at device alarm s w named same old = cc

  -- Once a config has been processed at runtime, whatever its outcome, a status of that device
  -- that reports the state that the config stands for changes nothing and posts nothing.
  pub controls_echo-quiet :
      (monitor : Monitor) (now : ℤ) (key : Key) (text : String) (config : Config V)
      (s : CachedState) (outcome : SyncOutcome) (w w' : World V) (msg : StringMessage)
      (alarm : Status)
      → env.json.config_from_str (bool_or_string env.json) text ≡ some config
      → as_cached_state env.chrono now config ≡ ok s
      → process_config env monitor now key text w ≡ some (outcome, w')
      → env.json.status_from_str msg.value ≡ some alarm
      → alarm.device ≡ key.device
      → from_status alarm ≡ s
      → (Controls.process_runtime_message env sync msg w').1 ≡ w'
  controls_echo-quiet monitor now key text config s outcome w w' msg alarm read parsed done decoded
        named same =
      let (o, v, ended, effect) = process_config_effect env monitor now key text w in
      let both : v ≡ w' = ground arith in
      suppressed_status msg alarm w' decoded (
        suppressed_at key.device alarm s w' named same
          (rw both at (known_config env monitor now key text config s effect read parsed)))
