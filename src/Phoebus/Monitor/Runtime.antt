-- ===== src/Phoebus/Monitor/Runtime.antt =====
-- What `process_runtime_message` of phoebus/monitor/mod.rs does, on every branch.
use alarms_actions_synchroni.Prelude.{
  String, ◌≡◌, refl, none, some, ok, err, arith, Option-cases, Result-cases, inl, inr,
}
use alarms_actions_synchroni.Prelude.Int.{ℤ}
use alarms_actions_synchroni.External.PubSub.{StringMessage}
use alarms_actions_synchroni.Models.Outcomes.{SyncOutcome}
use alarms_actions_synchroni.Models.Phoebus.Key.{Key, Operation, KeyParseError, parse}
use alarms_actions_synchroni.World.{World, Env}
use alarms_actions_synchroni.Phoebus.Monitor.{
  Monitor, process_runtime_message, dispatch, world_after,
}
use alarms_actions_synchroni.Phoebus.Monitor.Effect.{ConfigEffect, process_config_effect}
use alarms_actions_synchroni.Phoebus.Monitor.Commands.{CommandEffect, process_command_effect}

module _ {V D : Type 0} (env : Env V D) (monitor : Monitor) (now : ℤ) where
  pub data KeyedEffect (key : Key) (value : String) (w : World V) : World V → Type 0 where
    state_noise : key.operation ≡ Operation.state → KeyedEffect key value w w
    commands :
        {outcome : SyncOutcome} {w' : World V}
        → key.operation ≡ Operation.command
        → CommandEffect env monitor key value w (outcome, w')
        → KeyedEffect key value w w'
    configures :
        {outcome : SyncOutcome} {w' : World V}
        → key.operation ≡ Operation.config
        → ConfigEffect env monitor now key value w outcome w'
        → KeyedEffect key value w w'

  pub data MessageEffect (msg : StringMessage) (w : World V) : World V → Type 0 where
    no_key : msg.key ≡ none → MessageEffect msg w w
    bad_key :
        (text : String) (e : KeyParseError)
        → msg.key ≡ some text
        → parse text ≡ err e
        → MessageEffect msg w w
    keyed :
        (text : String) (key : Key) {w' : World V}
        → msg.key ≡ some text
        → parse text ≡ ok key
        → KeyedEffect key msg.value w w'
        → MessageEffect msg w w'

  dispatch_effect :
      (key : Key) (operation : Operation) (value : String) (w : World V)
      → key.operation ≡ operation
      → (w' : World V) × (world_after (dispatch env monitor now key operation value w) ≡ some w')
        × KeyedEffect key value w w'
  unfolding dispatch
  dispatch_effect key Operation.state value w e = (w, refl, state_noise e)
  dispatch_effect key Operation.command value w e =
      (_, refl, commands e (process_command_effect env monitor key value w))
  dispatch_effect key Operation.config value w e =
      let (outcome, w', done, effect) = process_config_effect env monitor now key value w in
      (w', rw done, configures e effect)

  -- A runtime message is always processed to an end, without a panic. A message without a key, or
  -- with a key that does not parse, and a state message change nothing; a command and a config have
  -- the effects that `CommandEffect` and `ConfigEffect` describe.
  pub process_runtime_message_total :
      (msg : StringMessage) (w : World V)
      → (w' : World V) × (process_runtime_message env monitor now msg w ≡ some w')
        × MessageEffect msg w w'
  unfolding process_runtime_message
  process_runtime_message_total msg w = elim (Option-cases msg.key) [
    | inl missing ↦ (w, ground arith, no_key missing)
    | inr (text, present) ↦ elim (Result-cases (parse text)) [
      | inr (e, bad) ↦ (w, ground arith, bad_key text e present bad)
      | inl (key, good) ↦
          let (w', done, effect) = dispatch_effect key key.operation msg.value w refl in
          (w', rw (present, process_runtime_message, good) done, keyed text key present good effect)
    ]
  ]
