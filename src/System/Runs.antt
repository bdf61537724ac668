-- ===== src/System/Runs.antt =====
-- The loops of the two synchronizers run to an end, through worlds that `Reach` describes.
use alarms_actions_synchroni.Prelude.{ℕ, ◌<◌, ◌≡◌, refl, some, List, [], ◌∷◌, Option, length, Bool}
use alarms_actions_synchroni.Prelude.Int.{ℤ}
use alarms_actions_synchroni.External.PubSub.{StringMessage}
use alarms_actions_synchroni.World.{World, Env}
use alarms_actions_synchroni.Streams.{
  Event, is_stopped, live, handle_all, connect_and_watch, connect_and_watch_lem,
}
use alarms_actions_synchroni.Controls.{SyncImpl}
use alarms_actions_synchroni.Controls.Loop.{on_message, synchronize}
use alarms_actions_synchroni.Phoebus.Monitor
use alarms_actions_synchroni.Phoebus.Monitor.{Monitor}
use alarms_actions_synchroni.Phoebus.Monitor.Loop.{start}
use alarms_actions_synchroni.Phoebus.Monitor.Runtime.{process_runtime_message_total}
use alarms_actions_synchroni.System.{Step, Reach}

module _ {V D : Type 0} (env : Env V D) (sync : SyncImpl) where
  -- Every message leads to a next world, by one step.
  abbrev Steps : (ℤ → StringMessage → World V → Option (World V)) → Type 0
  Steps handle =
      (now : ℤ) (msg : StringMessage) (w : World V)
      → (w' : World V) × (handle now msg w ≡ some w') × Step env sync w w'

  handle_all-Reach :
      (handle : ℤ → StringMessage → World V → Option (World V))
      → Steps handle
      → (messages : List (ℤ × StringMessage)) (u w : World V) → Reach env sync u w
      → (w' : World V) × (handle_all handle messages w ≡ some w') × Reach env sync u w'
  handle_all-Reach handle steps [] u w run = (w, refl, run)
  handle_all-Reach handle steps ((now, msg) ∷ messages) u w run =
      let (w', done, step) = steps now msg w in
      let (w'', all_done, run') =
        handle_all-Reach handle steps messages u w' (Reach.next run step) in
      (w'', rw (handle_all, done) all_done, run')

  -- The loop has handled just the messages before the cancellation, and has returned exactly if
  -- there is one.
  pub record Completes (handle : ℤ → StringMessage → World V → Option (World V))
      (result : Option (Bool × World V)) (events : List Event) (w : World V) : Type 0 where
    pub last : World V
    pub handles_all : handle_all handle (live events) w ≡ some last
    pub result_is : result ≡ some (is_stopped events, last)
    pub reached : Reach env sync w last

  completes :
      (handle : ℤ → StringMessage → World V → Option (World V))
      → Steps handle
      → (n : ℕ) (events : List Event) (w : World V) → length events < n
      → Completes handle (connect_and_watch handle n events w) events w
  completes handle steps n events w h =
      let (w', done, run) = handle_all-Reach handle steps (live events) w w Reach.here in
      record {
        last = w';
        handles_all = done;
        result_is = rw (connect_and_watch_lem handle n events w h, done) refl;
        reached = run;
      }

  -- Whatever events come, the loop over the messages from Controls handles exactly those before the
  -- cancellation, each once and in order, however often the stream ends and is opened again; it
  -- returns exactly if there is a cancellation. Fuel for more connections than events is enough.
  pub synchronize-Completes :
      (n : ℕ) (events : List Event) (w : World V)
      → length events < n
      → Completes (on_message env sync) (synchronize env sync n events w) events w
  unfolding synchronize
  synchronize-Completes n events w h =
      completes (on_message env sync) (λ now msg w. (_, refl, Step.controls msg refl)) n events w h

  -- Whatever events come, the loop over the messages of a Phoebus topic never panics, and handles
  -- exactly the messages before the cancellation, each once and in order, however often the stream
  -- ends and is opened again; it returns exactly if there is a cancellation. Fuel for more
  -- connections than events is enough.
  pub start-Completes :
      (monitor : Monitor) (n : ℕ) (events : List Event) (w : World V)
      → length events < n
      → Completes
          (Monitor.process_runtime_message env monitor)
          (start env monitor n events w)
          events
          w
  unfolding start
  start-Completes monitor n events w h =
      completes (Monitor.process_runtime_message env monitor)
        (λ now msg w.
          let (w', done, effect) = process_runtime_message_total env monitor now msg w in
          (w', done, Step.runtime monitor now msg done))
        n events w h
