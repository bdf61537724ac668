-- ===== src/Streams.antt =====
-- The loop in which both synchronizers watch a stream and reconnect: `monitor` and `synchronize` of
-- controls/mod.rs, `watch_stream` and `start` of phoebus/monitor/mod.rs.
use alarms_actions_synchroni.Prelude.{
  ℕ, zero, suc, ◌<◌, Bool, true, false, Option, none, some, List, [], ◌∷◌, ◌≡◌, refl, arith, length,
  Option-cases, inl, inr,
}
use alarms_actions_synchroni.Prelude.Int.{ℤ}
use alarms_actions_synchroni.External.PubSub.{StringMessage}

-- What `tokio::select!` sees next.
pub data Event : Type 0 where
  -- A message, and the time at which it is handled.
  message : ℤ → StringMessage → Event
  -- The stream ends; the Boolean is what `is_cancelled` then returns.
  dropped : Bool → Event
  cancelled : Event

-- How the loop over one stream is left: `none` if it waits for a next event, else what
-- `is_cancelled` then returns.
abbrev pub Exit : Type 0
Exit = Option Bool

-- Whether a cancellation is seen, and the messages before it, whichever stream they came from.
abbrev pub is_stopped : List Event → Bool
is_stopped [] = false
is_stopped (cancelled ∷ events) = true
is_stopped (dropped true ∷ events) = true
is_stopped (dropped false ∷ events) = is_stopped events
is_stopped (message now msg ∷ events) = is_stopped events

abbrev pub live : List Event → List (ℤ × StringMessage)
live [] = []
live (cancelled ∷ events) = []
live (dropped true ∷ events) = []
live (dropped false ∷ events) = live events
live (message now msg ∷ events) = (now, msg) ∷ live events

module _ {W : Type 0} (handle : ℤ → StringMessage → W → Option W) where
  handled : (W → Option (Exit × List Event × W)) → Option W → Option (Exit × List Event × W)
  handled next none = none
  handled next (some w) = next w

  -- The loop over one stream, and the events that are left after it; `none` is a panic.
  unfoldable pub watch : List Event → W → Option (Exit × List Event × W)
  unfolding handled
  watch [] w = some (none, [], w)
  watch (cancelled ∷ events) w = some (some true, events, w)
  watch (dropped is_cancelled ∷ events) w = some (some is_cancelled, events, w)
  watch (message now msg ∷ events) w = handled (watch events) (handle now msg w)

  reconnect :
      (List Event → W → Option (Bool × W)) → Option (Exit × List Event × W) → Option (Bool × W)
  reconnect next none = none
  reconnect next (some (none, events, w)) = some (false, w)
  reconnect next (some (some true, events, w)) = some (true, w)
  reconnect next (some (some false, events, w)) = next events w

  -- The loop that connects again whenever a stream ends; whether it has returned, and the world
  -- then. The fuel bounds the connections.
  unfoldable pub connect_and_watch : ℕ → List Event → W → Option (Bool × W)
  unfolding reconnect
  connect_and_watch zero events w = none
  connect_and_watch (suc connections) events w =
      reconnect (connect_and_watch connections) (watch events w)

  abbrev pub handle_all : List (ℤ × StringMessage) → W → Option W
  handle_all [] w = some w
  handle_all ((now, msg) ∷ messages) w = elim (handle now msg w) [
    | none ↦ none
    | some w' ↦ handle_all messages w'
  ]

  abbrev returned : Bool → Option W → Option (Bool × W)
  returned stopped none = none
  returned stopped (some w) = some (stopped, w)

  -- With fuel for more connections than there are events, exactly the messages before the
  -- cancellation are handled, each once and in their order, across all the streams, and the loop
  -- returns exactly if there is a cancellation.
  pub connect_and_watch_lem :
      (n : ℕ) (events : List Event) (w : W)
      → length events < n
      → connect_and_watch n events w ≡ returned (is_stopped events) (handle_all (live events) w)
  unfolding connect_and_watch watch
  connect_and_watch_lem zero events w h = absurd (omega arith)
  connect_and_watch_lem (suc n) [] w h = refl
  connect_and_watch_lem (suc n) (cancelled ∷ events) w h = refl
  connect_and_watch_lem (suc n) (dropped true ∷ events) w h = refl
  connect_and_watch_lem (suc n) (dropped false ∷ events) w h =
      connect_and_watch_lem n events w (omega arith)
  connect_and_watch_lem (suc n) (message now msg ∷ events) w h =
      elim (Option-cases (handle now msg w)) [
        | inl panic ↦ rw (panic, handled) refl
        | inr (w', done) ↦
            rw (done, handled) (connect_and_watch_lem (suc n) events w' (omega arith))
      ]
