-- ===== src/Main/Callings.antt =====
-- Which loops of main.rs have seen a cancellation, and which are spawned.
use alarms_actions_synchroni.Prelude.{Bool, true, ◌≡◌, ◌≢◌, refl, arith, none, some, Option}
use alarms_actions_synchroni.Program.{
  Loop, unspawned, connecting, reading, checking, sleeping, finished, dropped, Turn, connects,
  breaks, drops, returns, pauses, wakes, aborted, first_loop,
}
use alarms_actions_synchroni.Phoebus.Monitor.{Monitor}

-- A loop that has returned has seen a cancellation.
abbrev pub IsCalledOff : Loop → Bool → Type 0
IsCalledOff finished is_cancelled = is_cancelled ≡ true
IsCalledOff _ is_cancelled = Unit

pub Turn-IsCalledOff : (b : Bool) {loop loop' : Loop} → Turn b loop loop' → IsCalledOff loop' b
Turn-IsCalledOff b connects = tt
Turn-IsCalledOff b (breaks c) = tt
Turn-IsCalledOff b drops = tt
Turn-IsCalledOff b (returns c) = c
Turn-IsCalledOff b (pauses c) = tt
Turn-IsCalledOff b wakes = tt

pub IsCalledOff-of_cancellation : (loop : Loop) → IsCalledOff loop true
IsCalledOff-of_cancellation unspawned = tt
IsCalledOff-of_cancellation connecting = tt
IsCalledOff-of_cancellation reading = tt
IsCalledOff-of_cancellation checking = tt
IsCalledOff-of_cancellation sleeping = tt
IsCalledOff-of_cancellation finished = refl
IsCalledOff-of_cancellation dropped = tt

pub IsCalledOff-aborted :
    (loop : Loop) (b : Bool) → IsCalledOff loop b → IsCalledOff (aborted loop) b
IsCalledOff-aborted unspawned b off = tt
IsCalledOff-aborted connecting b off = tt
IsCalledOff-aborted reading b off = tt
IsCalledOff-aborted checking b off = tt
IsCalledOff-aborted sleeping b off = tt
IsCalledOff-aborted finished b off = off
IsCalledOff-aborted dropped b off = tt

pub IsCalledOff-first_loop :
    (monitor : Option Monitor) (b : Bool) → IsCalledOff (first_loop monitor) b
IsCalledOff-first_loop none b = tt
IsCalledOff-first_loop (some monitor) b = tt

pub Turn-spawned : (b : Bool) {loop loop' : Loop} → Turn b loop loop' → loop ≢ unspawned
Turn-spawned b connects = ground arith
Turn-spawned b (breaks c) = ground arith
Turn-spawned b drops = ground arith
Turn-spawned b (returns c) = ground arith
Turn-spawned b (pauses c) = ground arith
Turn-spawned b wakes = ground arith
