-- ===== src/Main/Phases.antt =====
-- What holds of the tasks of phoebus/mod.rs in each phase of its `synchronize`.
use alarms_actions_synchroni.Prelude.{
  ℕ, suc, Bool, true, ◌≡◌, refl, zero, false, if◌then◌else◌, ℕ_discrete, ite,
}
use alarms_actions_synchroni.Tasks.{returned}
use alarms_actions_synchroni.System.Interleaving.{Thread, update, idle}
use alarms_actions_synchroni.Program.{
  Program, Loop, unspawned, connecting, reading, checking, sleeping, finished, dropped, Phase,
  hydrating, watching, stopped, is_other,
}

-- The thread has no access left to make.
abbrev pub Waits : {V : Type 0} → Thread V → Type 0
Waits thread = thread.task ≡ returned tt

-- While the hydration lasts, no monitor is spawned; while the monitors watch, the hydration has made
-- its last access; after the end it has none left to make, and there is a cancellation.
abbrev pub IsPhased : {V : Type 0} → Phase → Bool → (ℕ → Loop) → Thread V → Type 0
IsPhased hydrating is_cancelled loops hydration = (k : ℕ) → loops k ≡ unspawned
IsPhased watching is_cancelled loops hydration = Waits hydration
IsPhased stopped is_cancelled loops hydration = Waits hydration × (is_cancelled ≡ true)

-- Only a monitor that reads its stream has a message in work.
abbrev pub IsResting : {V : Type 0} → Loop → Thread V → Type 0
IsResting reading thread = Unit
IsResting _ thread = Waits thread

abbrev pub IsInOrder : {V : Type 0} → Program V → Type 0
IsInOrder p =
    IsPhased p.phase p.is_cancelled p.monitor_loops (p.system.threads 1)
    × ((k : ℕ) → IsResting (p.monitor_loops k) (p.system.threads (suc (suc k))))

module _ {V : Type 0} where
  pub IsPhased-of_waiting :
      (phase : Phase) (b : Bool) (loops : ℕ → Loop) (thread thread' : Thread V)
      → (Waits thread → Waits thread')
      → IsPhased phase b loops thread
      → IsPhased phase b loops thread'
  IsPhased-of_waiting hydrating b loops thread thread' h phased = phased
  IsPhased-of_waiting watching b loops thread thread' h phased = h phased
  IsPhased-of_waiting stopped b loops thread thread' h (phased, c) = (h phased, c)

  pub IsPhased-of_loops :
      (phase : Phase) (b : Bool) (loops loops' : ℕ → Loop) (thread : Thread V)
      → (((k : ℕ) → loops k ≡ unspawned) → (k : ℕ) → loops' k ≡ unspawned)
      → IsPhased phase b loops thread
      → IsPhased phase b loops' thread
  IsPhased-of_loops hydrating b loops loops' thread h phased = h phased
  IsPhased-of_loops watching b loops loops' thread h phased = phased
  IsPhased-of_loops stopped b loops loops' thread h phased = phased

  pub IsPhased-of_cancellation :
      (phase : Phase) (b : Bool) (loops : ℕ → Loop) (thread : Thread V)
      → IsPhased phase b loops thread
      → IsPhased phase true loops thread
  IsPhased-of_cancellation hydrating b loops thread phased = phased
  IsPhased-of_cancellation watching b loops thread phased = phased
  IsPhased-of_cancellation stopped b loops thread (phased, c) = (phased, refl)

  pub IsResting-of_Waits : (loop : Loop) (thread : Thread V) → Waits thread → IsResting loop thread
  IsResting-of_Waits unspawned thread waits = waits
  IsResting-of_Waits connecting thread waits = waits
  IsResting-of_Waits reading thread waits = tt
  IsResting-of_Waits checking thread waits = waits
  IsResting-of_Waits sleeping thread waits = waits
  IsResting-of_Waits finished thread waits = waits
  IsResting-of_Waits dropped thread waits = waits

  pub IsResting-of_waiting :
      (loop : Loop) (thread thread' : Thread V)
      → (Waits thread → Waits thread')
      → IsResting loop thread
      → IsResting loop thread'
  IsResting-of_waiting unspawned thread thread' h rests = h rests
  IsResting-of_waiting connecting thread thread' h rests = h rests
  IsResting-of_waiting reading thread thread' h rests = tt
  IsResting-of_waiting checking thread thread' h rests = h rests
  IsResting-of_waiting sleeping thread thread' h rests = h rests
  IsResting-of_waiting finished thread thread' h rests = h rests
  IsResting-of_waiting dropped thread thread' h rests = h rests

  -- The threads and the loops of the monitors, when one of the loops changes at rest.
  pub IsResting-update :
      (loops : ℕ → Loop) (thread : Thread V) (k j : ℕ) (loop : Loop)
      → (k ≡ j → Waits thread)
      → IsResting (loops j) thread
      → IsResting (update loops k loop j) thread
  IsResting-update loops thread k j loop waits rests = of_test (ℕ_discrete k j)
    where
      of_test : (d : Dec (k ≡ j)) → IsResting (ite d loop (loops j)) thread
      of_test (yes same) = IsResting-of_Waits loop thread (waits same)
      of_test (no other) = rests

  pub Waits-without :
      (b : Bool) (thread : Thread V) → Waits thread → Waits (if b then thread else idle)
  Waits-without true thread waits = waits
  Waits-without false thread waits = refl

pub is_other_self : (k : ℕ) → is_other k k ≡ false
is_other_self zero = refl
is_other_self (suc k) = is_other_self k
