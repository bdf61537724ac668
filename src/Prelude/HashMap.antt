-- ===== src/Prelude/HashMap.antt =====
-- `std::collections::HashMap<String, V>` as an association list. Nothing reads the order.
use Prim.Native.String.{String}
use mathlib.Core.Path.{◌≡◌, refl}
use mathlib.Core.Logic.{ite}
use mathlib.Core.Bool.{Bool, true, false, ◌&&◌}
use mathlib.Core.Option.{Option, none, some}
use mathlib.Core.List.{List, [], ◌∷◌}
use native.Mathlib.Omega.{arith}
use native.Mathlib.Decide.{ℕ_discrete}
use alarms_actions_synchroni.Prelude.Basics.{if◌then◌else◌, length}
use alarms_actions_synchroni.Prelude.Equality.{◌==◌, string_eq}

abbrev pub HashMap {ℓ} : Type ℓ → Type ℓ
HashMap V = List (String × V)

module _ {ℓ} {V : Type ℓ} where
  unfoldable pub get : String → HashMap V → Option V
  get k [] = none
  get k ((j, v) ∷ m) = if k == j then some v else get k m

  unfoldable pub insert : String → V → HashMap V → HashMap V
  insert k v [] = (k, v) ∷ []
  insert k v ((j, w) ∷ m) = if k == j then (k, v) ∷ m else (j, w) ∷ insert k v m

  -- `from_iter`: a later pair of the same key wins.
  unfoldable pub insert_all : HashMap V → List (String × V) → HashMap V
  insert_all m [] = m
  insert_all m ((k, v) ∷ pairs) = insert_all (insert k v m) pairs

  unfoldable pub collect : List (String × V) → HashMap V
  unfolding insert_all
  collect pairs = insert_all [] pairs

  module _ (same : V → V → Bool) where
    agrees : Option V → V → Bool
    agrees none v = false
    agrees (some w) v = same v w

    contains_all : HashMap V → HashMap V → Bool
    unfolding agrees
    contains_all [] n = true
    contains_all ((k, v) ∷ m) n = agrees (get k n) v && contains_all m n

    -- `PartialEq`: as many entries, and each entry of the one in the other.
    unfoldable pub equals : HashMap V → HashMap V → Bool
    unfolding contains_all
    equals m n = ite (ℕ_discrete (length m) (length n)) (contains_all m n) false

  pub get-insert :
      (k j : String) (v : V) (m : HashMap V)
      → get j (insert k v m) ≡ (if j == k then some v else get j m)
  unfolding get insert
  get-insert k j v [] = refl
  get-insert k j v ((i, w) ∷ m) = ground (arith, get-insert k j v m)

  pub get-insert_self : (k : String) (v : V) (m : HashMap V) → get k (insert k v m) ≡ some v
  get-insert_self k v m = ground (arith, get-insert k k v m)
