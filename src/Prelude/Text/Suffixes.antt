-- ===== src/Prelude/Text/Suffixes.antt =====
-- What `strip_suffix` takes off.
use Prim.Native.Nat.{ℕ, suc, ◌+◌}
use Prim.Native.String.{String, [], ◌∷◌}
use mathlib.Core.Path.{◌≡◌, refl, ap}
use mathlib.Core.Logic.{inl, inr}
use mathlib.Core.Option.{some}
use native.Mathlib.Omega.{arith}
use alarms_actions_synchroni.Prelude.Basics.{Option-cases}
use alarms_actions_synchroni.Prelude.Equality.{string_eq}
use alarms_actions_synchroni.Prelude.Text.Defs.{◌++◌, strip_suffix, nil-append_lem}

abbrev size : String → ℕ
size [] = 0
size (c ∷ s) = suc (size s)

size-append : (s t : String) → size (s ++ t) ≡ size s + size t
size-append [] t = omega arith
size-append (c ∷ s) t = omega (arith, size-append s t)

cons-append-ne : (s t : String) (n : ℕ) → size (s ++ t) ≡ n → suc n ≡ size t → ⊥
cons-append-ne s t n p q = omega (arith, size-append s t)

pub strip_suffix-append : (s t : String) → strip_suffix (s ++ t) t ≡ some s
unfolding strip_suffix
strip_suffix-append [] [] = ground arith
strip_suffix-append [] (c ∷ t) = ground arith
strip_suffix-append (c ∷ s) t = ground (
  arith,
  strip_suffix-append s t,
  λ (e : c ∷ (s ++ t) ≡ t). cons-append-ne s t (size (s ++ t)) refl (ap size e),
)

pub strip_suffix-inverse : (s t a : String) → strip_suffix s t ≡ some a → s ≡ a ++ t
unfolding strip_suffix
strip_suffix-inverse [] t a e = ground (arith, nil-append_lem a t)
strip_suffix-inverse (c ∷ s) t a e = elim (Option-cases (strip_suffix s t)) [
  | inl missed ↦ ground (arith, nil-append_lem a t)
  | inr (b, found) ↦ ground (arith, strip_suffix-inverse s t b found, nil-append_lem a t)
]
