-- ===== src/Prelude/Equality.antt =====
-- Rust's `==` for the types whose equality is structural, by a decision procedure. A proof that
-- splits on `a == b` has the equation, or its negation.
use Prim.Native.Char.{Char, code}
use Prim.Native.String.{String}
use mathlib.Core.Path.{◌≡◌, ap}
use mathlib.Core.Logic.{ite, dite}
use mathlib.Core.Bool.{Bool, true, false, Bool-discrete}
use native.Mathlib.Omega.{arith}
use native.Mathlib.Decide.{ℕ_discrete}
use text.Mathlib.Text
use text.Mathlib.TextEquality.{eq_iff, Char-path}

pub record Eq {ℓ} (A : Type ℓ) : Type ℓ where
  pub dec : Discrete A

module _ {ℓ} {A : Type ℓ} ⦃e : Eq A⦄ where
  infix 50 ◌==◌
  abbrev pub ◌==◌ : A → A → Bool
  a == b = ite (e.dec a b) true false

  pub ==_refl : (a : A) → (a == a) ≡ true
  ==_refl a = ground arith

instance unfoldable pub string_eq : Eq String
string_eq = record {
  dec = λ s t.
      dite (Bool-discrete (Text.◌==◌ s t) true) (λ same. yes ((eq_iff s t).0 same))
        (λ differ. no (λ p. differ ((eq_iff s t).1 p)));
}

char_eq_dec : Discrete Char
char_eq_dec c d =
    dite (ℕ_discrete (code c) (code d)) (λ same. yes (Char-path c d same))
      (λ differ. no (λ p. differ (ap code p)))

instance unfoldable pub char_eq : Eq Char
unfolding char_eq_dec ℕ_discrete
char_eq = record { dec = char_eq_dec }
