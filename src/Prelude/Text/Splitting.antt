-- ===== src/Prelude/Text/Splitting.antt =====
-- What `split_once` and `rsplit_once` find, and where.
use Prim.Native.Char.{Char}
use Prim.Native.String.{String, [], ◌∷◌}
use mathlib.Core.Path.{◌≡◌, refl, ap}
use mathlib.Core.Logic.{◌≢◌, inl, inr}
use mathlib.Core.Option.{Option, none, some}
use native.Mathlib.Omega.{arith}
use mathlib.Core.List.{List}
use alarms_actions_synchroni.Prelude.Basics.{Option-cases, Bool-cases}
use alarms_actions_synchroni.Prelude.Equality.{char_eq, ◌==◌}
use alarms_actions_synchroni.Prelude.Text.Defs.{
  ◌++◌, split_once, rsplit_once, prepend, nil-append_lem, split,
}

-- No character of the text is `c`.
abbrev pub Lacks : Char → String → Type 0
Lacks c [] = Unit
Lacks c (d ∷ s) = (d ≢ c) × Lacks c s

module _ (c : Char) where
  Lacks-nil : (a : String) → a ≡ [] → Lacks c a
  Lacks-nil a e = rw e tt

  pub split_once-append : (s t : String) → Lacks c s → split_once (s ++ c ∷ t) c ≡ some (s, t)
  unfolding split_once
  split_once-append [] t h = ground arith
  split_once-append (d ∷ s) t (n, h) = ground (arith, split_once-append s t h)

  prepend-inverse :
      (d : Char) (o : Option (String × String)) (a b : String)
      → prepend d o ≡ some (a, b)
      → (a' : String) × (o ≡ some (a', b)) × (a ≡ d ∷ a')
  prepend-inverse d none a b e = cc
  prepend-inverse d (some (a', b')) a b e = (a', ground arith, ground arith)

  pub split_once-inverse :
      (s a b : String) → split_once s c ≡ some (a, b) → (s ≡ a ++ c ∷ b) × Lacks c a
  unfolding split_once
  split_once-inverse [] a b e = cc
  split_once-inverse (d ∷ s) a b e = elim (char_eq.dec d c) [
    | yes p ↦ ground (arith, nil-append_lem a (c ∷ b), Lacks-nil a)
    | no n ↦
        let (a', found, cut) = prepend-inverse d (split_once s c) a b (ground arith) in
        let (joined, clean) = split_once-inverse s a' b found in
        rw cut (ap (λ t. d ∷ t) joined, (n, clean))
  ]

  pub rsplit_once-none : (s : String) → Lacks c s → rsplit_once s c ≡ none
  unfolding rsplit_once
  rsplit_once-none [] h = refl
  rsplit_once-none (d ∷ s) (n, h) = ground (arith, rsplit_once-none s h)

  pub Lacks-of_rsplit_once : (s : String) → rsplit_once s c ≡ none → Lacks c s
  unfolding rsplit_once
  Lacks-of_rsplit_once [] e = tt
  Lacks-of_rsplit_once (d ∷ s) e = ground (arith, Lacks-of_rsplit_once s)

  pub rsplit_once-append : (s t : String) → Lacks c t → rsplit_once (s ++ c ∷ t) c ≡ some (s, t)
  unfolding rsplit_once
  rsplit_once-append [] t h = ground (arith, rsplit_once-none t h)
  rsplit_once-append (d ∷ s) t h = ground (arith, rsplit_once-append s t h)

  pub rsplit_once-inverse :
      (s a b : String) → rsplit_once s c ≡ some (a, b) → (s ≡ a ++ c ∷ b) × Lacks c b
  unfolding rsplit_once
  rsplit_once-inverse [] a b e = cc
  rsplit_once-inverse (d ∷ s) a b e = elim (Option-cases (rsplit_once s c)) [
    | inl none_later ↦ ground (arith, Lacks-of_rsplit_once s, nil-append_lem a (c ∷ b))
    | inr ((x, y), later) ↦ ground (arith, rsplit_once-inverse s x y)
  ]

-- A text has a first part.
pub split_cons :
    (s : String) (c : Char)
    → (part : String) × (parts : List String) × (split s c ≡ List.◌∷◌ part parts)
unfolding split
split_cons [] c = ([], List.[], refl)
split_cons (d ∷ s) c =
    let (part, parts, e) = split_cons s c in
    elim (Bool-cases (d == c)) [
      | inl same ↦ ([], List.◌∷◌ part parts, rw (same, e) refl)
      | inr other ↦ (d ∷ part, parts, rw (other, e) refl)
    ]
