-- ===== src/Prelude/Text/Trimming.antt =====
-- What `split` and `trim` leave.
use Prim.Native.Char.{Char, code}
use Prim.Native.String.{String, [], ◌∷◌}
use mathlib.Core.Path.{◌≡◌, refl, ap, ◌∙◌, sym, subst}
use mathlib.Core.Logic.{inl, inr}
use mathlib.Core.Bool.{true, false}
use mathlib.Core.List.{List}
use native.Mathlib.Omega.{arith}
use alarms_actions_synchroni.Prelude.Basics.{Bool-cases}
use alarms_actions_synchroni.Prelude.Equality.{char_eq, string_eq, ◌==◌}
use alarms_actions_synchroni.Prelude.Text.Defs.{
  ◌++◌, split, trim, trim_start, trim_end, is_whitespace,
}
use alarms_actions_synchroni.Prelude.Text.Splitting.{Lacks, split_cons}

-- The texts with the character between each two.
abbrev pub join : Char → List String → String
join c List.[] = []
join c (List.◌∷◌ part List.[]) = part
join c (List.◌∷◌ part (List.◌∷◌ next parts)) = part ++ c ∷ join c (List.◌∷◌ next parts)

abbrev pub AllLack : Char → List String → Type 0
AllLack c List.[] = Unit
AllLack c (List.◌∷◌ part parts) = Lacks c part × AllLack c parts

join-cons :
    (c d : Char) (part : String) (parts : List String)
    → join c (List.◌∷◌ (d ∷ part) parts) ≡ d ∷ join c (List.◌∷◌ part parts)
join-cons c d part List.[] = refl
join-cons c d part (List.◌∷◌ next parts) = refl

pub join-split : (s : String) (c : Char) → join c (split s c) ≡ s
unfolding split
join-split [] c = refl
join-split (d ∷ s) c =
    let (part, parts, e) = split_cons s c in
    let joined = rw e at (join-split s c) in
    elim (char_eq.dec d c) [
      | yes same ↦
          let here : (d == c) ≡ true = ground (arith, same) in rw (here, e) (rw (same, joined) refl)
      | no other ↦
          let later : (d == c) ≡ false = ground (arith, other) in
          rw (later, e) (join-cons c d part parts ∙ ap (λ t. d ∷ t) joined)
    ]

pub split-AllLack : (s : String) (c : Char) → AllLack c (split s c)
unfolding split
split-AllLack [] c = (tt, tt)
split-AllLack (d ∷ s) c =
    let (part, parts, e) = split_cons s c in
    let lacking = rw e at (split-AllLack s c) in
    elim (char_eq.dec d c) [
      | yes same ↦ let here : (d == c) ≡ true = ground (arith, same) in rw (here, e) (tt, lacking)
      | no other ↦
          let later : (d == c) ≡ false = ground (arith, other) in
          rw (later, e) ((other, lacking.0), lacking.1)
    ]

-- Every character is white.
abbrev pub IsBlank : String → Type 0
IsBlank [] = Unit
IsBlank (c ∷ s) = (is_whitespace (code c) ≡ true) × IsBlank s

-- The text does not begin with a white character.
abbrev pub BeginsVisibly : String → Type 0
BeginsVisibly [] = Unit
BeginsVisibly (c ∷ s) = is_whitespace (code c) ≡ false

-- It does not end with one.
abbrev pub EndsVisibly : String → Type 0
EndsVisibly [] = Unit
EndsVisibly (c ∷ []) = is_whitespace (code c) ≡ false
EndsVisibly (c ∷ d ∷ s) = EndsVisibly (d ∷ s)

EndsVisibly-cons :
    (c : Char) (s : String)
    → (s ≡ [] → is_whitespace (code c) ≡ false)
    → EndsVisibly s
    → EndsVisibly (c ∷ s)
EndsVisibly-cons c [] visible ends = visible refl
EndsVisibly-cons c (d ∷ s) visible ends = ends

-- What `trim_start` takes away.
trim_start_lem :
    (s : String)
    → (before : String) × IsBlank before
      × (s ≡ before ++ trim_start s)
      × BeginsVisibly (trim_start s)
unfolding trim_start
trim_start_lem [] = ([], tt, refl, tt)
trim_start_lem (c ∷ s) = elim (Bool-cases (is_whitespace (code c))) [
  | inl white ↦
      let (before, blank, cut, visible) = trim_start_lem s in
      rw white (c ∷ before, (white, blank), ap (λ t. c ∷ t) cut, visible)
  | inr visible ↦ rw visible ([], tt, refl, visible)
]

-- What `trim_end` takes away.
trim_end_lem :
    (s : String)
    → (after : String) × IsBlank after × (s ≡ trim_end s ++ after) × EndsVisibly (trim_end s)
unfolding trim_end
trim_end_lem [] = ([], tt, refl, tt)
trim_end_lem (c ∷ s) =
    let (after, blank, cut, ends) = trim_end_lem s in
    elim (Bool-cases (is_whitespace (code c))) [
      | inl white ↦ elim (string_eq.dec (trim_end s) []) [
        | yes nothing ↦
            let empty : (trim_end s == []) ≡ true = ground (arith, nothing) in
            let all : s ≡ after = cut ∙ ap (λ t. t ++ after) nothing in
            rw (white, empty) (c ∷ s, (white, subst IsBlank (sym all) blank), refl, tt)
        | no left ↦
            let longer : (trim_end s == []) ≡ false = ground (arith, left) in
            rw (white, longer)
              (
                after,
                blank,
                ap (λ t. c ∷ t) cut,
                EndsVisibly-cons c (trim_end s) (λ e. absurd (left e)) ends,
              )
      ]
      | inr visible ↦
          rw visible
            (after, blank, ap (λ t. c ∷ t) cut, EndsVisibly-cons c (trim_end s) (λ e. visible) ends)
    ]

trim_end-BeginsVisibly : (s : String) → BeginsVisibly s → BeginsVisibly (trim_end s)
unfolding trim_end
trim_end-BeginsVisibly [] visible = tt
trim_end-BeginsVisibly (c ∷ s) visible = rw visible visible

-- `trimmed` is the text without the white characters at its two ends.
pub record IsTrimmed (text trimmed : String) : Type 0 where
  before : String
  after : String
  white_before : IsBlank before
  white_after : IsBlank after
  whole : text ≡ before ++ (trimmed ++ after)
  begins : BeginsVisibly trimmed
  ends : EndsVisibly trimmed

pub trim-IsTrimmed : (s : String) → IsTrimmed s (trim s)
unfolding trim
trim-IsTrimmed s =
    let (before, blank, cut, begins) = trim_start_lem s in
    let (after, blank_too, cut_too, ends) = trim_end_lem (trim_start s) in
    record {
      before = before;
      after = after;
      white_before = blank;
      white_after = blank_too;
      whole = cut ∙ ap (λ t. before ++ t) cut_too;
      begins = trim_end-BeginsVisibly (trim_start s) begins;
      ends = ends;
    }
