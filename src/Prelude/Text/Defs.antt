-- ===== src/Prelude/Text/Defs.antt =====
-- `split_once`, `rsplit_once`, `strip_suffix`, `ends_with`, `to_ascii_uppercase`, `split`, `trim`.
use Prim.Native.Nat.{ℕ, ◌-◌, ◌<◌}
use Prim.Native.Char.{Char, char, code, IsScalar}
use Prim.Native.String.{String, [], ◌∷◌}
use mathlib.Core.Path.{◌≡◌, refl, ap}
use mathlib.Core.Logic.{dite}
use mathlib.Core.Bool.{Bool, true, false, not, ◌&&◌, ◌||◌}
use mathlib.Core.Option.{Option, none, some}
use mathlib.Core.List.{List}
use native.Mathlib.Omega.{arith}
use native.Mathlib.Decide.{dec_lt}
use alarms_actions_synchroni.Prelude.Basics.{ltb, if◌then◌else◌}
use alarms_actions_synchroni.Prelude.Equality.{◌==◌, string_eq, char_eq}

-- `format!("{s}{t}")`. The library's `++` is stuck at a literal followed by a variable.
infixr 65 ◌++◌
abbrev pub ◌++◌ : String → String → String
[] ++ t = t
(c ∷ s) ++ t = c ∷ (s ++ t)

pub nil-append_lem : (a t : String) → a ≡ [] → a ++ t ≡ t
nil-append_lem a t e = ap (λ (x : String). x ++ t) e

abbrev pub prepend : Char → Option (String × String) → Option (String × String)
prepend c none = none
prepend c (some (s, t)) = some (c ∷ s, t)

-- `s.split_once(c)`: the texts before and after the first `c`.
unfoldable pub split_once : String → Char → Option (String × String)
split_once [] c = none
split_once (d ∷ s) c =
    let later = prepend d (split_once s c) in if d == c then some ([], s) else later

abbrev pub or_here : Option (String × String) → Option (String × String) → Option (String × String)
or_here none here = here
or_here (some p) here = some p

-- `s.rsplit_once(c)`: the texts before and after the last `c`.
unfoldable pub rsplit_once : String → Char → Option (String × String)
rsplit_once [] c = none
rsplit_once (d ∷ s) c =
    or_here (prepend d (rsplit_once s c)) (if d == c then some ([], s) else none)

abbrev pub prepend_one : Char → Option String → Option String
prepend_one c none = none
prepend_one c (some s) = some (c ∷ s)

-- `s.strip_suffix(t)`
unfoldable pub strip_suffix : String → String → Option String
strip_suffix [] t = if [] == t then some [] else none
strip_suffix (c ∷ s) t =
    let shorter = prepend_one c (strip_suffix s t) in if (c ∷ s) == t then some [] else shorter

abbrev is_some : Option String → Bool
is_some none = false
is_some (some s) = true

-- `s.ends_with(t)`
unfoldable pub ends_with : String → String → Bool
unfolding strip_suffix
ends_with s t = is_some (strip_suffix s t)

pub IsScalar-of_lt : (n : ℕ) → n < 128 → IsScalar n
IsScalar-of_lt n h = ground arith

ascii : ℕ → Char → Char
unfolding dec_lt
ascii n c = dite (dec_lt n 128) (λ h. char n (IsScalar-of_lt n h)) (λ _. c)

is_lower : ℕ → Bool
is_lower n = ltb 96 n && ltb n 123

unfoldable pub to_ascii_uppercase : String → String
unfolding ascii is_lower
to_ascii_uppercase [] = []
to_ascii_uppercase (c ∷ s) =
    (if is_lower (code c) then ascii (code c - 32) c else c) ∷ to_ascii_uppercase s

-- The parts between the `c`s, with the text read since the last one.
abbrev add_to_first : Char → List String → List String
add_to_first d List.[] = List.[]
add_to_first d (List.◌∷◌ part parts) = List.◌∷◌ (d ∷ part) parts

-- `s.split(c)`
unfoldable pub split : String → Char → List String
split [] c = List.◌∷◌ [] List.[]
split (d ∷ s) c =
    let parts = split s c in if d == c then List.◌∷◌ [] parts else add_to_first d parts

-- Unicode `White_Space`.
pub is_whitespace : ℕ → Bool
is_whitespace n =
    (ltb 8 n && ltb n 14)
    || n_is 32
    || n_is 0x85
    || n_is 0xa0
    || n_is 0x1680
    || (ltb 0x1fff n && ltb n 0x200b)
    || n_is 0x2028
    || n_is 0x2029
    || n_is 0x202f
    || n_is 0x205f
    || n_is 0x3000
  where
    n_is : ℕ → Bool
    n_is k = not (ltb n k) && not (ltb k n)

unfoldable pub trim_start : String → String
unfolding is_whitespace
trim_start [] = []
trim_start (c ∷ s) = let rest = trim_start s in if is_whitespace (code c) then rest else c ∷ s

-- A white character goes if nothing is left after it.
unfoldable pub trim_end : String → String
unfolding is_whitespace
trim_end [] = []
trim_end (c ∷ s) =
    let rest = trim_end s in if is_whitespace (code c) && rest == [] then [] else c ∷ rest

-- `s.trim()`
unfoldable pub trim : String → String
unfolding trim_start trim_end
trim s = trim_end (trim_start s)

tests :
    (rsplit_once "a/b/c" "/" ≡ some ("a/b", "c"))
    × (split_once "a:b:c" ":" ≡ some ("a", "b:c"))
    × (ends_with "MAJOR_ACK" "_ACK" ≡ true)
    × (to_ascii_uppercase "major_ack" ≡ "MAJOR_ACK")
    × (trim "  a b " ≡ "a b")
    × (split "a,,b" "," ≡ List.◌∷◌ "a" (List.◌∷◌ "" (List.◌∷◌ "b" List.[])))
    × (strip_suffix "testCommand" "Command" ≡ some "test")
unfolding split_once rsplit_once ends_with to_ascii_uppercase trim split string_eq char_eq
tests = (refl, refl, refl, refl, refl, refl, refl)
