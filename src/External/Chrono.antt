-- ===== src/External/Chrono.antt =====
-- The `chrono` crate: a type of date-times at any offset, and the calls that the program makes.
use alarms_actions_synchroni.Prelude.{ℕ, String, Option, none, some, ◌≡◌}
use alarms_actions_synchroni.Prelude.Int.{ℤ}

pub record Chrono (D : Type 0) : Type 0 where
  pub timestamp : D → ℤ
  pub timestamp_millis : D → ℤ
  pub timestamp_subsec_nanos : D → ℕ
  pub parse_from_rfc3339 : String → Option D
  pub to_rfc3339 : D → String
  pub fixed_offset : D → D
  -- `Utc.timestamp_opt(seconds, nanos).single()`
  pub timestamp_opt : ℤ → ℕ → Option D

-- What the documentation of `chrono` says of these calls, as far as a theorem relies on it.
pub record IsChrono {D : Type 0} (c : Chrono D) : Type 0 where
  -- The date that is made from a number of seconds and nanoseconds has them.
  pub timestamp-timestamp_opt :
      (s : ℤ) (n : ℕ) (d : D) → c.timestamp_opt s n ≡ some d → c.timestamp (c.fixed_offset d) ≡ s
  pub subsec_nanos-timestamp_opt :
      (s : ℤ) (n : ℕ) (d : D)
      → c.timestamp_opt s n ≡ some d
      → c.timestamp_subsec_nanos (c.fixed_offset d) ≡ n
  -- The two Boolean words are no dates.
  pub parse-true : c.parse_from_rfc3339 "true" ≡ none
  pub parse-false : c.parse_from_rfc3339 "false" ≡ none
