-- ===== src/Models/Proto.antt =====
-- The protobuf messages of models/mod.rs (`proto`), whose definitions are not in the repository.
-- The fields are those that the code reads, as the generated getters give them; the constructors
-- are the variants that the code and its tests name, and `other` stands for any further one.
use alarms_actions_synchroni.Prelude.{ℕ, String, Option, Eq}
use alarms_actions_synchroni.Prelude.Int.{ℤ}
use native.Mathlib.Decide.{ℕ_discrete}

-- `google.protobuf.Timestamp`; `nanos` is an `i32`.
pub record Timestamp : Type 0 where
  pub seconds : ℤ
  pub nanos : ℤ

-- `common.alarm.status.State`
pub data State : Type 0 where
  unknown ok alarmed acknowledged bypassed unbypassed : State
  other : ℕ → State

-- `common.alarm.status.Source`
pub data Source : Type 0 where
  epics analog : Source
  other : ℕ → Source

-- `common.alarm.Status`
pub record Status : Type 0 where
  pub device : String
  pub user : String
  pub state : State
  pub source : Source
  pub wake : Option Timestamp

unfoldable pub Timestamp-discrete : Discrete Timestamp
Timestamp-discrete = hlevel ℕ_discrete

unfoldable pub State-discrete : Discrete State
State-discrete = hlevel ℕ_discrete

Source-discrete : Discrete Source
Source-discrete = hlevel ℕ_discrete

instance unfoldable pub state_eq : Eq State
unfolding State-discrete
state_eq = record { dec = State-discrete }

instance unfoldable pub source_eq : Eq Source
unfolding Source-discrete
source_eq = record { dec = Source-discrete }
