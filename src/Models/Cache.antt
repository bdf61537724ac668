-- ===== src/Models/Cache.antt =====
-- models/cache/mod.rs. The shared `Arc<RwLock<HashMap<..>>>` is the map itself, which a function
-- takes and returns; each function is one critical section of the lock.
use alarms_actions_synchroni.Prelude.{
  String, Bool, true, false, not, ◌&&◌, ◌||◌, Option, none, some, Eq, ◌==◌, if◌then◌else◌,
}
use alarms_actions_synchroni.Prelude.Int.{ℤ, as_i32, ltb_ℤ}
use alarms_actions_synchroni.Prelude.HashMap.{HashMap, get, insert}
use alarms_actions_synchroni.External.Chrono.{Chrono}
use alarms_actions_synchroni.Models.Proto.{
  State, Status, Timestamp, State-discrete, Timestamp-discrete, state_eq,
}

pub record CachedState : Type 0 where
  pub state : State
  pub wake : Option Timestamp

pub CachedState-discrete : Discrete CachedState
unfolding State-discrete Timestamp-discrete
CachedState-discrete = hlevel (State-discrete, Timestamp-discrete)

instance unfoldable pub cached_state_eq : Eq CachedState
unfolding CachedState-discrete
cached_state_eq = record { dec = CachedState-discrete }

abbrev pub AlarmStateCache : Type 0
AlarmStateCache = HashMap CachedState

-- `CachedState::bypassed`
unfoldable pub bypassed : CachedState
bypassed = record { state = State.bypassed; wake = none }

-- `CachedState::default`
unfoldable pub default : CachedState
default = record { state = State.unknown; wake = none }

-- `From<&Status>`
unfoldable pub from_status : Status → CachedState
from_status value = record { state = value.state; wake = value.wake }

-- `From<bool>`
unfoldable pub from_bool : Bool → CachedState
from_bool is_active = record {
  state = if is_active then State.unbypassed else State.bypassed;
  wake = none;
}

module _ {D : Type 0} (chrono : Chrono D) where
  -- `From<DateTime<Tz>>`, at the time `now` that `Utc::now().timestamp_millis()` returns.
  unfoldable pub from_datetime : ℤ → D → CachedState
  from_datetime now value =
      if ltb_ℤ now (chrono.timestamp_millis value)
      then record {
        state = State.bypassed;
        wake = some (record {
          seconds = chrono.timestamp value;
          nanos = as_i32 (chrono.timestamp_subsec_nanos value);
        });
      }
      else record { state = State.unbypassed; wake = none }

pub record ObservedStatePolicy : Type 0 where
  pub observed : Option CachedState

-- `matches!(state, State::Bypassed | State::Unbypassed)`
abbrev is_bypass_change : State → Bool
is_bypass_change State.bypassed = true
is_bypass_change State.unbypassed = true
is_bypass_change _ = false

unfoldable pub is_transition_forbidden : CachedState → CachedState → Bool
is_transition_forbidden observed incoming =
    observed.state == State.bypassed && not (is_bypass_change incoming.state)

-- `Option::is_some_and`
abbrev pub is_some_and {ℓ} : {A : Type ℓ} → Option A → (A → Bool) → Bool
is_some_and none p = false
is_some_and (some a) p = p a

unfoldable pub suppresses_incoming : ObservedStatePolicy → CachedState → Bool
unfolding is_transition_forbidden
suppresses_incoming policy incoming =
    is_some_and policy.observed
      λ observed. observed == incoming || is_transition_forbidden observed incoming

unfoldable pub read_observed_state_policy : AlarmStateCache → String → ObservedStatePolicy
read_observed_state_policy cache device = record { observed = get device cache }

unfoldable pub record_alarm_state : AlarmStateCache → String → CachedState → AlarmStateCache
record_alarm_state cache device state = insert device state cache

unfoldable pub record_startup_state_evidence :
    AlarmStateCache → String → CachedState → AlarmStateCache
record_startup_state_evidence cache device state =
    if is_some_and (get device cache) (λ existing. existing.state == State.bypassed)
    then cache
    else insert device state cache
