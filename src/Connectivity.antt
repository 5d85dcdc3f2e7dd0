-- ===== src/Connectivity.antt =====
-- internal/modem/connectivity/classifier.go. A `time.Time` is a number of nanoseconds, and the
-- clock is an argument of each call. `now.Sub(since) >= d` with `d >= 0` is `since + d <= now`.
pub mod Hysteresis
pub mod Streak
pub mod Trace
mod Tests
use modem_service.Prelude.{
  ℕ, ◌+◌, ◌*◌, String, Bool, true, false, not, ◌||◌, leb, if◌then◌else◌, str_eq, List, [], ◌∷◌,
}

-- `unknown` is the empty string, the value of a fresh classifier.
pub data State : Type 0 where
  unknown connected disconnected disabled no_sim denied failed : State

-- `==` on the string constants.
abbrev pub state_eq : State → State → Bool
state_eq unknown unknown = true
state_eq connected connected = true
state_eq disconnected disconnected = true
state_eq disabled disabled = true
state_eq no_sim no_sim = true
state_eq denied denied = true
state_eq failed failed = true
state_eq _ _ = false

abbrev pub second : ℕ
second = 1000000000

abbrev pub online_debounce : ℕ
online_debounce = 60 * second

abbrev pub offline_debounce : ℕ
offline_debounce = 180 * second

abbrev pub denied_debounce : ℕ
denied_debounce = 60 * second

pub record Inputs : Type 0 where
  pub modem_status : String
  pub sim_state : String
  pub registration : String
  pub enabled : Bool
  pub hard_failed : Bool

-- The field `now`, a function, is the argument `now` of the methods.
pub record Classifier : Type 0 where
  pub committed : State
  pub pending : State
  pub pending_since : ℕ

unfoldable pub new : Classifier
new = record { committed = unknown; pending = unknown; pending_since = 0 }

unfoldable pub raw_state : Inputs → State
raw_state i =
    if not i.enabled
    then disabled
    else if i.hard_failed
    then failed
    else if str_eq i.sim_state "missing" || str_eq i.sim_state "inactive"
    then no_sim
    else if str_eq i.registration "denied" || str_eq i.registration "failed"
    then denied
    else if str_eq i.modem_status "connected"
    then connected
    else disconnected

unfoldable pub commit_delay : State → State → ℕ
commit_delay from disabled = 0
commit_delay from no_sim = 0
commit_delay from failed = 0
commit_delay from denied = denied_debounce
commit_delay from connected = online_debounce
commit_delay connected disconnected = offline_debounce
commit_delay _ disconnected = 0
commit_delay from unknown = 0

-- The body of `Classify` once `rawState` and the clock are read.
unfoldable pub fold_raw : Classifier → State → ℕ → Classifier
unfolding commit_delay
fold_raw c raw now =
    if state_eq c.committed unknown
    then record { committed = raw; pending = raw; pending_since = now }
    else let d =
        if state_eq raw c.pending then c else record c { pending = raw; pending_since = now } in
      if state_eq raw d.committed
      then d
      else if leb (d.pending_since + commit_delay d.committed raw) now
      then record d { committed = raw }
      else d

-- The new classifier; what the method returns is its field `committed`.
unfoldable pub classify : Classifier → Inputs → ℕ → Classifier
unfolding fold_raw raw_state
classify c i now = fold_raw c (raw_state i) now

unfoldable pub is_connected : Classifier → Bool
is_connected c = state_eq c.committed connected

unfoldable pub force : Classifier → State → ℕ → Classifier
force c s now = record { committed = s; pending = s; pending_since = now }

-- A run over observations, each with its time.
unfoldable pub run : Classifier → List (Inputs × ℕ) → Classifier
run c [] = c
run c ((i, now) ∷ os) = run (classify c i now) os
