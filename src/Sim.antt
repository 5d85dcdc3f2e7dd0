-- ===== src/Sim.antt =====
-- internal/sim/manager.go: the PIN manager. `Answer` is the class of what a D-Bus call returns, as
-- `mm.IsPukRequiredError` and `mm.IsWrongPinError` tell errors apart; the manager's calls are its
-- trace, and its log lines are left out.
pub mod Safety
mod Tests
use modem_service.Prelude.{
  ℕ, String, Bool, true, false, not, ◌&&◌, ◌||◌, ◌==◌, ltb, if◌then◌else◌, str_eq, Option, none,
  some, List, [], ◌∷◌,
}

pub data Outcome : Type 0 where
  unconfigured ok unlocked lock_enabled wrong_pin low_retries_bail puk_required error : Outcome

abbrev pub min_retries_before_attempt : ℕ
min_retries_before_attempt = 3

pub record Input : Type 0 where
  pub sim_path : String
  pub lock_status : String
  pub lock_status_known : Bool
  pub pin_lock_enabled : Bool
  pub pin_lock_known : Bool
  pub unlock_retries : ℕ
  pub configured_pin : String

pub record Observation : Type 0 where
  pub lock_status : String
  pub lock_status_known : Bool
  pub pin_configured : Bool
  pub pin_lock_enabled : Bool
  pub pin_lock_known : Bool
  pub unlock_retries : ℕ

-- `lastObservation` is `none` while `hasLastObservation` is false.
pub record Manager : Type 0 where
  pub tried_this_run : Bool
  pub last_observation : Option Observation

unfoldable pub new : Manager
new = record { tried_this_run = false; last_observation = none }

pub data Call : Type 0 where
  send_pin enable_pin : (path pin : String) → Call

pub data Answer : Type 0 where
  accepted needs_puk wrong other_error : Answer

pub record Done : Type 0 where
  pub manager : Manager
  pub outcome : Outcome
  pub calls : List Call

abbrev pub quiet : Manager → Outcome → Done
quiet m o = record { manager = m; outcome = o; calls = [] }

-- What both actions do with the answer to their call.
abbrev pub settle : Manager → Call → Outcome → Answer → Done
settle m c done accepted = record { manager = m; outcome = done; calls = c ∷ [] }
settle m c done needs_puk = record { manager = m; outcome = puk_required; calls = c ∷ [] }
settle m c done wrong = record {
  manager = record m { tried_this_run = true };
  outcome = wrong_pin;
  calls = c ∷ [];
}
settle m c done other_error = record { manager = m; outcome = error; calls = c ∷ [] }

unfoldable pub act_unlock : Input → Answer → Manager → Done
act_unlock i a m =
    if str_eq i.sim_path ""
    then quiet m error
    else if m.tried_this_run
    then quiet m wrong_pin
    else if ltb i.unlock_retries min_retries_before_attempt
    then quiet m low_retries_bail
    else settle m (send_pin i.sim_path i.configured_pin) unlocked a

unfoldable pub act_enable_lock : Input → Answer → Manager → Done
act_enable_lock i a m =
    if str_eq i.sim_path ""
    then quiet m error
    else if m.tried_this_run
    then quiet m wrong_pin
    else if ltb i.unlock_retries min_retries_before_attempt
    then quiet m low_retries_bail
    else settle m (enable_pin i.sim_path i.configured_pin) lock_enabled a

abbrev pub bool_eq : Bool → Bool → Bool
bool_eq true b = b
bool_eq false b = not b

unfoldable pub same_observation : Option Observation → Observation → Bool
same_observation none o = false
same_observation (some p) o =
    str_eq p.lock_status o.lock_status
    && bool_eq p.lock_status_known o.lock_status_known
    && bool_eq p.pin_configured o.pin_configured
    && bool_eq p.pin_lock_enabled o.pin_lock_enabled
    && bool_eq p.pin_lock_known o.pin_lock_known
    && (p.unlock_retries == o.unlock_retries)

abbrev pub observation_of : Input → Observation
observation_of i = record {
  lock_status = i.lock_status;
  lock_status_known = i.lock_status_known;
  pin_configured = not (str_eq i.configured_pin "");
  pin_lock_enabled = i.pin_lock_enabled;
  pin_lock_known = i.pin_lock_known;
  unlock_retries = i.unlock_retries;
}

-- `logObservation`: the manager, and whether the observation changed.
unfoldable pub log_observation : Input → Manager → Manager × Bool
unfolding same_observation
log_observation i m =
    if same_observation m.last_observation (observation_of i)
    then (m, false)
    else (record m { last_observation = some (observation_of i) }, true)

-- `Reconcile`; `a` is the answer to its call, if it makes one.
unfoldable pub reconcile : Input → Answer → Manager → Done
reconcile i a m =
    let n = (log_observation i m).0 in
    if str_eq i.configured_pin ""
    then quiet n unconfigured
    else if str_eq i.lock_status "sim-puk" || str_eq i.lock_status "sim-puk2"
    then quiet n puk_required
    else if str_eq i.lock_status "sim-pin2"
    then quiet n ok
    else if str_eq i.lock_status "sim-pin"
    then act_unlock i a n
    else if str_eq i.lock_status ""
    then if not i.lock_status_known || not i.pin_lock_known
      then quiet n error
      else if i.pin_lock_enabled
      then quiet n ok
      else act_enable_lock i a n
    else quiet n ok
