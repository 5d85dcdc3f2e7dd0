-- ===== src/Link.antt =====
-- internal/modem/link/link.go: the layers, the checks of one snapshot, and the assessor. The
-- counters `flaps` and `escalation` are machine integers in the source; they grow by one a call.
pub mod Local
pub mod Liveness
mod Tests
use modem_service.Prelude.{
  ℕ, zero, suc, ◌+◌, String, Bool, true, false, not, ◌&&◌, ◌||◌, ltb, leb, if◌then◌else◌, str_eq,
  Option, none, some,
}

pub data Layer : Type 0 where
  hardware sim registration packet_service apn bearer netdev liveness : Layer

pub data Remedy : Type 0 where
  no_remedy reattach bearer_bounce modem_reset : Remedy

-- A message of the source, with the values that it prints.
pub data Reason : Type 0 where
  no_reason not_present port_unavailable : Reason
  power_state sim_locked bad_registration : String → Reason
  service_detached bearer_down bearer_suspended no_address context_inactive : Reason
  address_disagrees : String → String → Reason
  no_carrier no_route : String → Reason
  interface_disagrees : String → String → Reason
  flapping : ℕ → ℕ → Reason

pub record Snapshot : Type 0 where
  pub modem_present : Bool
  pub primary_port_known : Bool
  pub primary_port_ok : Bool
  pub power : String
  pub sim_lock : String
  pub registered : String
  pub service : String
  pub bearer_known : Bool
  pub bearer_connected : Bool
  pub bearer_connected_known : Bool
  pub suspended : Bool
  pub suspended_known : Bool
  pub interface : String
  pub bearer_ip_known : Bool
  pub bearer_ip : String
  pub session_known : Bool
  pub attempts : ℕ
  pub duration : ℕ
  pub at_checked : Bool
  pub cgact_active : Bool
  pub cgpaddr : String
  pub carrier_known : Bool
  pub carrier : Bool
  pub netdev_ip : String
  pub route_known : Bool
  pub has_route : Bool

pub record Assessment : Type 0 where
  pub healthy : Bool
  pub failed_layer : Layer
  pub reason : Reason
  pub remedy : Remedy
  pub want_at_check : Bool

-- `prev` is `none` until the first call (`havePrev`).
pub record Assessor : Type 0 where
  pub prev : Option Snapshot
  pub flaps : ℕ
  pub escalation : ℕ

unfoldable pub new : Assessor
new = record { prev = none; flaps = 0; escalation = 0 }

abbrev pub stable_session_seconds : ℕ
stable_session_seconds = 120

abbrev pub flaps_before_failing : ℕ
flaps_before_failing = 3

-- `livenessLadder[min(i, len(livenessLadder)-1)]`
abbrev pub ladder : ℕ → Remedy
ladder zero = bearer_bounce
ladder (suc i) = reattach

abbrev pub filled : String → Bool
filled s = not (str_eq s "")

abbrev pub fail : Layer → Remedy → Reason → Option Assessment
fail l r why =
    some (record {
      healthy = false;
      failed_layer = l;
      reason = why;
      remedy = r;
      want_at_check = false;
    })

-- The steps of `checkLocal`, from the last to the first.
unfoldable pub check_netdev : Snapshot → Option Assessment
check_netdev s =
    if s.carrier_known && not s.carrier
    then fail netdev bearer_bounce (no_carrier s.interface)
    else if s.route_known && not s.has_route
    then fail netdev bearer_bounce (no_route s.interface)
    else if s.bearer_ip_known && filled s.netdev_ip && not (str_eq s.netdev_ip s.bearer_ip)
    then fail netdev bearer_bounce (interface_disagrees s.netdev_ip s.bearer_ip)
    else none

unfoldable pub check_at : Snapshot → Option Assessment
unfolding check_netdev
check_at s =
    if s.at_checked
    then if not s.cgact_active
      then fail bearer bearer_bounce context_inactive
      else if s.bearer_ip_known && filled s.cgpaddr && not (str_eq s.cgpaddr s.bearer_ip)
      then fail bearer bearer_bounce (address_disagrees s.cgpaddr s.bearer_ip)
      else check_netdev s
    else check_netdev s

unfoldable pub check_bearer : Snapshot → Option Assessment
unfolding check_at
check_bearer s =
    if s.bearer_known && s.bearer_connected_known && not s.bearer_connected
    then fail bearer bearer_bounce bearer_down
    else if s.bearer_known && s.suspended_known && s.suspended
    then fail bearer bearer_bounce bearer_suspended
    else if s.bearer_known && s.bearer_connected && s.bearer_ip_known && str_eq s.bearer_ip ""
    then fail bearer bearer_bounce no_address
    else check_at s

unfoldable pub check_local : Snapshot → Option Assessment
unfolding check_bearer
check_local s =
    if not s.modem_present
    then fail hardware modem_reset not_present
    else if s.primary_port_known && not s.primary_port_ok
    then fail hardware modem_reset port_unavailable
    else if filled s.power && not (str_eq s.power "on")
    then fail hardware modem_reset (power_state s.power)
    else if filled s.sim_lock
        && not (str_eq s.sim_lock "sim-pin2")
        && not (str_eq s.sim_lock "sim-puk2")
    then fail sim no_remedy (sim_locked s.sim_lock)
    else if filled s.registered
        && not (str_eq s.registered "home")
        && not (str_eq s.registered "roaming")
    then fail registration no_remedy (bad_registration s.registered)
    else if str_eq s.service "detached"
    then fail packet_service reattach service_detached
    else check_bearer s

unfoldable pub session_flapped : Snapshot → Snapshot → Bool
session_flapped p c =
    if not p.session_known || not c.session_known
    then false
    else if leb c.attempts p.attempts
    then false
    else ltb c.duration stable_session_seconds

unfoldable pub suspicious : Snapshot → Bool
suspicious s =
    if s.bearer_known
      && ((s.bearer_connected_known && not s.bearer_connected)
          || (s.suspended_known && s.suspended))
    then true
    else if str_eq s.service "detached"
    then true
    else filled s.netdev_ip && filled s.bearer_ip && not (str_eq s.netdev_ip s.bearer_ip)

-- The counters after the part of `Assess` that compares the snapshot with the previous one.
unfoldable pub count_session : Assessor → Snapshot → Assessor
unfolding session_flapped
count_session a c = elim a.prev [
  | none ↦ a
  | some p ↦
      if session_flapped p c
      then record a { flaps = a.flaps + 1 }
      else if c.session_known && leb stable_session_seconds c.duration
      then record a { flaps = 0; escalation = 0 }
      else a
]

unfoldable pub conclude : Assessor → Snapshot → Assessment
unfolding suspicious
conclude a c =
    if leb flaps_before_failing a.flaps
    then record {
      healthy = false;
      failed_layer = liveness;
      reason = flapping flaps_before_failing c.duration;
      remedy = ladder a.escalation;
      want_at_check = true;
    }
    else record {
      healthy = true;
      failed_layer = hardware;
      reason = no_reason;
      remedy = no_remedy;
      want_at_check = suspicious c;
    }

unfoldable pub assess : Assessor → Snapshot → Assessor × Assessment
assess a c = elim (check_local c) [
  | some f ↦ (record a { prev = some c }, record f { want_at_check = suspicious c })
  | none ↦ let b = count_session a c in (record b { prev = some c }, conclude b c)
]

abbrev pub is_no_remedy : Remedy → Bool
is_no_remedy no_remedy = true
is_no_remedy _ = false

abbrev pub is_liveness : Layer → Bool
is_liveness liveness = true
is_liveness _ = false

unfoldable pub note_remedy_applied : Assessor → Layer → Remedy → Assessor
note_remedy_applied a l r =
    if is_no_remedy r || not (is_liveness l) then a else record a { escalation = a.escalation + 1 }
