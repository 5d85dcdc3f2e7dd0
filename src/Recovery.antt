-- ===== src/Recovery.antt =====
-- internal/service/service.go: the health check of the modem and the ladder of recovery steps. A
-- call takes what the modem, D-Bus, the locks and the context answer as records of Booleans, and
-- gives the new health and the trace of what it sets off, in order.
pub mod Ladder
pub mod Bounded
pub mod Exhausted
mod Tests
use modem_service.Prelude.{
  ℕ, ◌+◌, Bool, true, false, not, ◌&&◌, ◌||◌, if◌then◌else◌, Option, none, some, List, [], ◌∷◌,
  ◌++◌,
}
use modem_service.Health.{
  State, Health, start_recovery, mark_normal, finish_recovery_attempt, mark_recovery_failed,
  is_terminal, can_recover,
}

-- What `hasMissingSIM` reads: the SIM of `getModemInfo`, missing or not, if that succeeds, and
-- whether the network interface is there.
pub record SimView : Type 0 where
  pub missing : Option Bool
  pub interface_present : Bool

-- The answer, and the new value of `simMissing`.
unfoldable pub has_missing_sim : SimView → Bool → Bool × Bool
has_missing_sim v stored = elim v.missing [
  | some m ↦ (m, m)
  | none ↦ if v.interface_present then (stored, stored) else (false, false)
]

-- What the four checks of `probeHealthError` answer; `true` is no error.
pub record Probe : Type 0 where
  pub found : Bool
  pub port_ok : Bool
  pub power_ok : Bool
  pub ready : Bool
  pub sim : SimView

-- `true` where `probeHealthError` returns nil.
unfoldable pub probe_health : Probe → Bool → Bool
unfolding has_missing_sim
probe_health p stored =
    if not p.found
    then false
    else if not p.port_ok
    then false
    else if not p.power_ok
    then false
    else if p.ready
    then true
    else (has_missing_sim p.sim stored).0

pub data Fault : Type 0 where
  modem_unavailable recovery_failed : Fault

pub data Action : Type 0 where
  stabilization_wait dbus_reset usb_recovery rebind_wait gpio_restart extended_wait : Action

pub data Strategy : Type 0 where
  via_stabilization via_dbus_reset via_rebind via_usb via_gpio via_extended_wait : Strategy

pub data Event : Type 0 where
  acts : Action → Event
  publishes : State → Event
  raises : Fault → Event
  clears : Fault → Event
  apn_retry_reset gps_reset sms_watch_start : Event

pub data Result : Type 0 where
  recovered : Strategy → Result
  cancelled attempt_failed : Result

pub data UsbResult : Type 0 where
  usb_done usb_absent usb_failed : UsbResult

-- The answers that one attempt meets. `cancelled_*` is `ctx.Err() != nil` at the step, `probe_*`
-- the health probe after it, `wait_*` that `WaitForModem` returned nil.
pub record Attempt : Type 0 where
  pub cancelled_start : Bool
  pub stable : Bool
  pub wait_stable : Bool
  pub probe_stable : Bool
  pub found : Bool
  pub reset_ok : Bool
  pub cancelled_reset : Bool
  pub probe_reset : Bool
  pub cancelled_usb : Bool
  pub usb : UsbResult
  pub wait_usb : Bool
  pub probe_usb : Bool
  pub cancelled_gpio : Bool
  pub restart_ok : Bool
  pub wait_gpio : Bool
  pub probe_gpio : Bool
  pub cancelled_extended : Bool
  pub cancelled_sleep : Bool
  pub probe_extended : Bool

-- A part of `attemptRecovery`: what it does, and the result where it returns.
pub record Stage : Type 0 where
  pub actions : List Action
  pub result : Option Result

infixr 20 ◌⨾◌
abbrev pub ◌⨾◌ : Stage → Stage → Stage
a ⨾ b = elim a.result [
  | some r ↦ a
  | none ↦ record { actions = a.actions ++ b.actions; result = b.result }
]

abbrev pub check_cancelled : Bool → Stage
check_cancelled c = record { actions = []; result = if c then some cancelled else none }

abbrev pub tried : Action → Bool → Strategy → Stage
tried a ok s = record { actions = a ∷ []; result = if ok then some (recovered s) else none }

abbrev pub skipped : Stage
skipped = record { actions = []; result = none }

-- "Avoid restarting an external reset already in progress."
unfoldable pub stabilize : Attempt → Stage
stabilize e =
    if e.stable
    then skipped
    else tried stabilization_wait (e.wait_stable && e.probe_stable) via_stabilization

unfoldable pub reset_stage : Attempt → Stage
reset_stage e =
    if not e.found
    then skipped
    else if not e.reset_ok
    then tried dbus_reset false via_dbus_reset
    else if e.cancelled_reset
    then record { actions = dbus_reset ∷ []; result = some cancelled }
    else tried dbus_reset e.probe_reset via_dbus_reset

abbrev pub usb_case : UsbResult → Attempt → Stage
usb_case usb_done e = tried usb_recovery (e.wait_usb && e.probe_usb) via_usb
usb_case usb_failed e = tried usb_recovery false via_usb
usb_case usb_absent e = if not e.stable then tried usb_recovery false via_usb else record {
  actions = usb_recovery ∷ rebind_wait ∷ [];
  result = if e.wait_usb && e.probe_usb then some (recovered via_rebind) else none;
}

unfoldable pub usb_stage : Attempt → Stage
usb_stage e = usb_case e.usb e

unfoldable pub gpio_stage : Attempt → Stage
gpio_stage e = tried gpio_restart (e.restart_ok && e.wait_gpio && e.probe_gpio) via_gpio

unfoldable pub extended_stage : Attempt → Stage
extended_stage e = record {
  actions = extended_wait ∷ [];
  result =
      if e.cancelled_sleep
      then some cancelled
      else if e.probe_extended
      then some (recovered via_extended_wait)
      else some attempt_failed;
}

-- The steps behind the first check of the context.
unfoldable pub ladder : Attempt → Stage
ladder e =
    stabilize e
    ⨾ reset_stage e
    ⨾ check_cancelled e.cancelled_usb
    ⨾ usb_stage e
    ⨾ check_cancelled e.cancelled_gpio
    ⨾ gpio_stage e
    ⨾ check_cancelled e.cancelled_extended
    ⨾ extended_stage e

-- A call's new health, its trace, and its result.
pub record Done (R : Type 0) : Type 0 where
  pub health : Health
  pub trace : List Event
  pub result : R

abbrev pub act_all : List Action → List Event
act_all [] = []
act_all (a ∷ l) = acts a ∷ act_all l

-- `recoverySucceeded`, for the health and the trace.
unfoldable pub recovery_succeeded : Health → List Event × Health
recovery_succeeded h =
    let n = mark_normal h in
    (
      apn_retry_reset
          ∷ gps_reset
          ∷ publishes n.state
          ∷ clears modem_unavailable
          ∷ clears recovery_failed
          ∷ sms_watch_start
          ∷ [],
      n,
    )

-- The end of `attemptRecovery`: the success of a step, and the deferred function.
unfoldable pub conclude : Health → List Event → Option Result → Done Result
unfolding recovery_succeeded finish_recovery_attempt
conclude h done (some (recovered s)) =
    let (more, n) = recovery_succeeded h in
    record { health = n; trace = done ++ more; result = recovered s }
conclude h done (some cancelled) =
    let n = (finish_recovery_attempt h).0 in
    record { health = n; trace = done ++ publishes n.state ∷ []; result = cancelled }
conclude h done _ =
    let n = (finish_recovery_attempt h).0 in
    record { health = n; trace = done ++ publishes n.state ∷ []; result = attempt_failed }

unfoldable pub attempt_recovery : ℕ → Attempt → Health → Done Result
unfolding conclude start_recovery
attempt_recovery now e h =
    if e.cancelled_start
    then record { health = h; trace = []; result = cancelled }
    else let r = start_recovery now h in
      let stage = ladder e in conclude r (publishes r.state ∷ act_all stage.actions) stage.result

-- The answers that `handleModemFailure` meets.
pub record Failure : Type 0 where
  pub cancelled_before : Bool
  pub lock_free : Bool
  pub enabled : Bool
  pub backoff_cancelled : Bool
  pub attempt : Attempt

pub data Answer : Type 0 where
  healthy in_terminal_state not_run in_progress modem_disabled backed_off backoff_aborted : Answer
  attempted : Result → Answer

abbrev pub as_answer : List Event → Done Result → Done Answer
as_answer l d = record { health = d.health; trace = l ++ d.trace; result = attempted d.result }

abbrev pub behind : List Event → Done Answer → Done Answer
behind l d = record d { trace = l ++ d.trace }

-- The branch of exhausted attempts, with `completeRecoveryBackoff`.
unfoldable pub back_off : Bool → Health → Done Answer
back_off aborted h =
    let f = mark_recovery_failed h in
    let n = mark_normal f in
    record {
      health = n;
      trace = publishes f.state ∷ raises recovery_failed ∷ publishes n.state ∷ [];
      result = if aborted then backoff_aborted else backed_off;
    }

unfoldable pub handle_modem_failure : ℕ → Failure → Health → Done Answer
handle_modem_failure now e h =
    if e.cancelled_before
    then record { health = h; trace = []; result = not_run }
    else let raised = raises modem_unavailable ∷ [] in
      if not e.lock_free
      then record { health = h; trace = raised; result = in_progress }
      else if not e.enabled
      then record { health = h; trace = raised; result = modem_disabled }
      else if not (can_recover h)
      then behind raised (back_off e.backoff_cancelled h)
      else as_answer raised (attempt_recovery now e.attempt h)

-- `simMissing` after `probeHealthError`, which reads the SIM only where it gets that far.
unfoldable pub stored_after : Probe → Bool → Bool
stored_after p stored =
    if p.found && p.port_ok && p.power_ok && not p.ready
    then (has_missing_sim p.sim stored).1
    else stored

pub record Check : Type 0 where
  pub cancelled_check : Bool
  pub probe : Probe
  pub sim_again : SimView
  pub failure : Failure

-- `checkHealth`, on the stored `simMissing` and the health.
unfoldable pub check_health : ℕ → Check → Bool → Health → Done Answer × Bool
check_health now c stored h =
    if c.cancelled_check
    then (record { health = h; trace = []; result = not_run }, stored)
    else let known = stored_after c.probe stored in
      if not (probe_health c.probe stored)
      then if is_terminal h
        then (record { health = h; trace = []; result = in_terminal_state }, known)
        else (handle_modem_failure now c.failure h, known)
      else let (missing, kept) = has_missing_sim c.sim_again known in
        let n = mark_normal h in
        (
          record {
            health = n;
            trace = if missing then [] else clears modem_unavailable ∷ clears recovery_failed ∷ [];
            result = healthy;
          },
          kept,
        )
