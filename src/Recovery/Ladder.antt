-- ===== src/Recovery/Ladder.antt =====
-- One attempt: the order of the steps, and how it ends (internal/service/service.go).
use modem_service.Prelude.{
  ℕ, ◌+◌, ◌≤◌, ◌≡◌, refl, true, false, arith, Option, some, none, List, [], ◌∷◌,
}
use modem_service.Health.{Health, normal, recovering, start_recovery, mark_normal}
use modem_service.Recovery.{
  Action, stabilization_wait, dbus_reset, usb_recovery, rebind_wait, gpio_restart, extended_wait,
  act_all, publishes, Event, Result, recovered, cancelled, attempt_failed, Attempt, stabilize,
  reset_stage, usb_stage, gpio_stage, extended_stage, ladder, attempt_recovery, conclude,
}

-- How far a step reaches into the hardware.
abbrev pub rung : Action → ℕ
rung stabilization_wait = 0
rung dbus_reset = 1
rung usb_recovery = 2
rung rebind_wait = 3
rung gpio_restart = 4
rung extended_wait = 5

abbrev pub Climbs : ℕ → List Action → Type 0
Climbs n [] = Unit
Climbs n (a ∷ l) = (n ≤ rung a) × Climbs (rung a + 1) l

-- The steps of an attempt are taken in the order of the ladder, each at most once, whatever fails.
pub ladder-Climbs : (e : Attempt) → Climbs 0 (ladder e).actions
unfolding ladder stabilize reset_stage usb_stage gpio_stage extended_stage
ladder-Climbs e = ground arith

-- How a result leaves the count of attempts that the start of the attempt set.
abbrev pub count_after : Result → ℕ → ℕ
count_after (recovered s) n = 0
count_after cancelled n = n
count_after attempt_failed n = n

conclude_lem :
    (now : ℕ) (h : Health) (done : List Event) (o : Option Result)
    → let d = conclude (start_recovery now h) done o in
      (d.health.state ≡ normal) × (d.health.attempts ≡ count_after d.result (h.attempts + 1))
unfolding conclude start_recovery mark_normal
conclude_lem now h done none = (refl, refl)
conclude_lem now h done (some (recovered s)) = (refl, refl)
conclude_lem now h done (some cancelled) = (refl, refl)
conclude_lem now h done (some attempt_failed) = (refl, refl)

pub attempt_started :
    (now : ℕ) (e : Attempt) (h : Health)
    → e.cancelled_start ≡ false
    → attempt_recovery now e h
      ≡ conclude
          (start_recovery now h)
          (publishes recovering ∷ act_all (ladder e).actions)
          (ladder e).result
unfolding attempt_recovery start_recovery
attempt_started now e h k = ground arith

pub attempt_not_started :
    (now : ℕ) (e : Attempt) (h : Health)
    → e.cancelled_start ≡ true
    → attempt_recovery now e h ≡ record { health = h; trace = []; result = cancelled }
unfolding attempt_recovery
attempt_not_started now e h k = ground arith

-- An attempt that is not cancelled before it starts leaves the health normal. It counts as one
-- attempt more, also if it is cancelled, unless it recovers the modem: that clears the count.
pub attempt_recovery-health :
    (now : ℕ) (e : Attempt) (h : Health)
    → e.cancelled_start ≡ false
    → let d = attempt_recovery now e h in
      (d.health.state ≡ normal) × (d.health.attempts ≡ count_after d.result (h.attempts + 1))
attempt_recovery-health now e h k =
    rw (attempt_started now e h k)
      (conclude_lem now h (publishes recovering ∷ act_all (ladder e).actions) (ladder e).result)
