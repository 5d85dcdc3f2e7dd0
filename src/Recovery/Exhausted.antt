-- ===== src/Recovery/Exhausted.antt =====
-- What follows attempts that all fail (internal/service/service.go).
use modem_service.Prelude.{
  ℕ, ◌+◌, ◌≤◌, ◌<◌, ◌≡◌, refl, true, false, arith, Option, some, List, [], ◌∷◌, length, All,
}
use modem_service.Health.{
  Health, normal, recovering, failed_wait, start_recovery, mark_normal, mark_recovery_failed,
  can_recover, max_recovery_attempts, new,
}
use modem_service.Recovery.{
  Event, publishes, raises, modem_unavailable, recovery_failed, act_all, Result, attempt_failed,
  ladder, conclude, Failure, back_off, handle_modem_failure,
}
use modem_service.Recovery.Ladder.{attempt_started}
use modem_service.Recovery.Bounded.{failures}

-- An attempt is started and does not recover the modem.
abbrev pub Unrecovered : Failure → Type 0
Unrecovered f =
    (f.cancelled_before ≡ false)
    × (f.lock_free ≡ true)
    × (f.enabled ≡ true)
    × (f.attempt.cancelled_start ≡ false)
    × ((ladder f.attempt).result ≡ some attempt_failed)

conclude_failed :
    (now : ℕ) (h : Health) (done : List Event) (o : Option Result)
    → o ≡ some attempt_failed
    → (conclude (start_recovery now h) done o).health.attempts ≡ h.attempts + 1
unfolding conclude start_recovery
conclude_failed now h done o e = rw e refl

Unrecovered-counts :
    (now : ℕ) (f : Failure) (h : Health)
    → h.attempts < max_recovery_attempts
    → Unrecovered f
    → (handle_modem_failure now f h).health.attempts ≡ h.attempts + 1
unfolding handle_modem_failure can_recover
Unrecovered-counts now f h k u = ground (
  arith,
  attempt_started now f.attempt h u.3,
  conclude_failed now h (publishes recovering ∷ act_all (ladder f.attempt).actions)
      (ladder f.attempt).result u.4,
)

Unrecovered-All :
    (fs : List (ℕ × Failure)) (h : Health)
    → h.attempts + length fs ≤ max_recovery_attempts
    → All (λ x. Unrecovered x.1) fs
    → (failures fs h).1.attempts ≡ h.attempts + length fs
unfolding failures
Unrecovered-All [] h k u = omega arith
Unrecovered-All ((now, f) ∷ fs) h k u =
    let e = Unrecovered-counts now f h (omega arith) u.0 in
    omega (arith, e, Unrecovered-All fs (handle_modem_failure now f h).health (omega arith) u.1)

-- After five attempts in a row of a fresh service that do not recover the modem, the next
-- failure, if it finds the lock free and the modem enabled, starts no attempt: it raises both
-- faults, publishes the waiting state, backs off, and leaves a normal health with the count
-- cleared, also if the backoff is cancelled.
pub five_failures_back_off :
    (fs : List (ℕ × Failure)) (now : ℕ) (f : Failure)
    → length fs ≡ 5
    → All (λ x. Unrecovered x.1) fs
    → f.cancelled_before ≡ false
    → f.lock_free ≡ true
    → f.enabled ≡ true
    → let d = handle_modem_failure now f (failures fs new).1 in
      (d.trace
        ≡ raises modem_unavailable
          ∷ publishes failed_wait
          ∷ raises recovery_failed
          ∷ publishes normal
          ∷ [])
      × (d.health.attempts ≡ 0)
      × (d.health.state ≡ normal)
unfolding handle_modem_failure can_recover back_off mark_recovery_failed mark_normal new
five_failures_back_off fs now f n u c l e =
    let k = Unrecovered-All fs new (omega arith) u in ground arith
