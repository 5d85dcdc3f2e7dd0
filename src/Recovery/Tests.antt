-- ===== src/Recovery/Tests.antt =====
-- Recovery on fixed answers (internal/service/service.go).
use modem_service.Prelude.{ℕ, ◌+◌, ◌*◌, ◌≤◌, ◌≡◌, List, [], ◌∷◌, true, false}
use modem_service.Health.{
  normal, recovering, failed_wait, permanent_failure, max_recovery_attempts, new,
}
use modem_service.Recovery.{Attempt, Failure, usb_failed, ladder}
use modem_service.Recovery.Ladder.{Climbs, ladder-Climbs}
use modem_service.Recovery.Bounded.{published, successes, failures, attempts_bounded}

-- Every step fails.
abbrev hopeless : Attempt
hopeless = record {
  cancelled_start = false;
  stable = true;
  wait_stable = false;
  probe_stable = false;
  found = true;
  reset_ok = true;
  cancelled_reset = false;
  probe_reset = false;
  cancelled_usb = false;
  usb = usb_failed;
  wait_usb = false;
  probe_usb = false;
  cancelled_gpio = false;
  restart_ok = true;
  wait_gpio = true;
  probe_gpio = false;
  cancelled_extended = false;
  cancelled_sleep = false;
  probe_extended = false;
}

abbrev failure : Failure
failure = record {
  cancelled_before = false;
  lock_free = true;
  enabled = true;
  backoff_cancelled = false;
  attempt = hopeless;
}

abbrev five : List (ℕ × Failure)
five = (1, failure) ∷ (2, failure) ∷ (3, failure) ∷ (4, failure) ∷ (5, failure) ∷ []

ladder-Climbs_example : Climbs 0 (ladder hopeless).actions
ladder-Climbs_example = ladder-Climbs hopeless

attempts_bounded_example :
    let (trace, h) = failures five new in
    (published recovering trace
      ≤ max_recovery_attempts * (1 + published failed_wait trace + successes trace))
    × (published permanent_failure trace ≡ 0)
    × (h.state ≡ normal)
    × (h.attempts ≤ max_recovery_attempts)
attempts_bounded_example = attempts_bounded five
