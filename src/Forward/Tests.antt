-- ===== src/Forward/Tests.antt =====
-- The queue at fixed operations (internal/sms/store_forward.go).
use modem_service.Prelude.{◌+◌, ◌≤◌, ◌<◌, ◌≡◌, refl, ◌⊎◌, List, [], ◌∷◌, true, false, str_eq}
use modem_service.Forward.{
  Job, Store, queued, Reservation, Operation, reserves, finishes, recovers, queues, reserve_forward,
  reserve_job, candidates, swept, first_queued, cancel_job, expire_job, daily_segments,
  inbox_max_age, open_store, is_queued,
}
use modem_service.Forward.Budget.{total, budget_kept}
use modem_service.Forward.Reserved.{reserve_forward_eligible}
use modem_service.Forward.Retry.{handed, reserved_once}

abbrev job : Job
job = record {
  id = "a1";
  sender = "+491";
  destination = "+499";
  body = "hello";
  segments = 4;
  state = queued;
  created_at = 1000;
  expires_at = 90000;
  budget_day = "";
}

abbrev store : Store
store = record { jobs = job ∷ []; budget = λ d. 3; destination = "+499"; activated_at = 0 }

abbrev reservation : Reservation
reservation = record {
  commits = true;
  now = 2000;
  day = "2026-01-01";
  valid = true;
  destination = "+499";
  own = "";
}

abbrev later : List Operation
later = recovers true ∷ queues "b2" "+492" "+499" "again" 2 3000 ∷ reserves reservation ∷ []

budget_kept_example :
    total "2026-01-01"
      (queues "a1" "+491" "+499" "x" 6 1000
        ∷ queues "b2" "+491" "+499" "y" 6 1001
        ∷ reserves reservation
        ∷ finishes true "a1" false
        ∷ reserves reservation
        ∷ [])
      open_store
    ≤ daily_segments
budget_kept_example = budget_kept "2026-01-01" (
    queues "a1" "+491" "+499" "x" 6 1000
    ∷ queues "b2" "+491" "+499" "y" 6 1001
    ∷ reserves reservation
    ∷ finishes true "a1" false
    ∷ reserves reservation
    ∷ [])

reserve_forward_eligible_example :
    (is_queued job.state ≡ true)
    × (job.destination ≡ reservation.destination)
    × (str_eq reservation.destination "off" ≡ false)
    × (reservation.valid ≡ true)
    × ((str_eq "" "" ≡ true) ⊎ (str_eq "" reservation.destination ≡ false))
    × ((str_eq "" "" ≡ true) ⊎ (str_eq job.sender "" ≡ false))
    × (reservation.now < job.expires_at)
    × (reservation.now ≤ job.created_at + inbox_max_age)
    × (3 + job.segments ≤ daily_segments)
unfolding reserve_forward reserve_job candidates swept first_queued cancel_job expire_job
reserve_forward_eligible_example = reserve_forward_eligible reservation store job refl

reserved_once_example : handed "a1" later (reserve_forward reservation store).0 ≡ 0
unfolding reserve_forward reserve_job candidates swept first_queued cancel_job expire_job
reserved_once_example = reserved_once reservation store job later refl (tt, (refl, (tt, tt)))
