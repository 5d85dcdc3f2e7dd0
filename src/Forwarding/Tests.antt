-- ===== src/Forwarding/Tests.antt =====
-- The theorems on forwarding at concrete inputs (internal/service/sms_forward.go).
use modem_service.Prelude.{true, false, ◌≡◌, ◌⊎◌, refl, some, List, [], ◌∷◌}
use modem_service.Forward.{
  Store, Job, queued, reserve_forward, reserve_job, first_queued, earlier, candidates, swept,
  cancel_job, expire_job, recovers,
}
use modem_service.Forwarding.{
  Round, forward_one, forward_found, forward_registered, forward_reserved, send_job,
}
use modem_service.Forwarding.Once.{Step, rounds, changes, taken, forwarded_at_most_once}
use modem_service.Forwarding.Sent.{Sends, forward_one-Sends}

abbrev round : Round
round = record {
  ended = false;
  enabled = true;
  sim_present = true;
  destination = "+493";
  modem = some "/Modem/0";
  registration = some 1;
  reserve_commits = true;
  now = 10;
  day = "2025-01-01";
  valid = true;
  own = "";
  ended_later = false;
  created = some "/SMS/7";
  sent = false;
  deleted = true;
  finish_commits = false;
}

abbrev job : Job
job = record {
  id = "a";
  sender = "+491";
  destination = "+493";
  body = "hello";
  segments = 1;
  state = queued;
  created_at = 5;
  expires_at = 1000;
  budget_day = "";
}

abbrev store : Store
store = record { jobs = job ∷ []; budget = λ d. 0; destination = "+493"; activated_at = 0 }

forward_one-Sends_example :
    ((forward_one round store).events ≡ []) ⊎ Sends round store (forward_one round store)
forward_one-Sends_example = forward_one-Sends round store

abbrev later : List Step
later = rounds round ∷ changes (recovers true) ∷ rounds round ∷ []

forwarded_at_most_once_example : taken "a" later (forward_one round store).store ≡ 0
unfolding forward_one forward_found forward_registered forward_reserved send_job reserve_forward
    reserve_job first_queued earlier candidates swept cancel_job expire_job
forwarded_at_most_once_example =
    forwarded_at_most_once round store job later refl (tt, (tt, (tt, tt)))
