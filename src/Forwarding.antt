-- ===== src/Forwarding.antt =====
-- internal/service/sms_forward.go: one round of the loop that forwards messages, which takes a job from
-- the queue (`Forward`) and sends it (`Sms`). What the contexts, D-Bus and the database answer is
-- given; the projection of the inbox and the records of results for Redis are left out.
pub mod Once
pub mod Sent
mod Tests
use modem_service.Prelude.{
  ℕ, ◌+◌, String, Bool, true, false, not, ◌||◌, ◌==◌, if◌then◌else◌, str_eq, Option, none, some,
  List, [], ◌∷◌,
}
use modem_service.Forward.{Store, Job, Reservation, reserve_forward, finish_forward}
use modem_service.Sms
use modem_service.Sms.{Event, send}

abbrev pub registration_home : ℕ
registration_home = 1

-- `registration` is `none` if it cannot be read as a number; `ended` and `ended_later` are the context
-- before the round and after the reservation; `created`, `sent` and `deleted` are the answers to
-- `Send`.
pub record Round : Type 0 where
  pub ended : Bool
  pub enabled : Bool
  pub sim_present : Bool
  pub destination : String
  pub modem : Option String
  pub registration : Option ℕ
  pub reserve_commits : Bool
  pub now : ℕ
  pub day : String
  pub valid : Bool
  pub own : String
  pub ended_later : Bool
  pub created : Option String
  pub sent : Bool
  pub deleted : Bool
  pub finish_commits : Bool

-- The queue afterwards, the calls for messages, and the job that was taken.
pub record Forwarded : Type 0 where
  pub store : Store
  pub events : List Event
  pub job : Option Job

abbrev pub reservation : Round → Reservation
reservation e = record {
  commits = e.reserve_commits;
  now = e.now;
  day = e.day;
  valid = e.valid;
  destination = e.destination;
  own = e.own;
}

abbrev pub idle : Store → Forwarded
idle s = record { store = s; events = []; job = none }

abbrev pub is_ok : Sms.Outcome → Bool
is_ok Sms.ok = true
is_ok Sms.error = false
is_ok Sms.no_modem = false

abbrev pub request_of : Job → Sms.Request
request_of j = record { to = j.destination; text = j.body }

unfoldable pub send_job : Round → String → Job → Store → Forwarded
send_job e path j s =
    if e.ended_later
    then record { store = finish_forward e.finish_commits j.id false s; events = []; job = some j }
    else let r = send path (request_of j) e.created e.sent e.deleted in
      record {
        store = finish_forward e.finish_commits j.id (is_ok r.0) s;
        events = r.1;
        job = some j;
      }

unfoldable pub forward_reserved : Round → String → Store × Option Job → Forwarded
forward_reserved e path (s, none) = idle s
forward_reserved e path (s, some j) = send_job e path j s

unfoldable pub forward_registered : Round → String → Option ℕ → Store → Forwarded
forward_registered e path none s = idle s
forward_registered e path (some n) s =
    if n == registration_home
    then forward_reserved e path (reserve_forward (reservation e) s)
    else idle s

unfoldable pub forward_found : Round → Option String → Store → Forwarded
forward_found e none s = idle s
forward_found e (some path) s = forward_registered e path e.registration s

unfoldable pub forward_one : Round → Store → Forwarded
forward_one e s =
    if e.ended || not e.enabled || not e.sim_present
    then idle s
    else if str_eq e.destination "" || str_eq e.destination "off"
    then idle s
    else forward_found e e.modem s
