-- ===== src/Forward.antt =====
-- internal/sms/store_forward.go: the queue of messages to forward, in the tables `forward_jobs`,
-- `forward_budget` and `forward_config` that internal/sms/store.go creates. Rows stand in the order of
-- their insertion, and times are Unix milliseconds. A call is one transaction or statement: `commits`
-- says whether the database takes it all, and a call that fails changes nothing. `valid` is what
-- `ValidForwardDestination` answers, which asks the phone number library.
pub mod Budget
pub mod Reserved
pub mod Retry
mod Tests
use Prim.Native.Nat.{Ordering}
use Prim.Native.String.{compare}
use modem_service.Prelude.{
  ℕ, ◌+◌, ◌*◌, String, Bool, true, false, not, ◌&&◌, ◌||◌, ◌==◌, ltb, leb, if◌then◌else◌, str_eq,
  Option, none, some, List, [], ◌∷◌, ◌++◌, map,
}

pub data State : Type 0 where
  queued sending sent unknown cancelled expired : State

pub record Job : Type 0 where
  pub id : String
  pub sender : String
  pub destination : String
  pub body : String
  pub segments : ℕ
  pub state : State
  pub created_at : ℕ
  pub expires_at : ℕ
  pub budget_day : String

-- `budget` is 0 on a day without a row.
pub record Store : Type 0 where
  pub jobs : List Job
  pub budget : String → ℕ
  pub destination : String
  pub activated_at : ℕ

unfoldable pub open_store : Store
open_store = record { jobs = []; budget = λ d. 0; destination = "off"; activated_at = 0 }

abbrev pub day_ms : ℕ
day_ms = 24 * 3600 * 1000

abbrev pub inbox_max_age : ℕ
inbox_max_age = 30 * day_ms

abbrev pub daily_segments : ℕ
daily_segments = 10

abbrev pub is_queued : State → Bool
is_queued queued = true
is_queued _ = false

abbrev pub is_sending : State → Bool
is_sending sending = true
is_sending _ = false

abbrev pub filter : (Job → Bool) → List Job → List Job
filter f [] = []
filter f (j ∷ js) = if f j then j ∷ filter f js else filter f js

-- `UPDATE forward_jobs SET state=... WHERE state=... AND ...` on one row.
abbrev pub move_if : Bool → State → Job → Job
move_if b s j = if b then record j { state = s } else j

unfoldable pub recover_job : Job → Job
recover_job j = move_if (is_sending j.state) unknown j

unfoldable pub cancel_job : String → Job → Job
cancel_job dest j = move_if (is_queued j.state && not (str_eq j.destination dest)) cancelled j

unfoldable pub cancel_sender_job : String → Job → Job
cancel_sender_job own j = move_if (is_queued j.state && str_eq j.sender own) cancelled j

unfoldable pub expire_job : ℕ → Job → Job
expire_job now j = move_if (is_queued j.state && leb j.expires_at now) expired j

unfoldable pub start_job : String → String → Job → Job
start_job i day j =
    if str_eq j.id i && is_queued j.state then record j { state = sending; budget_day = day } else j

unfoldable pub finish_job : String → Bool → Job → Job
finish_job i ok j = move_if (str_eq j.id i && is_sending j.state) (if ok then sent else unknown) j

unfoldable pub recover_forward : Bool → Store → Store
recover_forward commits s = if commits then record s { jobs = map recover_job s.jobs } else s

-- The store, and the time of activation, or `none` for an error. `second` is the clock cut to seconds.
unfoldable pub configure_forward : Bool → String → (second : ℕ) → Store → Store × Option ℕ
configure_forward commits dest second s =
    if not commits
    then (s, none)
    else let t : Store =
        if str_eq s.destination dest
        then s
        else record s { destination = dest; activated_at = second } in
      (record t { jobs = map (cancel_job dest) t.jobs }, some t.activated_at)

abbrev pub is_lt : Ordering → Bool
is_lt Ordering.lt = true
is_lt _ = false

-- `ORDER BY created_at,id`
unfoldable pub earlier : Job → Job → Bool
earlier j k =
    ltb j.created_at k.created_at || ((j.created_at == k.created_at) && is_lt (compare j.id k.id))

abbrev pub choose : Job → Option Job → Option Job
choose j none = some j
choose j (some k) = if earlier k j then some k else some j

unfoldable pub first_queued : List Job → Option Job
first_queued [] = none
first_queued (j ∷ js) =
    let rest = first_queued js in if is_queued j.state then choose j rest else rest

pub record Reservation : Type 0 where
  pub commits : Bool
  pub now : ℕ
  pub day : String
  pub valid : Bool
  pub destination : String
  pub own : String

-- The jobs after the first three statements of `ReserveForward`, and after the one on the own number.
unfoldable pub swept : Reservation → List Job → List Job
swept r js = map (cancel_job r.destination) (
    map (expire_job r.now)
      (filter (λ j. not (ltb (j.created_at + inbox_max_age) r.now) || is_sending j.state) js))

unfoldable pub candidates : Reservation → List Job → List Job
unfolding swept
candidates r js = if str_eq r.own "" then swept r js else map (cancel_sender_job r.own) (swept r js)

abbrev pub add_budget : (String → ℕ) → String → ℕ → String → ℕ
add_budget b day n d = if str_eq d day then b d + n else b d

-- The end of `ReserveForward`, from the job that it selects.
unfoldable pub reserve_job : Reservation → Store → Option Job → Store × Option Job
reserve_job r s none = (s, none)
reserve_job r s (some j) = if ltb daily_segments (s.budget r.day + j.segments) then (s, none) else (
  record s {
    jobs = map (start_job j.id r.day) s.jobs;
    budget = add_budget s.budget r.day j.segments;
  },
  some j,
)

unfoldable pub reserve_forward : Reservation → Store → Store × Option Job
reserve_forward r s =
    if not r.commits
    then (s, none)
    else if str_eq r.destination "off"
        || not r.valid
        || (not (str_eq r.own "") && str_eq r.own r.destination)
    then (record s { jobs = swept r s.jobs }, none)
    else let js = candidates r s.jobs in reserve_job r (record s { jobs = js }) (first_queued js)

unfoldable pub finish_forward : Bool → String → Bool → Store → Store
finish_forward commits i ok s =
    if commits then record s { jobs = map (finish_job i ok) s.jobs } else s

-- The rows of `forward_jobs` that store.go adds with a message, and removes with one.
unfoldable pub queue_forward : (i sender dest body : String) (segments now : ℕ) → Store → Store
queue_forward i sender dest body segments now s = record s {
  jobs =
      s.jobs
      ++ record {
        id = i;
        sender = sender;
        destination = dest;
        body = body;
        segments = segments;
        state = queued;
        created_at = now;
        expires_at = now + day_ms;
        budget_day = "";
      }
        ∷ [];
}

-- `kept` tells the ids of the inbox.
unfoldable pub drop_orphans : (String → Bool) → Store → Store
drop_orphans kept s = record s { jobs = filter (λ j. kept j.id || is_sending j.state) s.jobs }

unfoldable pub delete_job : String → Store → Store
delete_job i s = record s { jobs = filter (λ j. not (str_eq j.id i)) s.jobs }

-- What happens to the tables.
pub data Operation : Type 0 where
  reserves : Reservation → Operation
  finishes : (commits : Bool) (i : String) (ok : Bool) → Operation
  recovers : (commits : Bool) → Operation
  configures : (commits : Bool) (dest : String) (second : ℕ) → Operation
  queues : (i sender dest body : String) (segments now : ℕ) → Operation
  drops : (kept : String → Bool) → Operation
  removes : (i : String) → Operation

-- The store after an operation, and the job that it hands out to be sent.
unfoldable pub step : Operation → Store → Store × Option Job
step (reserves r) s = reserve_forward r s
step (finishes c i ok) s = (finish_forward c i ok s, none)
step (recovers c) s = (recover_forward c s, none)
step (configures c dest t) s = ((configure_forward c dest t s).0, none)
step (queues i sender dest body n t) s = (queue_forward i sender dest body n t s, none)
step (drops kept) s = (drop_orphans kept s, none)
step (removes i) s = (delete_job i s, none)
