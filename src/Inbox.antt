-- ===== src/Inbox.antt =====
-- internal/sms/store.go: the inbox, in the tables `inbox` and `pending_modem`, with the jobs of
-- `forward_jobs` (`Forward`). The rows stand in the order that the queries ask for, by the time of
-- their receipt and then by their insertion, the newest first; a row that is inserted goes before
-- those of its own time. Times are Unix milliseconds. What a call finds outside is an argument: whether
-- the database takes the transaction (one that fails changes nothing), the random id, the clock, the
-- parsed timestamp of the sender, and the digest of the message. Opening the file is left out.
pub mod Text
pub mod Kept
pub mod Known
pub mod Segments
mod Tests
use modem_service.Prelude.{
  ℕ, ◌+◌, String, Bool, true, false, not, ◌&&◌, ◌||◌, ◌==◌, ltb, leb, if◌then◌else◌, str_eq, Option,
  none, some, List, [], ◌∷◌, map, take,
}
use modem_service.Forward
use modem_service.Forward.{
  queue_forward, drop_orphans, delete_job, open_store, day_ms, inbox_max_age,
}
use modem_service.Inbox.Text.{Incoming, forward_text}

abbrev pub inbox_limit : ℕ
inbox_limit = 100

pub record Row : Type 0 where
  pub id : String
  pub sender : String
  pub body : String
  pub timestamp : String
  pub received_at : ℕ
  pub is_read : Bool

-- A row of `pending_modem`: the digest, and the id of the entry.
pub record Copy : Type 0 where
  pub fingerprint : String
  pub entry_id : String

pub record Inbox : Type 0 where
  pub rows : List Row
  pub pending : String → Option Copy
  pub queue : Forward.Store

unfoldable pub open_inbox : Inbox
open_inbox = record { rows = []; pending = λ p. none; queue = open_store }

-- `sms.Message`, with its timestamp as RFC 3339 writes it.
pub record Message : Type 0 where
  pub number : String
  pub text : String
  pub timestamp : String
  pub source_path : String
  pub source_timestamp : String

-- `reads` is whether the copy of the modem can be looked up.
pub record Call : Type 0 where
  pub reads : Bool
  pub commits : Bool
  pub now : ℕ
  pub random : Option String
  pub source_time : Option ℕ
  pub valid : Bool
  pub digest : String → String → String → String

unfoldable pub fingerprint_of : Call → Message → String
fingerprint_of c m = c.digest m.number m.text m.source_timestamp

unfoldable pub has_id : String → List Row → Bool
has_id i [] = false
has_id i (r ∷ rs) = str_eq r.id i || has_id i rs

unfoldable pub has_job : String → List Forward.Job → Bool
has_job i [] = false
has_job i (j ∷ js) = str_eq j.id i || has_job i js

unfoldable pub insert_row : Row → List Row → List Row
insert_row r [] = r ∷ []
insert_row r (x ∷ xs) =
    let rest = insert_row r xs in if leb x.received_at r.received_at then r ∷ x ∷ xs else x ∷ rest

abbrev pub is_old : ℕ → Row → Bool
is_old now r = ltb (r.received_at + inbox_max_age) now

-- `DELETE FROM inbox WHERE received_at < ?`
unfoldable pub drop_old : ℕ → List Row → List Row
drop_old now [] = []
drop_old now (r ∷ rs) = let rest = drop_old now rs in if is_old now r then rest else r ∷ rest

unfoldable pub entry_of : Call → Message → String → Row
entry_of c m i = record {
  id = i;
  sender = m.number;
  body = m.text;
  timestamp = m.timestamp;
  received_at = c.now;
  is_read = false;
}

-- The copy that is known under the message's path, if it is the message's.
unfoldable pub known : Call → Message → Inbox → Option String
known c m s = if str_eq m.source_path "" then none else elim (s.pending m.source_path) [
  | none ↦ none
  | some x ↦ if str_eq x.fingerprint (fingerprint_of c m) then some x.entry_id else none
]

abbrev pub remember : String → Copy → (String → Option Copy) → String → Option Copy
remember path x pending q = if not (str_eq path "") && str_eq q path then some x else pending q

-- Messages from before the activation are not forwarded.
unfoldable pub eligible : Call → ℕ → Bool
eligible c activated_at =
    (activated_at == 0) || elim c.source_time [ none ↦ false | some t ↦ leb activated_at t ]

abbrev pub incoming : Message → Incoming
incoming m = record { number = m.number; text = m.text; timestamp = m.timestamp }

-- The row of `forward_jobs`; `none` where its id is taken.
unfoldable pub queue_job :
    Call
    → Message
    → String
    → Bool
    → Option (String × ℕ)
    → String
    → Forward.Store
    → Option Forward.Store
queue_job c m destination is_eligible none i q = some q
queue_job c m destination is_eligible (some (body, segments)) i q =
    if not is_eligible
    then some q
    else if has_job i q.jobs
    then none
    else some (queue_forward i m.number destination body segments c.now q)

-- The two deletions at the end.
unfoldable pub trimmed : ℕ → List Row → List Row
trimmed now rows = drop_old now (take inbox_limit rows)

unfoldable pub stored : Call → Message → String → Inbox → Forward.Store → Inbox
stored c m i s q =
    let rows = trimmed c.now (insert_row (entry_of c m i) s.rows) in
    record {
      rows = rows;
      pending =
          remember m.source_path (record { fingerprint = fingerprint_of c m; entry_id = i })
            s.pending;
      queue = drop_orphans (λ j. has_id j rows) q;
    }

-- From the random id on.
unfoldable pub record_new :
    Call → Message → String → ℕ → String → Inbox → Inbox × Option (Row × Bool)
record_new c m destination activated_at i s =
    if has_id i s.rows
    then (s, none)
    else elim (queue_job c m destination (eligible c activated_at)
        (forward_text c.valid (incoming m) destination) i s.queue) [
          | none ↦ (s, none)
          | some q ↦
              if c.commits then (stored c m i s q, some (entry_of c m i, true)) else (s, none)
        ]

-- From the copy that is known on.
unfoldable pub record_from :
    Call → Message → String → ℕ → String → Option String → Inbox → Inbox × Option (Row × Bool)
record_from c m destination activated_at i (some k) s = (s, some (entry_of c m k, false))
record_from c m destination activated_at i none s = record_new c m destination activated_at i s

unfoldable pub record_read :
    Call → Message → String → ℕ → Inbox → Bool → Option String → Inbox × Option (Row × Bool)
record_read c m destination activated_at s reads none = (s, none)
record_read c m destination activated_at s false (some i) = (s, none)
record_read c m destination activated_at s true (some i) =
    record_from c m destination activated_at i (known c m s) s

-- The entry, and whether it is new; `none` for an error.
unfoldable pub record_with_forward_since :
    Call → Message → String → ℕ → Inbox → Inbox × Option (Row × Bool)
record_with_forward_since c m destination activated_at s =
    record_read c m destination activated_at s c.reads c.random

unfoldable pub forget_modem : Bool → String → Inbox → Inbox
forget_modem commits path s =
    if commits then record s { pending = λ q. if str_eq q path then none else s.pending q } else s

abbrev pub job_state : String → List Forward.Job → Option Forward.State
job_state i [] = none
job_state i (j ∷ js) = if str_eq j.id i then some j.state else job_state i js

-- The entries with the states of their jobs; `reads` tells whether the query succeeds.
unfoldable pub list :
    (commits reads : Bool) → ℕ → Inbox → Inbox × Option (List (Row × Option Forward.State))
list commits reads now s =
    if not commits
    then (s, none)
    else let rows = drop_old now s.rows in
      let t : Inbox = record s { rows = rows; queue = drop_orphans (λ j. has_id j rows) s.queue } in
      (
        t,
        if reads
            then some (map (λ r. (r, job_state r.id t.queue.jobs)) (take inbox_limit rows))
            else none,
      )

unfoldable pub set_read : String → List Row → List Row
set_read i [] = []
set_read i (r ∷ rs) = (if str_eq r.id i then record r { is_read = true } else r) ∷ set_read i rs

unfoldable pub mark_read : Bool → String → Inbox → Inbox × Option Bool
mark_read commits i s =
    if commits then (record s { rows = set_read i s.rows }, some (has_id i s.rows)) else (s, none)

unfoldable pub remove_row : String → List Row → List Row
remove_row i [] = []
remove_row i (r ∷ rs) = let rest = remove_row i rs in if str_eq r.id i then rest else r ∷ rest

unfoldable pub delete : Bool → String → Inbox → Inbox × Option Bool
delete commits i s =
    if commits
    then (
      record s { rows = remove_row i s.rows; queue = delete_job i s.queue },
      some (has_id i s.rows),
    )
    else (s, none)

-- The operations on the tables.
pub data Operation : Type 0 where
  records : Call → Message → (destination : String) → (activated_at : ℕ) → Operation
  forgets : (commits : Bool) → (path : String) → Operation
  lists : (commits reads : Bool) → (now : ℕ) → Operation
  marks : (commits : Bool) → (i : String) → Operation
  deletes : (commits : Bool) → (i : String) → Operation
  -- What store_forward.go does to the jobs.
  forwards : Forward.Operation → Operation

unfoldable pub step : Operation → Inbox → Inbox
step (records c m d a) s = (record_with_forward_since c m d a s).0
step (forgets commits path) s = forget_modem commits path s
step (lists commits reads now) s = (list commits reads now s).0
step (marks commits i) s = (mark_read commits i s).0
step (deletes commits i) s = (delete commits i s).0
step (forwards o) s = record s { queue = (Forward.step o s.queue).0 }

unfoldable pub run : List Operation → Inbox → Inbox
run [] s = s
run (o ∷ os) s = run os (step o s)
