-- ===== src/Forward/Reserved.antt =====
-- Which job is handed out (internal/sms/store_forward.go).
use modem_service.Prelude.{
  ◌+◌, ◌≤◌, ◌<◌, Bool, true, false, not, ◌||◌, ltb, Option, none, some, List, [], ◌∷◌, ◌≡◌, ◌≢◌, ap,
  sym, subst, ◌∙◌, arith, str_eq, eq_iff, Bool-cases, ◌⊎◌, inl, inr, map, All,
}
use modem_service.Forward.{
  Job, Store, Reservation, reserve_forward, reserve_job, swept, candidates, first_queued, filter,
  choose, is_queued, is_sending, cancel_job, cancel_sender_job, expire_job, daily_segments,
  inbox_max_age,
}

pub All-map :
    (P Q : Job → Type 0) (f : Job → Job) (js : List Job)
    → ((j : Job) → P j → Q (f j))
    → All P js
    → All Q (map f js)
All-map P Q f [] k h = tt
All-map P Q f (j ∷ js) k (h, hs) = (k j h, All-map P Q f js k hs)

pub All-filter :
    (P Q : Job → Type 0) (f : Job → Bool) (js : List Job)
    → ((j : Job) → f j ≡ true → P j → Q j)
    → All P js
    → All Q (filter f js)
All-filter P Q f [] k h = tt
All-filter P Q f (j ∷ js) k (h, hs) = elim (Bool-cases (f j)) [
  | inl e ↦ rw e (k j e h, All-filter P Q f js k hs)
  | inr e ↦ rw e (All-filter P Q f js k hs)
]

pub All-same : (P Q : Job → Type 0) (js : List Job) → ((j : Job) → P j → Q j) → All P js → All Q js
All-same P Q [] k h = tt
All-same P Q (j ∷ js) k (h, hs) = (k j h, All-same P Q js k hs)

pub some_job : {j k : Job} → some j ≡ some k → j ≡ k
some_job e = ground arith

pub none_job : (j : Job) → none ≢ some j
none_job j = λ e. ground arith

choose_either : (j : Job) (o : Option Job) (k : Job) → choose j o ≡ some k → (k ≡ j) ⊎ (o ≡ some k)
choose_either j none k h = ground arith
choose_either j (some x) k h = ground arith

-- What `first_queued` selects is queued, and has what all jobs have.
pub first_queued-All :
    (P : Job → Type 0) (js : List Job) (k : Job)
    → All P js
    → first_queued js ≡ some k
    → P k × (is_queued k.state ≡ true)
unfolding first_queued
first_queued-All P [] k h e = absurd (none_job k e)
first_queued-All P (j ∷ js) k (h, hs) e = elim (Bool-cases (is_queued j.state)) [
  | inr q ↦ first_queued-All P js k hs (rw q at e)
  | inl q ↦ elim (choose_either j (first_queued js) k (rw q at e)) [
    | inl s ↦ (subst P (sym s) h, ap (λ j. is_queued j.state) s ∙ q)
    | inr s ↦ first_queued-All P js k hs s
  ]
]

-- What a queued job has after the sweeps of one reservation.
abbrev Recent : Reservation → Job → Type 0
Recent r j = is_queued j.state ≡ true → r.now ≤ j.created_at + inbox_max_age

abbrev Live : Reservation → Job → Type 0
Live r j =
    is_queued j.state ≡ true → (r.now ≤ j.created_at + inbox_max_age) × (r.now < j.expires_at)

abbrev Bound : Reservation → Job → Type 0
Bound r j =
    is_queued j.state ≡ true
    → (r.now ≤ j.created_at + inbox_max_age)
      × (r.now < j.expires_at)
      × (str_eq j.destination r.destination ≡ true)

abbrev Eligible : Reservation → Job → Type 0
Eligible r j =
    is_queued j.state ≡ true
    → (r.now ≤ j.created_at + inbox_max_age)
      × (r.now < j.expires_at)
      × (str_eq j.destination r.destination ≡ true)
      × ((str_eq r.own "" ≡ true) ⊎ (str_eq j.sender r.own ≡ false))

abbrev Any : Job → Type 0
Any j = Unit {0}

All-Any : (js : List Job) → All Any js
All-Any [] = tt
All-Any (j ∷ js) = (tt, All-Any js)

sending-not-queued : (j : Job) → is_sending j.state ≡ true → is_queued j.state ≡ false
sending-not-queued j h = ground arith

filter-Recent :
    (r : Reservation) (j : Job)
    → (not (ltb (j.created_at + inbox_max_age) r.now) || is_sending j.state) ≡ true
    → Any j
    → Recent r j
filter-Recent r j e u = λ q. ground (arith, sending-not-queued j)

expire-Live : (r : Reservation) (j : Job) → Recent r j → Live r (expire_job r.now j)
unfolding expire_job
expire-Live r j h = λ q. ground arith

cancel-Bound : (r : Reservation) (j : Job) → Live r j → Bound r (cancel_job r.destination j)
unfolding cancel_job
cancel-Bound r j h = λ q. ground arith

cancel_sender-Eligible :
    (r : Reservation) (j : Job) → Bound r j → Eligible r (cancel_sender_job r.own j)
unfolding cancel_sender_job
cancel_sender-Eligible r j h = λ q. ground arith

swept-Bound : (r : Reservation) (js : List Job) → All (Bound r) (swept r js)
unfolding swept
swept-Bound r js = All-map (Live r) (Bound r) (cancel_job r.destination) _ (cancel-Bound r) (
    All-map (Recent r) (Live r) (expire_job r.now) _ (expire-Live r)
      (All-filter Any (Recent r) _ js (filter-Recent r) (All-Any js)))

candidates-Eligible : (r : Reservation) (js : List Job) → All (Eligible r) (candidates r js)
unfolding candidates
candidates-Eligible r js = elim (Bool-cases (str_eq r.own "")) [
  | inl e ↦ rw e (
      All-same (Bound r) (Eligible r) (swept r js) (λ j h q. let k = h q in (k.0, k.1, k.2, inl e))
        (swept-Bound r js))
  | inr e ↦ rw e (
      All-map (Bound r) (Eligible r) (cancel_sender_job r.own) _ (cancel_sender-Eligible r)
        (swept-Bound r js))
]

pub reserve_job-some :
    (r : Reservation) (s : Store) (o : Option Job) (j : Job)
    → (reserve_job r s o).1 ≡ some j
    → (o ≡ some j) × (s.budget r.day + j.segments ≤ daily_segments)
unfolding reserve_job
reserve_job-some r s none j h = absurd (none_job j h)
reserve_job-some r s (some k) j h = ground arith

pub reserve_forward-some :
    (r : Reservation) (s : Store) (j : Job)
    → (reserve_forward r s).1 ≡ some j
    → let t : Store = record s { jobs = candidates r s.jobs } in
      (reserve_forward r s ≡ reserve_job r t (first_queued (candidates r s.jobs)))
      × (str_eq r.destination "off" ≡ false)
      × (r.valid ≡ true)
      × ((str_eq r.own "" ≡ true) ⊎ (str_eq r.own r.destination ≡ false))
unfolding reserve_forward
reserve_forward-some r s j h = ground arith

-- The job that `ReserveForward` hands out is queued, for the current and valid destination, which
-- is not the own number, neither expired nor a month old, not a message from the own number, and
-- fits into the budget of the day.
pub reserve_forward_eligible :
    (r : Reservation) (s : Store) (j : Job)
    → (reserve_forward r s).1 ≡ some j
    → (is_queued j.state ≡ true)
      × (j.destination ≡ r.destination)
      × (str_eq r.destination "off" ≡ false)
      × (r.valid ≡ true)
      × ((str_eq r.own "" ≡ true) ⊎ (str_eq r.own r.destination ≡ false))
      × ((str_eq r.own "" ≡ true) ⊎ (str_eq j.sender r.own ≡ false))
      × (r.now < j.expires_at)
      × (r.now ≤ j.created_at + inbox_max_age)
      × (s.budget r.day + j.segments ≤ daily_segments)
reserve_forward_eligible r s j h =
    let js = candidates r s.jobs in
    let (e, on, valid, own) = reserve_forward-some r s j h in
    let (first, fits) =
      reserve_job-some r (record s { jobs = js }) (first_queued js) j (ap (λ x. x.1) (sym e) ∙ h) in
    let (all, q) = first_queued-All (Eligible r) js j (candidates-Eligible r s.jobs) first in
    let (recent, live, dest, sender) = all q in
    (q, (eq_iff j.destination r.destination).0 dest, on, valid, own, sender, live, recent, fits)
