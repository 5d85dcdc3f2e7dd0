-- ===== src/Forward/Retry.antt =====
-- No job is sent twice (internal/sms/store_forward.go).
use modem_service.Prelude.{
  ℕ, ◌+◌, String, Bool, true, false, ltb, Option, none, some, List, [], ◌∷◌, ◌++◌, ◌≡◌, ◌≢◌, refl,
  ap, sym, ◌∙◌, subst, arith, str_eq, if◌then◌else◌, Bool-cases, Option-cases, inl, inr, map, All,
}
use modem_service.Forward.{
  Job, Store, Reservation, Operation, reserves, finishes, recovers, configures, queues, drops,
  removes, step, reserve_forward, reserve_job, swept, candidates, first_queued, filter, is_queued,
  cancel_job, cancel_sender_job, expire_job, start_job, recover_job, finish_job, configure_forward,
  finish_forward, recover_forward, queue_forward, drop_orphans, delete_job, daily_segments,
}
use modem_service.Forward.Reserved.{
  All-map, All-filter, first_queued-All, reserve_forward-some, reserve_job-some, some_job, none_job,
}

-- The job is not the queued job `i`.
abbrev pub NotQueued : String → Job → Type 0
NotQueued i j = str_eq j.id i ≡ true → is_queued j.state ≡ false

abbrev pub NoneQueued : String → List Job → Type 0
NoneQueued i js = All (NotQueued i) js

true-ne-false : true ≢ false
true-ne-false = λ e. ground arith

-- A change of a row that keeps its id and never queues it.
abbrev Tame : (Job → Job) → Type 0
Tame f = (j : Job) → ((f j).id ≡ j.id) × (is_queued j.state ≡ false → is_queued (f j).state ≡ false)

recover_job-Tame : Tame recover_job
unfolding recover_job
recover_job-Tame j = ground arith

cancel_job-Tame : (dest : String) → Tame (cancel_job dest)
unfolding cancel_job
cancel_job-Tame dest j = ground arith

cancel_sender_job-Tame : (own : String) → Tame (cancel_sender_job own)
unfolding cancel_sender_job
cancel_sender_job-Tame own j = ground arith

expire_job-Tame : (now : ℕ) → Tame (expire_job now)
unfolding expire_job
expire_job-Tame now j = ground arith

start_job-Tame : (i day : String) → Tame (start_job i day)
unfolding start_job
start_job-Tame i day j = ground arith

finish_job-Tame : (i : String) (ok : Bool) → Tame (finish_job i ok)
unfolding finish_job
finish_job-Tame i ok j = ground arith

map-NoneQueued :
    (i : String) (f : Job → Job) (js : List Job)
    → Tame f
    → NoneQueued i js
    → NoneQueued i (map f js)
map-NoneQueued i f js t h =
    All-map (NotQueued i) (NotQueued i) f js
      (λ j n e. (t j).1 (n (subst (λ x. str_eq x i ≡ true) (t j).0 e))) h

filter-NoneQueued :
    (i : String) (f : Job → Bool) (js : List Job) → NoneQueued i js → NoneQueued i (filter f js)
filter-NoneQueued i f js h = All-filter (NotQueued i) (NotQueued i) f js (λ j e n. n) h

append-NoneQueued :
    (i : String) (js : List Job) (k : Job)
    → NotQueued i k
    → NoneQueued i js
    → NoneQueued i (js ++ k ∷ [])
append-NoneQueued i [] k n h = (n, tt)
append-NoneQueued i (j ∷ js) k n (h, hs) = (h, append-NoneQueued i js k n hs)

swept-NoneQueued :
    (i : String) (r : Reservation) (js : List Job) → NoneQueued i js → NoneQueued i (swept r js)
unfolding swept
swept-NoneQueued i r js h =
    map-NoneQueued i (cancel_job r.destination) _ (cancel_job-Tame r.destination)
      (map-NoneQueued i (expire_job r.now) _ (expire_job-Tame r.now) (filter-NoneQueued i _ js h))

candidates-NoneQueued :
    (i : String) (r : Reservation) (js : List Job)
    → NoneQueued i js
    → NoneQueued i (candidates r js)
unfolding candidates
candidates-NoneQueued i r js h = elim (Bool-cases (str_eq r.own "")) [
  | inl e ↦ rw e (swept-NoneQueued i r js h)
  | inr e ↦ rw e (
      map-NoneQueued i (cancel_sender_job r.own) _ (cancel_sender_job-Tame r.own)
        (swept-NoneQueued i r js h))
]

reserve_job-NoneQueued :
    (i : String) (r : Reservation) (s : Store) (o : Option Job)
    → NoneQueued i s.jobs
    → NoneQueued i (reserve_job r s o).0.jobs
unfolding reserve_job
reserve_job-NoneQueued i r s none h = h
reserve_job-NoneQueued i r s (some j) h =
    let k = map-NoneQueued i (start_job j.id r.day) s.jobs (start_job-Tame j.id r.day) h in
    ground arith

reserve_forward-NoneQueued :
    (i : String) (r : Reservation) (s : Store)
    → NoneQueued i s.jobs
    → NoneQueued i (reserve_forward r s).0.jobs
unfolding reserve_forward
reserve_forward-NoneQueued i r s h =
    let k = swept-NoneQueued i r s.jobs h in
    let js = candidates r s.jobs in
    let l =
      reserve_job-NoneQueued i r (record s { jobs = js }) (first_queued js)
        (candidates-NoneQueued i r s.jobs h) in
    ground arith

-- The operation does not add a job with the id.
abbrev pub Spares : String → Operation → Type 0
Spares i (queues k sender dest body n t) = str_eq k i ≡ false
Spares i _ = Unit {0}

configure_forward-NoneQueued :
    (i : String) (c : Bool) (dest : String) (t : ℕ) (s : Store)
    → NoneQueued i s.jobs
    → NoneQueued i (configure_forward c dest t s).0.jobs
unfolding configure_forward
configure_forward-NoneQueued i c dest t s h =
    let k = map-NoneQueued i (cancel_job dest) s.jobs (cancel_job-Tame dest) h in ground arith

finish_forward-NoneQueued :
    (i : String) (c : Bool) (k : String) (ok : Bool) (s : Store)
    → NoneQueued i s.jobs
    → NoneQueued i (finish_forward c k ok s).jobs
unfolding finish_forward
finish_forward-NoneQueued i true k ok s h =
    map-NoneQueued i (finish_job k ok) s.jobs (finish_job-Tame k ok) h
finish_forward-NoneQueued i false k ok s h = h

recover_forward-NoneQueued :
    (i : String) (c : Bool) (s : Store)
    → NoneQueued i s.jobs
    → NoneQueued i (recover_forward c s).jobs
unfolding recover_forward
recover_forward-NoneQueued i true s h = map-NoneQueued i recover_job s.jobs recover_job-Tame h
recover_forward-NoneQueued i false s h = h

pub step-NoneQueued :
    (i : String) (o : Operation) (s : Store)
    → Spares i o
    → NoneQueued i s.jobs
    → NoneQueued i (step o s).0.jobs
unfolding step queue_forward drop_orphans delete_job
step-NoneQueued i (reserves r) s u h = reserve_forward-NoneQueued i r s h
step-NoneQueued i (finishes c k ok) s u h = finish_forward-NoneQueued i c k ok s h
step-NoneQueued i (recovers c) s u h = recover_forward-NoneQueued i c s h
step-NoneQueued i (configures c dest t) s u h = configure_forward-NoneQueued i c dest t s h
step-NoneQueued i (queues k sender dest body n t) s u h =
    append-NoneQueued i s.jobs _ (λ e. absurd (true-ne-false (sym e ∙ u))) h
step-NoneQueued i (drops kept) s u h = filter-NoneQueued i _ s.jobs h
step-NoneQueued i (removes k) s u h = filter-NoneQueued i _ s.jobs h

abbrev pub counts_as : String → Option Job → ℕ
counts_as i none = 0
counts_as i (some j) = if str_eq j.id i then 1 else 0

-- How often a run hands out a job with the id.
pub handed : String → List Operation → Store → ℕ
handed i [] s = 0
handed i (o ∷ os) s = counts_as i (step o s).1 + handed i os (step o s).0

reserve_forward_first :
    (r : Reservation) (s : Store) (j : Job)
    → (reserve_forward r s).1 ≡ some j
    → first_queued (candidates r s.jobs) ≡ some j
reserve_forward_first r s j h =
    (reserve_job-some r (record s { jobs = candidates r s.jobs })
      (first_queued (candidates r s.jobs)) j
      (ap (λ x. x.1) (sym (reserve_forward-some r s j h).0) ∙ h)).0

reserved_not :
    (i : String) (r : Reservation) (s : Store) (j : Job)
    → NoneQueued i s.jobs
    → (reserve_forward r s).1 ≡ some j
    → str_eq j.id i ≡ false
reserved_not i r s j h e =
    let (n, q) =
      first_queued-All (NotQueued i) (candidates r s.jobs) j (candidates-NoneQueued i r s.jobs h)
        (reserve_forward_first r s j e) in
    elim (Bool-cases (str_eq j.id i)) [ inr x ↦ x | inl x ↦ absurd (true-ne-false (sym q ∙ n x)) ]

pub step_hands :
    (i : String) (o : Operation) (s : Store) → NoneQueued i s.jobs → counts_as i (step o s).1 ≡ 0
unfolding step
step_hands i (reserves r) s h = elim (Option-cases (reserve_forward r s).1) [
  | inl e ↦ rw e refl
  | inr (j, e) ↦ rw (e, reserved_not i r s j h e) refl
]
step_hands i (finishes c k ok) s h = refl
step_hands i (recovers c) s h = refl
step_hands i (configures c dest t) s h = refl
step_hands i (queues k sender dest body n t) s h = refl
step_hands i (drops kept) s h = refl
step_hands i (removes k) s h = refl

handed_none :
    (i : String) (os : List Operation) (s : Store)
    → All (Spares i) os
    → NoneQueued i s.jobs
    → handed i os s ≡ 0
unfolding handed
handed_none i [] s u h = refl
handed_none i (o ∷ os) s (u, us) h =
    omega (arith, step_hands i o s h, handed_none i os (step o s).0 us (step-NoneQueued i o s u h))

start_NotQueued : (i day : String) (j : Job) → NotQueued i (start_job i day j)
unfolding start_job
start_NotQueued i day j = λ e. ground arith

start_NoneQueued : (i day : String) (js : List Job) → NoneQueued i (map (start_job i day) js)
start_NoneQueued i day [] = tt
start_NoneQueued i day (j ∷ js) = (start_NotQueued i day j, start_NoneQueued i day js)

reserve_job_starts :
    (r : Reservation) (s : Store) (o : Option Job) (j : Job)
    → (reserve_job r s o).1 ≡ some j
    → NoneQueued j.id (reserve_job r s o).0.jobs
unfolding reserve_job
reserve_job_starts r s none j h = absurd (none_job j h)
reserve_job_starts r s (some k) j h =
    elim (Bool-cases (ltb daily_segments (s.budget r.day + k.segments))) [
      | inl e ↦ absurd (none_job j (rw e at h))
      | inr e ↦ rw e (
          subst (λ x. NoneQueued x.id (map (start_job k.id r.day) s.jobs)) (some_job (rw e at h))
            (start_NoneQueued k.id r.day s.jobs))
    ]

pub reserved-NoneQueued :
    (r : Reservation) (s : Store) (j : Job)
    → (reserve_forward r s).1 ≡ some j
    → NoneQueued j.id (reserve_forward r s).0.jobs
reserved-NoneQueued r s j h =
    let (e, _, _, _) = reserve_forward-some r s j h in
    let t : Store = record s { jobs = candidates r s.jobs } in
    subst (λ x. NoneQueued j.id x.0.jobs) (sym e)
      (reserve_job_starts r t (first_queued t.jobs) j (ap (λ x. x.1) (sym e) ∙ h))

-- A job that has been handed out is never handed out again: after a reservation of `j`, no run of
-- operations, with restarts, failed transactions and any outcomes, hands out a job with the id of
-- `j`, if no new message is given that id.
pub reserved_once :
    (r : Reservation) (s : Store) (j : Job) (os : List Operation)
    → (reserve_forward r s).1 ≡ some j
    → All (Spares j.id) os
    → handed j.id os (reserve_forward r s).0 ≡ 0
reserved_once r s j os h u =
    handed_none j.id os (reserve_forward r s).0 u (reserved-NoneQueued r s j h)
