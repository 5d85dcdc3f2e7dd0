-- ===== src/Forward/Budget.antt =====
-- How much is sent on one day (internal/sms/store_forward.go).
use modem_service.Prelude.{
  ℕ, ◌+◌, ◌≤◌, String, Option, none, some, List, [], ◌∷◌, ◌≡◌, arith, str_eq, eq_iff, if◌then◌else◌,
}
use modem_service.Forward.{
  Job, Store, Reservation, Operation, reserves, finishes, recovers, configures, queues, drops,
  removes, step, reserve_forward, reserve_job, candidates, first_queued, open_store, daily_segments,
  configure_forward, finish_forward, recover_forward, queue_forward, drop_orphans, delete_job,
}

-- The segments that an operation hands out for the day.
abbrev pub spent_on : String → Operation → Option Job → ℕ
spent_on d (reserves r) (some j) = if str_eq d r.day then j.segments else 0
spent_on d _ _ = 0

-- The segments that a run hands out for the day.
pub total : String → List Operation → Store → ℕ
total d [] s = 0
total d (o ∷ os) s = spent_on d o (step o s).1 + total d os (step o s).0

reserve_job-budget :
    (d : String) (r : Reservation) (s : Store) (o : Option Job)
    → s.budget d ≤ daily_segments
    → let t = reserve_job r s o in
      (t.0.budget d ≡ s.budget d + spent_on d (reserves r) t.1) × (t.0.budget d ≤ daily_segments)
unfolding reserve_job
reserve_job-budget d r s none h = (omega arith, h)
reserve_job-budget d r s (some j) h = ground (arith, eq_iff d r.day)

reserve_forward-budget :
    (d : String) (r : Reservation) (s : Store)
    → s.budget d ≤ daily_segments
    → let t = reserve_forward r s in
      (t.0.budget d ≡ s.budget d + spent_on d (reserves r) t.1) × (t.0.budget d ≤ daily_segments)
unfolding reserve_forward
reserve_forward-budget d r s h =
    let js = candidates r s.jobs in
    let k = reserve_job-budget d r (record s { jobs = js }) (first_queued js) h in ground arith

step-budget :
    (d : String) (o : Operation) (s : Store)
    → s.budget d ≤ daily_segments
    → let t = step o s in
      (t.0.budget d ≡ s.budget d + spent_on d o t.1) × (t.0.budget d ≤ daily_segments)
unfolding step configure_forward finish_forward recover_forward queue_forward drop_orphans
    delete_job
step-budget d (reserves r) s h = reserve_forward-budget d r s h
step-budget d (finishes c i ok) s h = ground arith
step-budget d (recovers c) s h = ground arith
step-budget d (configures c dest t) s h = ground arith
step-budget d (queues i sender dest body n t) s h = (omega arith, h)
step-budget d (drops kept) s h = (omega arith, h)
step-budget d (removes i) s h = (omega arith, h)

total_capped :
    (d : String) (os : List Operation) (s : Store)
    → s.budget d ≤ daily_segments
    → s.budget d + total d os s ≤ daily_segments
unfolding total
total_capped d [] s h = omega arith
total_capped d (o ∷ os) s h =
    let (e, k) = step-budget d o s h in omega (arith, e, total_capped d os (step o s).0 k)

-- The daily budget: in any run from an empty store, with restarts, failed transactions and any
-- outcomes of the sends, the jobs that are handed out to be sent on one day have at most ten
-- segments together.
pub budget_kept : (d : String) (os : List Operation) → total d os open_store ≤ daily_segments
unfolding open_store
budget_kept d os = omega (arith, total_capped d os open_store (omega arith))
