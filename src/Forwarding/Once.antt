-- ===== src/Forwarding/Once.antt =====
-- A message that is forwarded is tried once (internal/service/sms_forward.go).
use modem_service.Prelude.{
  ℕ, ◌+◌, String, Bool, false, not, ◌||◌, ◌==◌, ◌≡◌, ◌≢◌, refl, ap, subst, Option, none, some, List,
  [], ◌∷◌, All, arith, str_eq, if-elim,
}
use modem_service.Forward
use modem_service.Forward.{Store, Job, reserves, finishes, reserve_forward, finish_forward}
use modem_service.Forward.Retry.{
  NoneQueued, Spares, counts_as, step_hands, step-NoneQueued, reserved-NoneQueued,
}
use modem_service.Forwarding.{
  Round, Forwarded, idle, reservation, send_job, forward_reserved, forward_registered,
  forward_found, forward_one, registration_home,
}

registered :
    (P : Forwarded → Type 0) (e : Round) (path : String) (o : Option ℕ) (s : Store)
    → P (idle s)
    → P (forward_reserved e path (reserve_forward (reservation e) s))
    → P (forward_registered e path o s)
unfolding forward_registered
registered P e path none s q k = q
registered P e path (some n) s q k = if-elim P (n == registration_home) _ _ (λ x. k) (λ x. q)

found :
    (P : Forwarded → Type 0) (e : Round) (o : Option String) (s : Store)
    → P (idle s)
    → ((path : String) → P (forward_reserved e path (reserve_forward (reservation e) s)))
    → P (forward_found e o s)
unfolding forward_found
found P e none s q k = q
found P e (some path) s q k = registered P e path e.registration s q (k path)

-- A round does nothing, or goes on with what it reserves.
forward_one_cases :
    (P : Forwarded → Type 0) (e : Round) (s : Store)
    → P (idle s)
    → ((path : String) → P (forward_reserved e path (reserve_forward (reservation e) s)))
    → P (forward_one e s)
unfolding forward_one
forward_one_cases P e s q k =
    if-elim P (e.ended || not e.enabled || not e.sim_present) _ _ (λ x. q)
      (λ x.
        if-elim P (str_eq e.destination "" || str_eq e.destination "off") _ _ (λ y. q)
          (λ y. found P e e.modem s q k))

-- The job is another one, and none with the id waits.
abbrev Spared : String → Forwarded → Type 0
Spared i r = (counts_as i r.job ≡ 0) × NoneQueued i r.store.jobs

sent-Spared :
    (i : String) (e : Round) (path : String) (j : Job) (s : Store)
    → counts_as i (some j) ≡ 0
    → NoneQueued i s.jobs
    → Spared i (send_job e path j s)
unfolding send_job Forward.step
sent-Spared i e path j s c n =
    if-elim (Spared i) e.ended_later _ _
      (λ x. (c, step-NoneQueued i (finishes e.finish_commits j.id false) s tt n))
      (λ x. (c, step-NoneQueued i (finishes e.finish_commits j.id _) s tt n))

reserved-Spared :
    (i : String) (e : Round) (path : String) (r : Store × Option Job)
    → counts_as i r.1 ≡ 0
    → NoneQueued i r.0.jobs
    → Spared i (forward_reserved e path r)
unfolding forward_reserved
reserved-Spared i e path (s, none) c n = (c, n)
reserved-Spared i e path (s, some j) c n = sent-Spared i e path j s c n

round-Spared :
    (i : String) (e : Round) (s : Store) → NoneQueued i s.jobs → Spared i (forward_one e s)
unfolding Forward.step
round-Spared i e s n =
    forward_one_cases (Spared i) e s (refl, n)
      (λ path.
        let o = reserves (reservation e) in
        reserved-Spared i e path (reserve_forward (reservation e) s) (step_hands i o s n)
          (step-NoneQueued i o s tt n))

-- None with the id of the job that was taken waits.
abbrev Taken : Forwarded → Type 0
Taken r = (j : Job) → r.job ≡ some j → NoneQueued j.id r.store.jobs

none-ne-some : (j : Job) → none ≢ some j
none-ne-some j = λ e. ground arith

unwrapped : (j k : Job) → ◌≡◌ {A = Option Job} (some j) (some k) → j ≡ k
unwrapped j k e = ap (λ o. elim o [ none ↦ j | some x ↦ x ]) e

sent-Taken :
    (e : Round) (path : String) (j : Job) (s : Store)
    → NoneQueued j.id s.jobs
    → Taken (send_job e path j s)
unfolding send_job Forward.step
sent-Taken e path j s n =
    let finished : (ok : Bool)
        → (k : Job) → some j ≡ some k
        → NoneQueued k.id (finish_forward e.finish_commits j.id ok s).jobs =
      λ ok k q.
        subst (λ x. NoneQueued x.id (finish_forward e.finish_commits j.id ok s).jobs)
          (unwrapped j k q) (step-NoneQueued j.id (finishes e.finish_commits j.id ok) s tt n) in
    if-elim Taken e.ended_later _ _ (λ x. finished false) (λ x. finished _)

reserved-Taken :
    (e : Round) (path : String) (r : Store × Option Job)
    → ((j : Job) → r.1 ≡ some j → NoneQueued j.id r.0.jobs)
    → Taken (forward_reserved e path r)
unfolding forward_reserved
reserved-Taken e path (s, none) h j q = absurd (none-ne-some j q)
reserved-Taken e path (s, some k) h j q = sent-Taken e path k s (h k refl) j q

round-Taken : (e : Round) (s : Store) → Taken (forward_one e s)
round-Taken e s =
    forward_one_cases Taken e s (λ j q. absurd (none-ne-some j q))
      (λ path.
        reserved-Taken e path (reserve_forward (reservation e) s)
          (reserved-NoneQueued (reservation e) s))

-- Rounds, and what else happens to the queue between them.
pub data Step : Type 0 where
  rounds : Round → Step
  changes : Forward.Operation → Step

abbrev pub SparesStep : String → Step → Type 0
SparesStep i (rounds e) = Unit
SparesStep i (changes o) = Spares i o

-- How often a job with the id is taken by a round.
unfoldable pub taken : String → List Step → Store → ℕ
taken i [] s = 0
taken i (rounds e ∷ ss) s = let r = forward_one e s in counts_as i r.job + taken i ss r.store
taken i (changes o ∷ ss) s = taken i ss (Forward.step o s).0

never_taken :
    (i : String) (ss : List Step) (s : Store)
    → All (SparesStep i) ss
    → NoneQueued i s.jobs
    → taken i ss s ≡ 0
unfolding taken
never_taken i [] s u n = refl
never_taken i (rounds e ∷ ss) s (u, us) n =
    let (c, m) = round-Spared i e s n in
    omega (arith, c, never_taken i ss (forward_one e s).store us m)
never_taken i (changes o ∷ ss) s (u, us) n =
    never_taken i ss (Forward.step o s).0 us (step-NoneQueued i o s u n)

-- A job that a round takes is not taken again, whether the modem sends its message or not: not by any
-- later round, with any answers and any changes of the queue in between that add no job with its id.
pub forwarded_at_most_once :
    (e : Round) (s : Store) (j : Job) (ss : List Step)
    → (forward_one e s).job ≡ some j
    → All (SparesStep j.id) ss
    → taken j.id ss (forward_one e s).store ≡ 0
forwarded_at_most_once e s j ss h u =
    never_taken j.id ss (forward_one e s).store u (round-Taken e s j h)
