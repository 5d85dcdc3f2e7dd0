-- ===== src/Recovery/Bounded.antt =====
-- Runs of failures: how often recovery is attempted (internal/service/service.go).
use modem_service.Prelude.{
  ℕ, ◌+◌, ◌*◌, ◌≤◌, ◌<◌, ◌≡◌, refl, inl, inr, Bool, true, false, arith, Option, some, none, List,
  [], ◌∷◌, ◌++◌, if◌then◌else◌, Bool-cases,
}
use modem_service.Health.{
  State, Health, normal, recovering, failed_wait, permanent_failure, start_recovery, mark_normal,
  mark_recovery_failed, can_recover, max_recovery_attempts, new,
}
use modem_service.Recovery.Ladder.{attempt_started, attempt_not_started}
use modem_service.Recovery.{
  Action, Event, publishes, apn_retry_reset, act_all, Result, recovered, cancelled, attempt_failed,
  Attempt, ladder, attempt_recovery, conclude, Failure, back_off, handle_modem_failure,
}

-- How often a trace publishes a health state.
abbrev pub is_state : State → State → Bool
is_state normal normal = true
is_state recovering recovering = true
is_state failed_wait failed_wait = true
is_state permanent_failure permanent_failure = true
is_state _ _ = false

abbrev pub weight : State → Event → ℕ
weight s (publishes t) = if is_state s t then 1 else 0
weight s _ = 0

pub published : State → List Event → ℕ
published s [] = 0
published s (e ∷ es) = weight s e + published s es

abbrev is_success : Event → ℕ
is_success apn_retry_reset = 1
is_success _ = 0

-- How often a trace recovers the modem.
pub successes : List Event → ℕ
successes [] = 0
successes (e ∷ es) = is_success e + successes es

-- The trace and the health of a run of failures.
unfoldable pub failures : List (ℕ × Failure) → Health → List Event × Health
failures [] h = ([], h)
failures ((now, f) ∷ fs) h =
    let d = handle_modem_failure now f h in let (l, k) = failures fs d.health in (d.trace ++ l, k)

published-append :
    (s : State) (l m : List Event) → published s (l ++ m) ≡ published s l + published s m
unfolding published
published-append s [] m = omega arith
published-append s (e ∷ l) m = omega (arith, published-append s l m)

successes-append : (l m : List Event) → successes (l ++ m) ≡ successes l + successes m
unfolding successes
successes-append [] m = omega arith
successes-append (e ∷ l) m = omega (arith, successes-append l m)

published-act_all : (s : State) (l : List Action) → published s (act_all l) ≡ 0
unfolding published
published-act_all s [] = refl
published-act_all s (a ∷ l) = omega (arith, published-act_all s l)

successes-act_all : (l : List Action) → successes (act_all l) ≡ 0
unfolding successes
successes-act_all [] = refl
successes-act_all (a ∷ l) = omega (arith, successes-act_all l)

-- What holds between two failures.
pub record IsCalm (h : Health) : Type 0 where
  pub capped : h.attempts ≤ max_recovery_attempts
  pub settled : h.state ≡ normal

-- One failure: the count of attempts pays for the starts.
abbrev Pays : Health → Health → List Event → Type 0
Pays h k l =
    (h.attempts + published recovering l
      ≤ k.attempts + max_recovery_attempts * (published failed_wait l + successes l))
    × (published permanent_failure l ≡ 0)

published_acts :
    (s : State) (l : List Action) (m : List Event) → published s (act_all l ++ m) ≡ published s m
published_acts s l m = omega (arith, published-append s (act_all l) m, published-act_all s l)

successes_acts : (l : List Action) (m : List Event) → successes (act_all l ++ m) ≡ successes m
successes_acts l m = omega (arith, successes-append (act_all l) m, successes-act_all l)

conclude-Pays :
    (now : ℕ) (h : Health) (l : List Action) (o : Option Result)
    → h.attempts < max_recovery_attempts
    → let d = conclude (start_recovery now h) (publishes recovering ∷ act_all l) o in
      Pays h d.health d.trace × IsCalm d.health
unfolding conclude start_recovery mark_normal published successes
conclude-Pays now h l none k = simp (published_acts, successes_acts) (ground arith)
conclude-Pays now h l (some (recovered s)) k = simp (published_acts, successes_acts) (ground arith)
conclude-Pays now h l (some cancelled) k = simp (published_acts, successes_acts) (ground arith)
conclude-Pays now h l (some attempt_failed) k = simp (published_acts, successes_acts) (ground arith)

cancelled-Pays : (h : Health) → IsCalm h → Pays h h [] × IsCalm h
unfolding published successes
cancelled-Pays h c = (omega arith, c)

attempt-Pays :
    (now : ℕ) (e : Attempt) (h : Health)
    → IsCalm h
    → h.attempts < max_recovery_attempts
    → let d = attempt_recovery now e h in Pays h d.health d.trace × IsCalm d.health
attempt-Pays now e h c k = elim (Bool-cases e.cancelled_start) [
  | inl x ↦ rw (attempt_not_started now e h x) (cancelled-Pays h c)
  | inr x ↦
      rw (attempt_started now e h x) (conclude-Pays now h (ladder e).actions (ladder e).result k)
]

back_off-Pays :
    (b : Bool) (h : Health)
    → max_recovery_attempts ≤ h.attempts
    → h.attempts ≤ max_recovery_attempts
    → let d = back_off b h in Pays h d.health d.trace × IsCalm d.health
unfolding back_off mark_recovery_failed mark_normal published successes
back_off-Pays b h k l = ground arith

failure-Pays :
    (now : ℕ) (f : Failure) (h : Health)
    → IsCalm h
    → let d = handle_modem_failure now f h in Pays h d.health d.trace × IsCalm d.health
unfolding handle_modem_failure can_recover published successes
failure-Pays now f h c =
    ground (arith, attempt-Pays now f.attempt h c, back_off-Pays f.backoff_cancelled h)

failures-Pays :
    (fs : List (ℕ × Failure)) (h : Health)
    → IsCalm h
    → Pays h (failures fs h).1 (failures fs h).0 × IsCalm (failures fs h).1
unfolding failures published successes
failures-Pays [] h c = (omega arith, c)
failures-Pays ((now, f) ∷ fs) h c =
    let d = handle_modem_failure now f h in
    let (pays, calm) = failure-Pays now f h c in
    let (rest, end) = failures-Pays fs d.health calm in
    (simp (published-append, successes-append) (omega arith), end)

-- In any run of modem failures from a fresh start, whatever fails, is cancelled or is busy: there
-- are at most five attempts more than five for each backoff and each recovery, no failure leads to
-- the permanent state, and each ends in the normal state with at most five attempts counted.
pub attempts_bounded :
    (fs : List (ℕ × Failure))
    → let (trace, h) = failures fs new in
      (published recovering trace
        ≤ max_recovery_attempts * (1 + published failed_wait trace + successes trace))
      × (published permanent_failure trace ≡ 0)
      × (h.state ≡ normal)
      × (h.attempts ≤ max_recovery_attempts)
unfolding new
attempts_bounded fs =
    let (pays, calm) = failures-Pays fs new (ground arith) in
    (omega (arith, pays, calm), pays.1, calm.settled, calm.capped)
