-- ===== src/Connectivity/Trace.antt =====
-- What sequences of calls of `Classify` do (internal/modem/connectivity/classifier.go).
use modem_service.Prelude.{
  ℕ, ◌+◌, ◌≤◌, ◌<◌, ◌≡◌, ◌≢◌, ◌⊎◌, inl, inr, List, [], ◌∷◌, ◌++◌, arith, All, Bool-cases,
}
use modem_service.Connectivity.{
  State, unknown, connected, disconnected, Inputs, Classifier, raw_state, commit_delay,
  offline_debounce, classify, run, state_eq,
}
use modem_service.Connectivity.Hysteresis.{
  state_eq→eq, state_eq_refl, raw_state-ne-unknown, fold_raw_fresh, fold_raw-pending,
  fold_raw-committed, fold_raw_ripe,
}

pub classify-ne-unknown :
    (c : Classifier) (i : Inputs) (now : ℕ) → (classify c i now).committed ≢ unknown
unfolding classify
classify-ne-unknown c i now h = elim (Bool-cases (state_eq c.committed unknown)) [
  | inl e ↦
      ground (arith, fold_raw_fresh c (raw_state i) now (state_eq→eq _ _ e), raw_state-ne-unknown i)
  | inr e ↦
      let n : c.committed ≢ unknown = λ p. ground arith in
      ground (arith, fold_raw-committed c (raw_state i) now n, raw_state-ne-unknown i)
]

-- Every observation is of a connection, or of a plain loss of it less than the offline delay
-- after the last connection, which was seen at `last`.
abbrev pub Flickers : ℕ → List (Inputs × ℕ) → Type 0
Flickers last [] = Unit
Flickers last ((i, now) ∷ os) =
    ((raw_state i ≡ connected) × Flickers now os)
    ⊎ ((raw_state i ≡ disconnected)
        × (last ≤ now)
        × (now < last + offline_debounce)
        × Flickers last os)

step_connected :
    (c : Classifier) (i : Inputs) (now : ℕ)
    → c.committed ≡ connected
    → raw_state i ≡ connected
    → ((classify c i now).committed ≡ connected) × ((classify c i now).pending ≡ connected)
unfolding classify
step_connected c i now h r =
    let n : c.committed ≢ unknown = λ p. cc in
    ground (arith, fold_raw-committed c (raw_state i) now n, fold_raw-pending c (raw_state i) now n)

step_lost :
    (c : Classifier) (last : ℕ) (i : Inputs) (now : ℕ)
    → c.committed ≡ connected
    → (c.pending ≡ connected) ⊎ (last ≤ c.pending_since)
    → raw_state i ≡ disconnected
    → last ≤ now
    → now < last + offline_debounce
    → ((classify c i now).committed ≡ connected) × (last ≤ (classify c i now).pending_since)
unfolding classify commit_delay
step_lost c last i now h k r l m =
    let n : c.committed ≢ unknown = λ p. cc in
    ground (arith, fold_raw-committed c (raw_state i) now n, fold_raw-pending c (raw_state i) now n)

-- A connected classifier, whose pending state is the connection or has been pending only since
-- the last observed connection, stays connected through any number of losses of the connection
-- that are each observed less than the offline delay after the last observed connection.
pub run_flicker :
    (c : Classifier) (last : ℕ) (os : List (Inputs × ℕ))
    → c.committed ≡ connected
    → (c.pending ≡ connected) ⊎ (last ≤ c.pending_since)
    → Flickers last os
    → (run c os).committed ≡ connected
unfolding run
run_flicker c last [] h k f = h
run_flicker c last ((i, now) ∷ os) h k (inl (r, f)) =
    let (h', p) = step_connected c i now h r in run_flicker (classify c i now) now os h' (inl p) f
run_flicker c last ((i, now) ∷ os) h k (inr (r, l, m, f)) =
    let (h', p) = step_lost c last i now h k r l m in
    run_flicker (classify c i now) last os h' (inr p) f

-- Every observation is of `s`.
abbrev pub Shows : State → List (Inputs × ℕ) → Type 0
Shows s = All (λ o. raw_state o.0 ≡ s)

pub Shows-snoc :
    (s : State) (os : List (Inputs × ℕ)) (i : Inputs) (now : ℕ)
    → Shows s os
    → raw_state i ≡ s
    → Shows s (os ++ (i, now) ∷ [])
Shows-snoc s [] i now h r = (r, tt)
Shows-snoc s (o ∷ os) i now h r = (h.0, Shows-snoc s os i now h.1 r)

-- `s` is committed, or it is pending since `t` at the latest.
abbrev Ripens : State → State → ℕ → Classifier → Type 0
Ripens from s t c =
    (c.committed ≡ s) ⊎ ((c.committed ≡ from) × (c.pending ≡ s) × (c.pending_since ≤ t))

step-Ripens :
    (from s : State) (t : ℕ) (c : Classifier) (i : Inputs) (now : ℕ)
    → from ≢ unknown
    → raw_state i ≡ s
    → Ripens from s t c
    → Ripens from s t (classify c i now)
unfolding classify
step-Ripens from s t c i now n r h =
    let m : c.committed ≢ unknown = λ p. ground (arith, raw_state-ne-unknown i) in
    ground (
      arith,
      fold_raw-committed c (raw_state i) now m,
      fold_raw-pending c (raw_state i) now m,
      state_eq_refl s,
    )

last-Ripens :
    (from s : State) (t : ℕ) (c : Classifier) (j : Inputs) (end : ℕ)
    → from ≢ unknown
    → raw_state j ≡ s
    → t + commit_delay from s ≤ end
    → Ripens from s t c
    → (classify c j end).committed ≡ s
unfolding classify
last-Ripens from s t c j end n r d h =
    let m : c.committed ≢ unknown = λ p. ground (arith, raw_state-ne-unknown j) in
    ground (
      arith,
      fold_raw-committed c (raw_state j) end m,
      fold_raw_ripe c (raw_state j) end m,
      state_eq_refl s,
    )

run-Ripens :
    (from s : State) (t : ℕ) (c : Classifier) (os : List (Inputs × ℕ)) (j : Inputs) (end : ℕ)
    → from ≢ unknown
    → Shows s (os ++ (j, end) ∷ [])
    → t + commit_delay from s ≤ end
    → Ripens from s t c
    → (run c (os ++ (j, end) ∷ [])).committed ≡ s
unfolding run
run-Ripens from s t c [] j end n w d h = last-Ripens from s t c j end n w.0 d h
run-Ripens from s t c ((i, now) ∷ os) j end n w d h =
    run-Ripens from s t (classify c i now) os j end n w.1 d (step-Ripens from s t c i now n w.0 h)

-- From a classifier that has committed a state, and whose pending state is not from after `t`, a
-- state that all observations show, from the time `t` to the time `end`, is committed at the end
-- if the time between is at least the delay of the transition.
pub run_sustained :
    (c : Classifier) (s : State) (i : Inputs) (t : ℕ) (os : List (Inputs × ℕ)) (j : Inputs)
    (end : ℕ)
    → c.committed ≢ unknown
    → c.pending_since ≤ t
    → Shows s ((i, t) ∷ os ++ (j, end) ∷ [])
    → t + commit_delay c.committed s ≤ end
    → (run c ((i, t) ∷ os ++ (j, end) ∷ [])).committed ≡ s
unfolding run classify
run_sustained c s i t os j end n b w d =
    run-Ripens c.committed s t (classify c i t) os j end n w.1 d
      (ground (arith, fold_raw-committed c (raw_state i) t n, fold_raw-pending c (raw_state i) t n))
