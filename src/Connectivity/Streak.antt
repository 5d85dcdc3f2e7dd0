-- ===== src/Connectivity/Streak.antt =====
-- What precedes a change of the committed state (internal/modem/connectivity/classifier.go).
use mathlib.Core.List.{append_assoc, append-nil}
use modem_service.Prelude.{
  ℕ, ◌+◌, ◌≤◌, ◌≡◌, ◌≢◌, ◌⊎◌, inl, inr, refl, sym, ap, ◌∙◌, List, [], ◌∷◌, ◌++◌, arith, Bool-cases,
}
use modem_service.Connectivity.{
  State, unknown, Inputs, Classifier, raw_state, commit_delay, classify, force, new, state_eq,
}
use modem_service.Connectivity.Hysteresis.{
  state_eq→eq, since, fold_raw_fresh, fold_raw-pending, fold_raw-committed,
}
use modem_service.Connectivity.Trace.{Shows, Shows-snoc}

-- A call of `Classify` or of `Force`, with its time.
pub data Call : Type 0 where
  observes : Inputs → ℕ → Call
  forces : State → ℕ → Call

unfoldable pub called : Classifier → Call → Classifier
called c (observes i now) = classify c i now
called c (forces s now) = force c s now

unfoldable pub called_all : Classifier → List Call → Classifier
called_all c [] = c
called_all c (x ∷ xs) = called_all (called c x) xs

abbrev pub observed : List (Inputs × ℕ) → List Call
observed [] = []
observed ((i, now) ∷ os) = observes i now ∷ observed os

abbrev pub FirstAt : ℕ → List (Inputs × ℕ) → Type 0
FirstAt t [] = ⊥
FirstAt t ((i, now) ∷ os) = now ≡ t

-- The history `h` ends in a run of calls of `Classify` that all show `s`, the first of them made
-- at `t`.
pub record Streak (s : State) (t : ℕ) (h : List Call) : Type 0 where
  pub before : List Call
  pub during : List (Inputs × ℕ)
  pub split : h ≡ before ++ observed during
  pub shown : Shows s during
  pub first : FirstAt t during

-- The pending state is the committed one, or all recent calls have shown it since `pendingSince`.
Pends : Classifier → List Call → Type 0
Pends c h = (c.pending ≡ c.committed) ⊎ Streak c.pending c.pending_since h

FirstAt-snoc :
    (t : ℕ) (os : List (Inputs × ℕ)) (i : Inputs) (now : ℕ)
    → FirstAt t os
    → FirstAt t (os ++ (i, now) ∷ [])
FirstAt-snoc t [] i now h = absurd h
FirstAt-snoc t (o ∷ os) i now h = h

observed-snoc :
    (os : List (Inputs × ℕ)) (i : Inputs) (now : ℕ)
    → observed (os ++ (i, now) ∷ []) ≡ observed os ++ observes i now ∷ []
observed-snoc [] i now = refl
observed-snoc ((j, t) ∷ os) i now = ap (λ l. observes j t ∷ l) (observed-snoc os i now)

extend-Streak :
    (s : State) (t : ℕ) (h : List Call) (i : Inputs) (now : ℕ)
    → raw_state i ≡ s
    → Streak s t h
    → Streak s t (h ++ observes i now ∷ [])
extend-Streak s t h i now r k = record {
  before = k.before;
  during = k.during ++ (i, now) ∷ [];
  split =
      ap (λ l. l ++ observes i now ∷ []) k.split
      ∙ append_assoc k.before (observed k.during) (observes i now ∷ [])
      ∙ ap (λ l. k.before ++ l) (sym (observed-snoc k.during i now));
  shown = Shows-snoc s k.during i now k.shown r;
  first = FirstAt-snoc t k.during i now k.first;
}

start-Streak :
    (h : List Call) (i : Inputs) (now : ℕ) → Streak (raw_state i) now (h ++ observes i now ∷ [])
start-Streak h i now = record {
  before = h;
  during = (i, now) ∷ [];
  split = refl;
  shown = (refl, tt);
  first = refl;
}

-- What an observation adds, unless its state is both the pending and the committed one.
observed-Streak :
    (c : Classifier) (h : List Call) (i : Inputs) (now : ℕ)
    → Pends c h
    → ((raw_state i ≡ c.pending) × (c.pending ≡ c.committed))
      ⊎ Streak (raw_state i) (since c (raw_state i) now) (h ++ observes i now ∷ [])
unfolding Pends
observed-Streak c h i now k = elim (Bool-cases (state_eq (raw_state i) c.pending)) [
  | inr e ↦ inr (rw (e, since) (start-Streak h i now))
  | inl e ↦
      let q = state_eq→eq _ _ e in
      elim k [
        | inl p ↦ inl (q, p)
        | inr p ↦ inr (rw (e, since, q) (extend-Streak c.pending c.pending_since h i now q p))
      ]
]

classify-Pends :
    (c : Classifier) (h : List Call) (i : Inputs) (now : ℕ)
    → Pends c h
    → Pends (classify c i now) (h ++ observes i now ∷ [])
unfolding Pends classify
classify-Pends c h i now k = elim (Bool-cases (state_eq c.committed unknown)) [
  | inl e ↦ inl (rw (fold_raw_fresh c (raw_state i) now (state_eq→eq _ _ e)) refl)
  | inr e ↦
      let n : c.committed ≢ unknown = λ p. ground arith in
      let (p, t) = fold_raw-pending c (raw_state i) now n in
      elim (observed-Streak c h i now k) [
        | inl (q, m) ↦ inl (ground (arith, fold_raw-committed c (raw_state i) now n))
        | inr x ↦ inr (rw (p, t) x)
      ]
]

called-Pends :
    (c : Classifier) (h : List Call) (x : Call) → Pends c h → Pends (called c x) (h ++ x ∷ [])
unfolding called force Pends
called-Pends c h (observes i now) k = classify-Pends c h i now k
called-Pends c h (forces s now) k = inl refl

called_all-Pends :
    (c : Classifier) (done h : List Call) → Pends c done → Pends (called_all c h) (done ++ h)
unfolding called_all
called_all-Pends c done [] k = rw append-nil k
called_all-Pends c done (x ∷ h) k =
    rw append_assoc at (called_all-Pends (called c x) (done ++ x ∷ []) h (called-Pends c done x k))

-- After any calls of `Classify` and `Force` on a fresh classifier, also none, a call of `Classify` that
-- changes a committed state (other than the empty one of a fresh classifier) commits what it
-- observes, and the calls end in an unbroken run of calls of `Classify` that observe that state,
-- this one included, whose first one lies at least the delay of the transition back.
pub change_needs-Streak :
    (h : List Call) (j : Inputs) (now : ℕ)
    → let c = called_all new h in
      c.committed ≢ unknown
      → (classify c j now).committed ≢ c.committed
      → ((classify c j now).committed ≡ raw_state j)
        × (from : ℕ) × Streak (raw_state j) from (h ++ observes j now ∷ [])
        × (from + commit_delay c.committed (raw_state j) ≤ now)
unfolding classify Pends new
change_needs-Streak h j now n d =
    let c = called_all new h in
    let f = fold_raw-committed c (raw_state j) now n in
    elim (observed-Streak c h j now (called_all-Pends new [] h (inl refl))) [
      | inl (q, m) ↦ absurd (ground arith)
      | inr x ↦ (ground arith, since c (raw_state j) now, x, ground arith)
    ]
