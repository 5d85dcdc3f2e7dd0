-- ===== src/Connectivity/Hysteresis.antt =====
-- What one call of `Classify` does, on every branch (internal/modem/connectivity/classifier.go).
use modem_service.Prelude.{
  ℕ, ◌+◌, ◌≤◌, ◌≡◌, refl, ◌≢◌, ◌⊎◌, ◌↔◌, inl, inr, true, false, ◌||◌, arith, Bool-cases, str_eq,
}
use modem_service.Connectivity.{
  State, unknown, connected, disconnected, disabled, no_sim, denied, failed, state_eq, Inputs,
  Classifier, raw_state, commit_delay, fold_raw, classify,
}

pub state_eq→eq : (a b : State) → state_eq a b ≡ true → a ≡ b
state_eq→eq unknown unknown h = refl
state_eq→eq connected connected h = refl
state_eq→eq disconnected disconnected h = refl
state_eq→eq disabled disabled h = refl
state_eq→eq no_sim no_sim h = refl
state_eq→eq denied denied h = refl
state_eq→eq failed failed h = refl
state_eq→eq _ _ h = cc

pub state_eq_refl : (a : State) → state_eq a a ≡ true
state_eq_refl unknown = refl
state_eq_refl connected = refl
state_eq_refl disconnected = refl
state_eq_refl disabled = refl
state_eq_refl no_sim = refl
state_eq_refl denied = refl
state_eq_refl failed = refl

pub state_eq-false : (a b : State) → a ≢ b → state_eq a b ≡ false
state_eq-false a b h = ground (arith, state_eq→eq a b)

pub raw_state-ne-unknown : (i : Inputs) → raw_state i ≢ unknown
unfolding raw_state
raw_state-ne-unknown i = ground arith

-- The raw state is `connected` exactly when the modem is enabled and not broken, the SIM is
-- neither missing nor inactive, the registration neither denied nor failed, and the modem
-- reports a connection: every other condition takes precedence over the connection.
pub raw_state-connected_iff :
    (i : Inputs)
    → (raw_state i ≡ connected) ↔ (
        (i.enabled ≡ true)
        × (i.hard_failed ≡ false)
        × ((str_eq i.sim_state "missing" || str_eq i.sim_state "inactive") ≡ false)
        × ((str_eq i.registration "denied" || str_eq i.registration "failed") ≡ false)
        × (str_eq i.modem_status "connected" ≡ true))
unfolding raw_state
raw_state-connected_iff i = ground arith

-- The first observation is committed at once.
pub fold_raw_fresh :
    (c : Classifier) (s : State) (now : ℕ)
    → c.committed ≡ unknown
    → fold_raw c s now ≡ record { committed = s; pending = s; pending_since = now }
unfolding fold_raw
fold_raw_fresh c s now h = ground arith

-- What `pendingSince` is after an observation of `s`.
abbrev pub since : Classifier → State → ℕ → ℕ
since c s now = elim (state_eq s c.pending) [ true ↦ c.pending_since | false ↦ now ]

pub fold_raw-pending :
    (c : Classifier) (s : State) (now : ℕ)
    → c.committed ≢ unknown
    → ((fold_raw c s now).pending ≡ s) × ((fold_raw c s now).pending_since ≡ since c s now)
unfolding fold_raw
fold_raw-pending c s now h =
    ground (arith, state_eq→eq c.committed unknown, state_eq→eq s c.pending)

pub fold_raw-committed :
    (c : Classifier) (s : State) (now : ℕ)
    → c.committed ≢ unknown
    → ((fold_raw c s now).committed ≡ c.committed)
      ⊎ (((fold_raw c s now).committed ≡ s) × (since c s now + commit_delay c.committed s ≤ now))
unfolding fold_raw
fold_raw-committed c s now h =
    ground (arith, state_eq→eq c.committed unknown, state_eq→eq s c.pending)

pub fold_raw_ripe :
    (c : Classifier) (s : State) (now : ℕ)
    → c.committed ≢ unknown
    → since c s now + commit_delay c.committed s ≤ now
    → (fold_raw c s now).committed ≡ s
unfolding fold_raw
fold_raw_ripe c s now h k =
    ground
      (arith, state_eq→eq c.committed unknown, state_eq→eq s c.pending, state_eq→eq s c.committed)

-- A call changes a committed state only to the state it observes, and only if that state has
-- been the pending one, without a break, for at least the delay of the transition.
pub classify_change :
    (c : Classifier) (i : Inputs) (now : ℕ)
    → c.committed ≢ unknown
    → (classify c i now).committed ≢ c.committed
    → ((classify c i now).committed ≡ raw_state i)
      × ((classify c i now).pending ≡ raw_state i)
      × ((classify c i now).pending_since + commit_delay c.committed (raw_state i) ≤ now)
unfolding classify
classify_change c i now h k =
    ground (arith, fold_raw-committed c (raw_state i) now h, fold_raw-pending c (raw_state i) now h)

-- A disabled modem, a missing SIM and a broken modem are committed by the call that first
-- observes them, if that is not before the pending state was first seen.
pub classify_decisive :
    (c : Classifier) (i : Inputs) (now : ℕ)
    → c.pending_since ≤ now
    → (raw_state i ≡ disabled) ⊎ (raw_state i ≡ no_sim) ⊎ (raw_state i ≡ failed)
    → (classify c i now).committed ≡ raw_state i
unfolding classify commit_delay
classify_decisive c i now h k = elim (Bool-cases (state_eq c.committed unknown)) [
  | inl e ↦ ground (arith, fold_raw_fresh c (raw_state i) now (state_eq→eq _ _ e))
  | inr e ↦
      let n : c.committed ≢ unknown = λ p. ground arith in
      fold_raw_ripe c (raw_state i) now n (ground arith)
]
