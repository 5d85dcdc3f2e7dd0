-- ===== src/Apn/Attempts.antt =====
-- How often a configuration that fails is tried (internal/apn/manager.go).
use text.Mathlib.TextPositions.{eq_refl}
use modem_service.Prelude.{
  ℕ, suc, ◌+◌, ◌≤◌, ◌<◌, Bool, true, false, ◌||◌, if◌then◌else◌, ◌≡◌, ◌≢◌, ◌⊎◌, inl, inr, refl, ◌∙◌,
  ap, Option, none, some, List, [], ◌∷◌, All, Bool-cases, arith, leb, ltb,
}
use modem_service.Apn.{
  Config, Input, Manager, Snapshot, ConnectionState, PendingRollback, AttachContext, equal,
  is_empty, equal_nm, auth_name, valid_config, parse_mm_settings, no_config,
}
use modem_service.Apn.Calls.{
  World, Event, gsm_read, eps_read, state_read, wrote, sent, Result, ok, err, Progress,
}
use modem_service.Apn.Transaction.{
  Prepared, Applied, undone, undo, finish, transact, apply_from, apply,
}
use modem_service.Apn.Rules.{Post}
use modem_service.Apn.Events.{Neutral, Joins}
use modem_service.Apn.Applied.{read_current_reads}
use modem_service.Apn.Reconcile.{
  Reconciled, unconfigured, error, fine, applied, iccid_changed_cleared, reconcile, observe, acted,
  act, settle, read_current, idle, is_new, note_input, in_place, schedule_retry, max_apply_attempts,
}
use modem_service.Apn.Cases.{reconcile_cases, choose_cases}

-- What a transaction keeps of the manager.
abbrev Same : Manager → Manager → Type 0
Same m n = (n.attempts ≡ m.attempts) × (n.retry_input ≡ m.retry_input)

module _ (w : World) where
  undone-Same : (m : Manager) (r : Result (Unit {0}) × Progress) → Same m (undone m r).manager
  unfolding undone
  undone-Same m (ok u, t) = (refl, refl)
  undone-Same m (err e, t) = (refl, refl)

  finish-Same :
      (p : PendingRollback) (m : Manager) (r : Result AttachContext × Progress)
      → Same m (finish w p m r).manager
  unfolding finish undo
  finish-Same p m (ok a, t) = (refl, refl)
  finish-Same p m (err e, t) = undone-Same m _

  transact-Same :
      (cfg : Config) (q : Prepared) (m : Manager) (h : List Event)
      → Same m (transact w cfg q m h).manager
  unfolding transact
  transact-Same cfg q m h =
      elim (Bool-cases (valid_config (parse_mm_settings q.rollback_to.before.mm))) [
        | inl e ↦ rw e (finish-Same _ (record m { pending = some q.rollback_to }) _)
        | inr e ↦ rw e (refl, refl)
      ]

  apply-Same :
      (req : Input) (cfg : Config) (before : Snapshot) (clear_sim : Bool) (m : Manager)
      (h : List Event) (s : Option ConnectionState)
      → Same m (apply_from w req cfg before clear_sim m h s).manager
  unfolding apply_from
  apply-Same req cfg before clear_sim m h none = (refl, refl)
  apply-Same req cfg before clear_sim m h (some s) = transact-Same cfg _ m _

-- A trace in which no transaction starts: `State` is its first call.
abbrev pub IsRead : Event → Type 0
IsRead (gsm_read r) = Unit
IsRead (eps_read r) = Unit
IsRead (state_read r) = ⊥
IsRead (wrote c b) = Unit
IsRead (sent c r) = Unit

-- A failed call either leaves the count and starts no transaction, or starts one and counts it.
abbrev Failed : Manager → Reconciled → Type 0
Failed m r =
    (r.manager.retry_input ≡ m.retry_input)
    × ((r.manager.attempts ≡ m.attempts) × All IsRead r.trace
        ⊎ (m.attempts < max_apply_attempts) × (r.manager.attempts ≡ suc m.attempts))

abbrev WhenFailed : Manager → Reconciled → Type 0
WhenFailed m r = r.outcome ≡ error → Failed m r

cleared-ne-error : iccid_changed_cleared ≢ error
cleared-ne-error = λ e. ground arith

applied-ne-error : applied ≢ error
applied-ne-error = λ e. ground arith

unconfigured-ne-error : unconfigured ≢ error
unconfigured-ne-error = λ e. ground arith

fine-ne-error : fine ≢ error
fine-ne-error = λ e. ground arith

below : (n : ℕ) (b : Bool) → (leb max_apply_attempts n || b) ≡ false → n < max_apply_attempts
below n b e = ground arith

module _ (w : World) (clear_sim : Bool) (req : Input) (cfg : Config) (m : Manager) where
  settle_failed :
      (r : Applied)
      → Same m r.manager
      → m.attempts < max_apply_attempts
      → WhenFailed m (settle w clear_sim req cfg r)
  unfolding settle schedule_retry
  settle_failed r (a, i) k = elim (Bool-cases r.done) [
    | inl e ↦ elim (Bool-cases clear_sim) [
      | inl f ↦ rw (e, f) (λ o. absurd (cleared-ne-error o))
      | inr f ↦ rw (e, f) (λ o. absurd (applied-ne-error o))
    ]
    | inr e ↦ rw e (λ o. (i, inr (k, omega (arith, a))))
  ]

  act_failed :
      (before : Snapshot) (h : List Event)
      → All IsRead h
      → WhenFailed m (act w clear_sim req cfg m before h)
  unfolding act apply
  act_failed before h x = elim (Bool-cases (in_place req cfg before m)) [
    | inl e ↦ elim (Bool-cases clear_sim) [
      | inl f ↦ rw (e, f) (λ o. absurd (cleared-ne-error o))
      | inr f ↦ elim (Bool-cases (is_empty cfg)) [
        | inl g ↦ rw (e, f, g) (λ o. absurd (unconfigured-ne-error o))
        | inr g ↦ rw (e, f, g) (λ o. absurd (fine-ne-error o))
      ]
    ]
    | inr e ↦ elim (Bool-cases (leb max_apply_attempts m.attempts || ltb (w.now h) m.retry_at)) [
      | inl f ↦ rw (e, f) (λ o. (refl, inl (refl, x)))
      | inr f ↦
          rw (e, f)
            (settle_failed _ (apply-Same w req cfg before clear_sim m h (w.state h))
              (below m.attempts _ f))
    ]
  ]

  acted_failed :
      (r : Result Snapshot × Progress)
      → Post (λ s t. All IsRead t.trace) (λ t. All IsRead t.trace) r
      → WhenFailed m (acted w clear_sim req cfg m r)
  unfolding acted Post
  acted_failed (ok before, t) x o = act_failed before t.trace x o
  acted_failed (err e, t) x o = (refl, inl (refl, x))

IsRead-neutral : Neutral IsRead
IsRead-neutral = record {
  nm = λ r. tt;
  queried = λ r. tt;
  deregistered = λ r. tt;
  suspended = λ b. tt;
  disconnected = λ b. tt;
}

IsRead-joins : Joins IsRead
IsRead-joins = record { registered = λ r. tt; connected = λ b. tt }

observe_failed :
    (w : World) (clear_sim : Bool) (req : Input) (cfg : Config) (m : Manager)
    → WhenFailed m (observe w clear_sim req cfg m)
unfolding observe
observe_failed w clear_sim req cfg m =
    acted_failed w clear_sim req cfg m (read_current w idle)
      (read_current_reads w IsRead IsRead-neutral IsRead-joins (λ r. tt))

-- The attempts as the next call with the input counts them.
abbrev pub counted : Input → Manager → ℕ
counted req m = (note_input req m).attempts

not_new : (req : Input) → is_new req req ≡ false
unfolding is_new equal equal_nm
not_new req =
    rw
      (
        eq_refl req.iccid,
        eq_refl req.modem_path,
        eq_refl req.desired.apn,
        eq_refl req.desired.username,
        eq_refl req.desired.password,
        eq_refl (auth_name req.desired.auth),
      )
      refl

noted : (req : Input) (m : Manager) → is_new req (note_input req m).retry_input ≡ false
unfolding note_input
noted req m = elim (Bool-cases (is_new req m.retry_input)) [
  | inl e ↦ rw e (not_new req)
  | inr e ↦ rw e e
]

counted_old :
    (req : Input) (m : Manager) → is_new req m.retry_input ≡ false → counted req m ≡ m.attempts
unfolding note_input
counted_old req m e = rw (e, counted) refl

-- A call that fails either leaves the count of the attempts and starts no transaction, or the count
-- is below three and grows by one.
failed_step :
    (w : World) (busy : Bool) (req : Input) (m : Manager)
    → let r = reconcile w busy req m in
      r.outcome ≡ error
      → (counted req r.manager ≡ counted req m) × All IsRead r.trace
        ⊎ (counted req m < max_apply_attempts) × (counted req r.manager ≡ suc (counted req m))
failed_step w busy req m =
    let n = note_input req m in
    let P : Reconciled → Type 0 = λ r.
      r.outcome ≡ error
      → (counted req r.manager ≡ n.attempts) × All IsRead r.trace
        ⊎ (n.attempts < max_apply_attempts) × (counted req r.manager ≡ suc n.attempts) in
    let of_failed : (r : Reconciled) → WhenFailed n r → P r = λ r f o.
      let x = f o in
      let c = counted_old req r.manager (ap (is_new req) x.0 ∙ noted req m) in
      elim x.1 [ inl y ↦ inl (c ∙ y.0, y.1) | inr y ↦ inr (y.0, c ∙ y.1) ] in
    reconcile_cases w P req busy m (λ o q e. inl (refl, tt))
      (λ v.
        choose_cases w P req n (λ o q e. inl (counted_old req n (noted req m), tt))
          (λ x. of_failed _ (observe_failed w true req no_config n))
          (λ x b.
            of_failed _ (observe_failed w false req req.desired (record n { blocked_iccid = b }))))

-- The calls of a run with one input, and how many of them start a transaction.
unfoldable pub runs : Input → List (World × Bool) → Manager → List Reconciled
runs req [] m = []
runs req ((w, busy) ∷ ss) m = let r = reconcile w busy req m in r ∷ runs req ss r.manager

abbrev pub is_start : Event → Bool
is_start (gsm_read r) = false
is_start (eps_read r) = false
is_start (state_read r) = true
is_start (wrote c b) = false
is_start (sent c r) = false

unfoldable pub has_start : List Event → Bool
has_start [] = false
has_start (e ∷ h) = is_start e || has_start h

unfoldable pub transactions : List Reconciled → ℕ
transactions [] = 0
transactions (r ∷ rs) = (if has_start r.trace then 1 else 0) + transactions rs

no_start : (h : List Event) → All IsRead h → has_start h ≡ false
unfolding has_start
no_start [] x = refl
no_start (gsm_read r ∷ h) x = no_start h x.1
no_start (eps_read r ∷ h) x = no_start h x.1
no_start (state_read r ∷ h) x = absurd x.0
no_start (wrote c b ∷ h) x = no_start h x.1
no_start (sent c r ∷ h) x = no_start h x.1

at_most_one : (b : Bool) → (if b then 1 else 0) ≤ 1
at_most_one b = ground arith

transactions-counted :
    (req : Input) (ss : List (World × Bool)) (m : Manager)
    → counted req m ≤ max_apply_attempts
    → All (λ r. r.outcome ≡ error) (runs req ss m)
    → transactions (runs req ss m) + counted req m ≤ max_apply_attempts
unfolding runs transactions
transactions-counted req [] m k e = omega (arith, k)
transactions-counted req ((w, busy) ∷ ss) m k (e, es) =
    let r = reconcile w busy req m in
    elim (failed_step w busy req m e) [
      | inl (c, x) ↦
          let n = no_start r.trace x in
          let i = transactions-counted req ss r.manager (omega (arith, c, k)) es in
          rw n (omega (arith, i, c))
      | inr (c, x) ↦
          let i = transactions-counted req ss r.manager (omega (arith, c, x)) es in
          omega (arith, i, c, x, at_most_one (has_start r.trace))
    ]

counted-le :
    (req : Input) (m : Manager)
    → m.attempts ≤ max_apply_attempts
    → counted req m ≤ max_apply_attempts
unfolding note_input
counted-le req m k = elim (Bool-cases (is_new req m.retry_input)) [
  | inl e ↦ rw (e, counted) (omega arith)
  | inr e ↦ rw (e, counted) k
]

-- In a run of calls with one input that all end in an error, from a manager that counts at most three
-- attempts, at most three calls start a transaction, however many there are and whenever they come.
pub transactions_bounded :
    (req : Input) (ss : List (World × Bool)) (m : Manager)
    → m.attempts ≤ max_apply_attempts
    → All (λ r. r.outcome ≡ error) (runs req ss m)
    → transactions (runs req ss m) ≤ max_apply_attempts
transactions_bounded req ss m k e =
    omega (arith, transactions-counted req ss m (counted-le req m k) e)
