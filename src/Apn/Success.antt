-- ===== src/Apn/Success.antt =====
-- What a transaction of the APN manager has checked when it succeeds (internal/apn/manager.go).
use modem_service.Prelude.{
  Bool, true, false, ◌||◌, ◌≡◌, ◌≢◌, inl, inr, refl, sym, ◌∙◌, Option, none, some, List, Bool-cases,
  arith, leb, ltb,
}
use modem_service.Apn.{
  Config, Input, Manager, Snapshot, ConnectionState, PendingRollback, AttachContext, is_empty,
  valid_config, parse_mm_settings, no_config,
}
use modem_service.Apn.Calls.{World, Event, Result, ok, err, Progress}
use modem_service.Apn.Transaction.{
  Prepared, Applied, undone, undo, finish, start, transact, apply_from, apply,
}
use modem_service.Apn.Rules.{Post}
use modem_service.Apn.Reconcile.{
  Reconciled, Outcome, applied, reconcile, observe, acted, act, settle, note_input, in_place,
  max_apply_attempts, fine, unconfigured, error, no_sim, iccid_changed_cleared, read_current, idle,
}
use modem_service.Apn.Cases.{IsQuiet, reconcile_cases, choose_cases}
use modem_service.Apn.Verified.{Verified, body_ends}

true-ne-false : true ≢ false
true-ne-false = λ e. ground arith

error-ne-applied : error ≢ applied
error-ne-applied = λ e. ground arith

cleared-ne-applied : iccid_changed_cleared ≢ applied
cleared-ne-applied = λ e. ground arith

unconfigured-ne-applied : unconfigured ≢ applied
unconfigured-ne-applied = λ e. ground arith

fine-ne-applied : fine ≢ applied
fine-ne-applied = λ e. ground arith

module _ (w : World) (cfg : Config) where
  abbrev WhenDone : Applied → Type 0
  WhenDone r = r.done ≡ true → Verified w cfg r.trace

  undone_fails : (m : Manager) (r : Result (Unit {0}) × Progress) → (undone m r).done ≡ false
  unfolding undone
  undone_fails m (ok u, t) = refl
  undone_fails m (err e, t) = refl

  finish_ends :
      (p : PendingRollback) (m : Manager) (r : Result AttachContext × Progress)
      → Post (λ a t. Verified w cfg t.trace) (λ t. Unit) r
      → WhenDone (finish w p m r)
  unfolding finish undo Post
  finish_ends p m (ok a, t) v d = v
  finish_ends p m (err e, t) v d = absurd (true-ne-false (sym d ∙ undone_fails m _))

  transact_ends : (q : Prepared) (m : Manager) (h : List Event) → WhenDone (transact w cfg q m h)
  unfolding transact
  transact_ends q m h =
      elim (Bool-cases (valid_config (parse_mm_settings q.rollback_to.before.mm))) [
        | inl e ↦ rw e (
            finish_ends q.rollback_to _ _
              ((body_ends w cfg q.rollback_to.state).after (start q h) tt))
        | inr e ↦ rw e (λ d. absurd (true-ne-false (sym d)))
      ]

  apply_from_ends :
      (req : Input) (before : Snapshot) (clear_sim : Bool) (m : Manager) (h : List Event)
      (s : Option ConnectionState)
      → WhenDone (apply_from w req cfg before clear_sim m h s)
  unfolding apply_from
  apply_from_ends req before clear_sim m h none d = absurd (true-ne-false (sym d))
  apply_from_ends req before clear_sim m h (some s) d = transact_ends _ m _ d

  abbrev WhenApplied : Reconciled → Type 0
  WhenApplied r = r.outcome ≡ applied → Verified w cfg r.trace

  settle_ends :
      (clear_sim : Bool) (req : Input) (r : Applied)
      → WhenDone r
      → WhenApplied (settle w clear_sim req cfg r)
  unfolding settle
  settle_ends clear_sim req r v = elim (Bool-cases r.done) [
    | inl e ↦ rw e (λ o. v e)
    | inr e ↦ rw e (λ o. absurd (error-ne-applied o))
  ]

  act_ends :
      (clear_sim : Bool) (req : Input) (m : Manager) (before : Snapshot) (h : List Event)
      → WhenApplied (act w clear_sim req cfg m before h)
  unfolding act apply
  act_ends clear_sim req m before h = elim (Bool-cases (in_place req cfg before m)) [
    | inl e ↦ elim (Bool-cases clear_sim) [
      | inl f ↦ rw (e, f) (λ o. absurd (cleared-ne-applied o))
      | inr f ↦ elim (Bool-cases (is_empty cfg)) [
        | inl g ↦ rw (e, f, g) (λ o. absurd (unconfigured-ne-applied o))
        | inr g ↦ rw (e, f, g) (λ o. absurd (fine-ne-applied o))
      ]
    ]
    | inr e ↦ elim (Bool-cases (leb max_apply_attempts m.attempts || ltb (w.now h) m.retry_at)) [
      | inl f ↦ rw (e, f) (λ o. absurd (error-ne-applied o))
      | inr f ↦
          rw (e, f)
            (settle_ends clear_sim req _ (apply_from_ends req before clear_sim m h (w.state h)))
    ]
  ]

  acted_ends :
      (clear_sim : Bool) (req : Input) (m : Manager) (r : Result Snapshot × Progress)
      → WhenApplied (acted w clear_sim req cfg m r)
  unfolding acted
  acted_ends clear_sim req m (ok before, t) o = act_ends clear_sim req m before t.trace o
  acted_ends clear_sim req m (err e, t) o = absurd (error-ne-applied o)

-- After a swap the outcome is not `applied`.
abbrev NotApplied : Reconciled → Type 0
NotApplied r = r.outcome ≢ applied

settle_swapped :
    (w : World) (req : Input) (cfg : Config) (r : Applied) → NotApplied (settle w true req cfg r)
unfolding settle
settle_swapped w req cfg r = elim (Bool-cases r.done) [
  | inl e ↦ rw e cleared-ne-applied
  | inr e ↦ rw e error-ne-applied
]

act_swapped :
    (w : World) (req : Input) (cfg : Config) (m : Manager) (before : Snapshot) (h : List Event)
    → NotApplied (act w true req cfg m before h)
unfolding act
act_swapped w req cfg m before h = elim (Bool-cases (in_place req cfg before m)) [
  | inl e ↦ rw e cleared-ne-applied
  | inr e ↦ elim (Bool-cases (leb max_apply_attempts m.attempts || ltb (w.now h) m.retry_at)) [
    | inl f ↦ rw (e, f) error-ne-applied
    | inr f ↦ rw (e, f) (settle_swapped w req cfg _)
  ]
]

acted_swapped :
    (w : World) (req : Input) (cfg : Config) (m : Manager) (r : Result Snapshot × Progress)
    → NotApplied (acted w true req cfg m r)
unfolding acted
acted_swapped w req cfg m (ok before, t) = act_swapped w req cfg m before t.trace
acted_swapped w req cfg m (err e, t) = error-ne-applied

quiet-ne-applied : (o : Outcome) → IsQuiet o → o ≢ applied
quiet-ne-applied no_sim q = λ e. ground arith
quiet-ne-applied unconfigured q = λ e. ground arith
quiet-ne-applied fine q = absurd q
quiet-ne-applied applied q = absurd q
quiet-ne-applied iccid_changed_cleared q = absurd q
quiet-ne-applied error q = λ e. ground arith

-- Where `Reconcile` answers that it applied the configuration, the calls end in this order: the
-- context of CID1 is read and is the configured one, the profile of NetworkManager is read and is the
-- configured one, the modem registers, the connection is made, the context is read again and is still
-- the configured one unless the configuration is empty, and the commit is accepted.
pub reconcile_applied :
    (w : World) (busy : Bool) (req : Input) (m : Manager)
    → (reconcile w busy req m).outcome ≡ applied
    → Verified w req.desired (reconcile w busy req m).trace
unfolding observe
reconcile_applied w busy req m =
    let P : Reconciled → Type 0 = λ r. WhenApplied w req.desired r in
    reconcile_cases w P req busy m (λ o q e. absurd (quiet-ne-applied o q e))
      (λ v.
        choose_cases w P req (note_input req m) (λ o q e. absurd (quiet-ne-applied o q e))
          (λ x e. absurd (acted_swapped w req no_config _ (read_current w idle) e))
          (λ x b. acted_ends w req.desired false req _ (read_current w idle)))
