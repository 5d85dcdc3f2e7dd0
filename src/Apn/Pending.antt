-- ===== src/Apn/Pending.antt =====
-- What `Reconcile` leaves to roll back (internal/apn/manager.go).
use modem_service.Prelude.{
  String, Bool, true, false, ◌||◌, Option, none, some, List, ◌≡◌, sym, subst, inl, inr, Bool-cases,
  leb, ltb,
}
use modem_service.Apn.{
  Config, Input, Manager, Snapshot, ConnectionState, PendingRollback, AttachContext, parse_cid1,
  valid_config, parse_mm_settings, no_config,
}
use modem_service.Apn.Calls.{World, Event, Result, ok, err, Progress}
use modem_service.Apn.Transaction.{
  Prepared, prepare, Applied, undone, undo, finish, transact, apply_from, apply,
}
use modem_service.Apn.Rules.{Post}
use modem_service.Apn.Reconcile.{
  Reconciled, reconcile, observe, acted, act, settle, note_input, in_place, max_apply_attempts,
  record_success, schedule_retry,
}
use modem_service.Apn.Cases.{reconcile_cases, choose_cases, note_input_pending}
use modem_service.Apn.Applied.{read_current_cid}

module _ (w : World) (K : Option PendingRollback → Type 0) (nothing : K none) where
  undone_pending :
      (m : Manager) (r : Result (Unit {0}) × Progress)
      → K m.pending
      → K (undone m r).manager.pending
  unfolding undone
  undone_pending m (ok u, t) k = nothing
  undone_pending m (err e, t) k = k

  finish_pending :
      (p : PendingRollback) (m : Manager) (r : Result AttachContext × Progress)
      → K m.pending
      → K (finish w p m r).manager.pending
  unfolding finish undo
  finish_pending p m (ok a, t) k = nothing
  finish_pending p m (err e, t) k = undone_pending m _ k

  transact_pending :
      (cfg : Config) (q : Prepared) (m : Manager) (h : List Event)
      → K m.pending
      → K (some q.rollback_to)
      → K (transact w cfg q m h).manager.pending
  unfolding transact
  transact_pending cfg q m h k s =
      elim (Bool-cases (valid_config (parse_mm_settings q.rollback_to.before.mm))) [
        | inl e ↦
            rw e (finish_pending q.rollback_to (record m { pending = some q.rollback_to }) _ s)
        | inr e ↦ rw e k
      ]

  module _ (req : Input) (cfg : Config) (clear_sim : Bool) (m : Manager) (k : K m.pending) where
    abbrev Leaves : Snapshot → Type 0
    Leaves before =
        (s : ConnectionState) → K (some (prepare req before s clear_sim m.pending).rollback_to)

    apply_from_pending :
        (before : Snapshot) (h : List Event) (s : Option ConnectionState)
        → Leaves before
        → K (apply_from w req cfg before clear_sim m h s).manager.pending
    unfolding apply_from
    apply_from_pending before h none l = k
    apply_from_pending before h (some s) l = transact_pending cfg _ m _ k (l s)

    settle_pending :
        (r : Applied) → K r.manager.pending → K (settle w clear_sim req cfg r).manager.pending
    unfolding settle record_success schedule_retry
    settle_pending r p = elim (Bool-cases r.done) [
      | inl e ↦ elim (Bool-cases clear_sim) [ inl f ↦ rw (e, f) p | inr f ↦ rw (e, f) p ]
      | inr e ↦ rw e p
    ]

    act_pending :
        (before : Snapshot) (h : List Event)
        → Leaves before
        → K (act w clear_sim req cfg m before h).manager.pending
    unfolding act apply record_success
    act_pending before h l = elim (Bool-cases (in_place req cfg before m)) [
      | inl e ↦ elim (Bool-cases clear_sim) [ inl f ↦ rw (e, f) k | inr f ↦ rw (e, f) k ]
      | inr e ↦ elim (Bool-cases (leb max_apply_attempts m.attempts || ltb (w.now h) m.retry_at)) [
        | inl f ↦ rw (e, f) k
        | inr f ↦ rw (e, f) (settle_pending _ (apply_from_pending before h (w.state h) l))
      ]
    ]

    acted_pending :
        (R : AttachContext → Type 0) (r : Result Snapshot × Progress)
        → Post (λ s t. R s.cid) (λ t. Unit) r
        → ((before : Snapshot) → R before.cid → Leaves before)
        → K (acted w clear_sim req cfg m r).manager.pending
    unfolding acted Post
    acted_pending R (ok before, t) p l = act_pending before t.trace (l before p)
    acted_pending R (err e, t) p l = k

    observe_pending :
        (R : AttachContext → Type 0)
        → ((r : String) (a : AttachContext) → parse_cid1 w.library r ≡ some a → R a)
        → ((before : Snapshot) → R before.cid → Leaves before)
        → K (observe w clear_sim req cfg m).manager.pending
    unfolding observe
    observe_pending R f l = acted_pending R _ (read_current_cid w R f) l

  -- What holds of no rollback and of every rollback that a call may start holds after the call.
  pub reconcile_pending :
      (R : AttachContext → Type 0) (busy : Bool) (req : Input) (m : Manager)
      → ((r : String) (a : AttachContext) → parse_cid1 w.library r ≡ some a → R a)
      → ((clear_sim : Bool) (before : Snapshot) (s : ConnectionState)
          → R before.cid
          → K (some (prepare req before s clear_sim m.pending).rollback_to))
      → K m.pending
      → K (reconcile w busy req m).manager.pending
  reconcile_pending R busy req m f l k =
      let P : Reconciled → Type 0 = λ r. K r.manager.pending in
      let e = note_input_pending req m in
      let k' : K (note_input req m).pending = subst K (sym e) k in
      let L : Option PendingRollback → Type 0 = λ o.
        (clear_sim : Bool) (before : Snapshot) (s : ConnectionState)
        → R before.cid
        → K (some (prepare req before s clear_sim o).rollback_to) in
      let l' : L (note_input req m).pending = subst L (sym e) l in
      reconcile_cases w P req busy m (λ o u. k)
        (λ v.
          choose_cases w P req (note_input req m) (λ o u. k')
            (λ x. observe_pending req no_config true _ k' R f (λ b p s. l' true b s p))
            (λ x b.
              observe_pending req req.desired false
                (record (note_input req m) { blocked_iccid = b }) k' R f (λ b p s. l' false b s p)))
