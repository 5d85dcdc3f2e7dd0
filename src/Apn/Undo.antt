-- ===== src/Apn/Undo.antt =====
-- What the rollback of a transaction gives back, and that it stays off a network that is not to be
-- joined any more (internal/apn/manager.go).
use modem_service.Prelude.{
  true, not, ◌≡◌, ◌≢◌, ◌⊎◌, inl, inr, refl, sym, subst, none, List, [], arith, str_eq, ◌&&◌, ◌||◌,
  ◌==◌, if-elim,
}
use modem_service.Apn.{Config, Manager, Snapshot, PendingRollback, AttachContext, parse_mm_settings}
use modem_service.Apn.Calls.{
  World, register, clear_context, clear_auth, define_context, set_auth, connect, Event, gsm_read,
  eps_read, state_read, wrote, sent, Result, ok, err, Progress, context_command, auth_command,
  auth_method,
}
use modem_service.Apn.Transaction.{undone, undo, rollback}
use modem_service.Apn.Rules.{Post}
use modem_service.Apn.Events.{Neutral, HasEnded, Extends}
use modem_service.Apn.Applied.{Restores, undo_calls}
use modem_service.Apn.Rollback.{Saw, IsContext, IsProfile, IsCommit, Committed, rollback_ends}

-- Since a trace, the context and the profile of a snapshot were read, and its policy was committed.
abbrev pub Settled : World → List Event → PendingRollback → List Event → Type 0
Settled w h p h' =
    Saw (IsContext w p.before.cid) h h'
    × Saw (IsProfile p.before.nm) h h'
    × Saw (IsCommit p.state.autoconnect) h h'

undone_restores :
    (w : World) (h : List Event) (p : PendingRollback) (m : Manager)
    (r : Result (Unit {0}) × Progress)
    → Post (λ u. Committed w h p.before p.state) (λ t. Unit) r
    → ((undone m r).manager ≡ m)
      ⊎ (((undone m r).manager ≡ record m { pending = none }) × Settled w h p (undone m r).trace)
unfolding undone Post
undone_restores w h p m (ok u, t) c = inr (refl, (c.0.0, c.0.1, c.1))
undone_restores w h p m (err e, t) c = inl refl

-- After an error in a transaction that is marked as having changed something, either the manager stays
-- as it is, or only what is to be rolled back is dropped from it; and where it is dropped, after the
-- error, the modem's context was read as that of the snapshot, the profile of NetworkManager was read
-- as that of the snapshot, and a commit with the autoconnect policy from before the transaction was
-- accepted.
pub undo_restores :
    (w : World) (p : PendingRollback) (m : Manager) (t : Progress)
    → t.changed ≡ true
    → ((undo w p m t).manager ≡ m)
      ⊎ (((undo w p m t).manager ≡ record m { pending = none })
          × Settled w t.trace p (undo w p m t).trace)
unfolding undo
undo_restores w p m t c = undone_restores w t.trace p m _ (
    subst
      (λ b.
        Post (λ u. Committed w t.trace p.before p.state) (λ t. Unit)
          (rollback w p.before p.state b t.detached t))
      (sym c) ((rollback_ends w t.trace p.before p.state t.detached).after t ([], refl, tt)))

-- A call that does not join the network.
abbrev pub StaysOff : Event → Type 0
StaysOff (gsm_read r) = Unit
StaysOff (eps_read r) = Unit
StaysOff (state_read r) = Unit
StaysOff (wrote c b) = c ≢ connect
StaysOff (sent c r) = c ≢ register

off_neutral : Neutral StaysOff
off_neutral = record {
  nm = λ r. tt;
  queried = λ r e. ground arith;
  deregistered = λ r e. ground arith;
  suspended = λ b e. ground arith;
  disconnected = λ b e. ground arith;
}

context_off : (c : AttachContext) → context_command c ≢ register
unfolding context_command
context_off c =
    if-elim (λ x. x ≢ register) c.present (define_context c.pdp_type c.apn) clear_context
      (λ e f. ground arith) (λ e f. ground arith)

auth_off : (c : Config) → auth_command c ≢ register
unfolding auth_command
auth_off c =
    if-elim (λ x. x ≢ register)
      (not (auth_method c.auth == 0) && (not (str_eq c.username "") || not (str_eq c.password "")))
      (set_auth (auth_method c.auth) c.username c.password) clear_auth (λ e f. ground arith)
      (λ e f. ground arith)

off-Restores : (s : Snapshot) → Restores StaysOff s
off-Restores s = record {
  nm_stored = λ b e. ground arith;
  mm_stored = λ b e. ground arith;
  cid_stored = λ r. context_off s.cid;
  auth_stored = λ v r. auth_off (parse_mm_settings s.mm);
}

-- Where the operation has ended before the rollback starts, and stays so, no call of the rollback
-- registers the modem or makes the connection.
pub undo-StaysOff :
    (w : World) (p : PendingRollback) (m : Manager) (t : Progress)
    → HasEnded w t.trace
    → Extends t.trace StaysOff (undo w p m t).trace
undo-StaysOff w p m t e =
    undo_calls w StaysOff off_neutral t.trace p m t (λ c. off-Restores p.before) (inr e)
      (λ b e. ground arith) ([], refl, tt)
