-- ===== src/Apn/Transaction.antt =====
-- internal/apn/manager.go: one transaction, `apply` with its deferred `rollback`.
use modem_service.Prelude.{
  Bool, true, false, not, ◌&&◌, ◌||◌, if◌then◌else◌, str_eq, Option, none, some, List, [], ◌∷◌,
}
use modem_service.Apn.{
  Config, Settings, AttachContext, ConnectionState, Snapshot, PendingRollback, Input, Manager,
  is_empty, equal_nm, context_eq, desired_context, no_config, valid_config, parse_mm_settings,
  encode_mm_settings,
}
use modem_service.Apn.Calls.{
  World, Event, state_read, set_gsm, set_eps, set_autoconnect, disconnect, connect, commit,
  deregister, register, Failure, nm_suspend, nm_disconnect, no_deregister, nm_write, ended, mm_read,
  cid_mismatch, nm_mismatch, no_reattach, nm_connect, cid_changed, nm_commit, Result, ok, err,
  Progress, Action, pure, gather, attempt, gather_none, ◌>>=◌, ◌>>◌, raise_if, mark_changed,
  mark_detached, raise_gathered, write, command, get_gsm, read_cid, write_cid, write_auth,
}

-- `changed` and `detached` as they stand when the first call is made, and what is to be restored.
pub record Prepared : Type 0 where
  pub rollback_to : PendingRollback
  pub changed : Bool
  pub detached : Bool

-- What `encodeMMSettings(Config{})` and the rest of the snapshot of no configuration are.
unfoldable pub empty_snapshot : Snapshot
empty_snapshot = record {
  nm = no_config;
  mm = encode_mm_settings no_config;
  cid = desired_context no_config;
}

abbrev pub to_restore : Snapshot → Bool → Snapshot
to_restore before clear_sim = if clear_sim then empty_snapshot else before

unfoldable pub prepare :
    Input → Snapshot → ConnectionState → Bool → Option PendingRollback → Prepared
prepare req before state clear_sim none = record {
  rollback_to = record { before = to_restore before clear_sim; state = state; iccid = req.iccid };
  changed = clear_sim;
  detached = false;
}
prepare req before state clear_sim (some p) =
    let same = str_eq p.iccid req.iccid in
    record {
      rollback_to = record {
        before = to_restore (if same then p.before else before) (clear_sim || not same);
        state = p.state;
        iccid = req.iccid;
      };
      changed = true;
      detached = true;
    }

pub record Applied : Type 0 where
  pub manager : Manager
  pub done : Bool
  pub trace : List Event

unfoldable pub undone : Manager → Result (Unit {0}) × Progress → Applied
undone m (ok u, t) = record { manager = record m { pending = none }; done = false; trace = t.trace }
undone m (err e, t) = record { manager = m; done = false; trace = t.trace }

abbrev pub start : Prepared → List Event → Progress
start q h = record { trace = h; changed = q.changed; detached = q.detached; failures = [] }

module _ (w : World) where
  unfoldable pub tolerate : Option (Unit {0}) → Action (Unit {0})
  tolerate (some u) t = (ok tt, t)
  tolerate none t = raise_if (w.cancelled t.trace) ended t

  -- The attach settings of ModemManager are optional, unless the operation has ended.
  unfoldable pub set_mm : Settings → Action (Unit {0})
  set_mm s = do done ← attempt (write w (set_eps s) mm_read); tolerate done

  unfoldable pub verify_cid : Config → Action (Unit {0})
  verify_cid cfg = do
    actual ← read_cid w
    raise_if (not (context_eq actual (desired_context cfg))) cid_mismatch

  unfoldable pub verify_nm : Config → Failure → Action (Unit {0})
  verify_nm cfg f = do actual ← get_gsm w; raise_if (not (equal_nm actual cfg)) f

  -- From `SetAutoconnect` to the deregistration.
  unfoldable pub suspend : Action (Unit {0})
  suspend = do
    write w (set_autoconnect false) nm_suspend
    mark_detached
    write w disconnect nm_disconnect
    response ← command w deregister no_deregister
    mark_changed

  -- The writes, and the reads that check them.
  unfoldable pub configure : Config → Action (Unit {0})
  configure cfg = do
    write w (set_gsm cfg) nm_write
    set_mm (encode_mm_settings cfg)
    write_cid w (desired_context cfg)
    write_auth w cfg
    verify_cid cfg
    verify_nm cfg nm_mismatch

  -- From the registration to the commit; the context of CID1 is the result.
  unfoldable pub activate : Config → ConnectionState → Action AttachContext
  activate cfg state = do
    response ← command w register no_reattach
    write w connect nm_connect
    actual ← read_cid w
    raise_if (not (is_empty cfg) && not (context_eq actual (desired_context cfg))) cid_changed
    write w (commit state.autoconnect) nm_commit
    pure actual

  unfoldable pub body : Config → ConnectionState → Action AttachContext
  body cfg state = do suspend; configure cfg; activate cfg state

  unfoldable pub detach : Action (Unit {0})
  detach = do
    write w (set_autoconnect false) nm_suspend
    write w disconnect nm_disconnect
    response ← command w deregister no_deregister
    pure tt

  unfoldable pub check_restored_cid : AttachContext → Action (Unit {0})
  check_restored_cid cid = do
    actual ← read_cid w
    raise_if (not (context_eq actual cid)) cid_mismatch

  -- What only a modem that has been detached gets back.
  unfoldable pub restore_modem : Snapshot → Action (Unit {0})
  restore_modem before = do
    ignored ← attempt (write w (set_eps before.mm) mm_read)
    auth ← gather (write_auth w (parse_mm_settings before.mm))
    cid ← gather (write_cid w before.cid)
    checked ← gather (check_restored_cid before.cid)
    pure tt

  unfoldable pub restore : Snapshot → Action (Unit {0})
  restore before = do
    detached ← gather detach
    written ← gather (write w (set_gsm before.nm) nm_write)
    elim detached [ some u ↦ restore_modem before | none ↦ pure tt ]
    checked ← gather (verify_nm before.nm nm_mismatch)
    pure tt

  unfoldable pub reconnect : ConnectionState → Action (Unit {0})
  reconnect state = do
    response ← command w register no_reattach
    (if state.active then write w connect nm_connect else pure tt)

  unfoldable pub resume : ConnectionState → Action (Unit {0})
  resume state t =
      if w.cancelled t.trace then (ok tt, t) else let r = gather (reconnect state) t in (ok tt, r.1)

  unfoldable pub rollback : Snapshot → ConnectionState → Bool → Bool → Action (Unit {0})
  rollback before state changed detached = do
    gather_none
    (if changed then restore before else pure tt)
    raise_gathered
    write w (commit state.autoconnect) nm_commit
    (if detached then resume state else pure tt)
    raise_gathered

  -- The deferred function after an error.
  unfoldable pub undo : PendingRollback → Manager → Progress → Applied
  undo p m t = undone m (rollback p.before p.state t.changed t.detached t)

  unfoldable pub finish : PendingRollback → Manager → Result AttachContext × Progress → Applied
  finish p m (ok actual, t) = record {
    manager = record m { pending = none; last_applied_cid = actual };
    done = true;
    trace = t.trace;
  }
  finish p m (err e, t) = undo p m t

  unfoldable pub transact : Config → Prepared → Manager → List Event → Applied
  transact cfg q m h =
      if valid_config (parse_mm_settings q.rollback_to.before.mm)
      then finish q.rollback_to (record m { pending = some q.rollback_to })
          (body cfg q.rollback_to.state (start q h))
      else record { manager = m; done = false; trace = h }

  -- From what `State` answers on.
  unfoldable pub apply_from :
      Input → Config → Snapshot → Bool → Manager → List Event → Option ConnectionState → Applied
  apply_from req cfg before clear_sim m h none = record {
    manager = m;
    done = false;
    trace = state_read none ∷ h;
  }
  apply_from req cfg before clear_sim m h (some state) =
      transact cfg (prepare req before state clear_sim m.pending) m (state_read (some state) ∷ h)

  unfoldable pub apply : Input → Config → Snapshot → Bool → Manager → List Event → Applied
  apply req cfg before clear_sim m h = apply_from req cfg before clear_sim m h (w.state h)
