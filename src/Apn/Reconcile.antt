-- ===== src/Apn/Reconcile.antt =====
-- internal/apn/manager.go: `Reconcile` and `Reattach`. The mutex is an argument, held or free, and a
-- call starts with an empty trace.
use modem_service.Prelude.{
  ℕ, ◌+◌, ◌*◌, ◌^◌, String, Bool, true, false, not, ◌&&◌, ◌||◌, ◌==◌, ltb, leb, if◌then◌else◌,
  str_eq, Option, none, some, List, [],
}
use modem_service.Apn.{
  Config, Snapshot, Input, Manager, is_empty, equal_nm, equal, context_eq, desired_context,
  no_config, valid_config, parse_mm_settings,
}
use modem_service.Apn.Calls.{
  World, Event, deregister, register, no_deregister, no_reattach, Result, ok, err, Progress, Action,
  pure, ◌>>=◌, command, get_gsm, get_eps, read_cid,
}
use modem_service.Apn.Transaction.{Applied, apply}

pub data Outcome : Type 0 where
  no_sim unconfigured fine applied iccid_changed_cleared error : Outcome

abbrev pub max_apply_attempts : ℕ
max_apply_attempts = 3

abbrev pub retry_delay : ℕ
retry_delay = 30

pub record Reconciled : Type 0 where
  pub manager : Manager
  pub outcome : Outcome
  pub trace : List Event

abbrev pub is_none : {A : Type 0} → Option A → Bool
is_none none = true
is_none (some a) = false

unfoldable pub is_new : Input → Input → Bool
is_new req last =
    not (str_eq req.iccid last.iccid)
    || not (str_eq req.modem_path last.modem_path)
    || not (equal req.desired last.desired)

-- A new input starts a new sequence of attempts.
unfoldable pub note_input : Input → Manager → Manager
note_input req m =
    if is_new req m.retry_input
    then record m { retry_input = req; attempts = 0; retry_at = 0 }
    else m

unfoldable pub sim_swapped : Input → Manager → Bool
sim_swapped req m =
    not (str_eq m.last_applied_iccid "") && not (str_eq m.last_applied_iccid req.iccid)

unfoldable pub record_success : Input → Config → Manager → Manager
record_success req cfg m = record m {
  last_applied_iccid = req.iccid;
  last_applied_path = req.modem_path;
  last_applied_config = cfg;
  attempts = 0;
  retry_at = 0;
}

-- After a swap the new SIM's configuration waits until it is changed.
abbrev pub block : Bool → Input → Manager → Manager
block clear_sim req m =
    if clear_sim then record m { blocked_iccid = req.iccid; blocked_config = req.desired } else m

abbrev pub succeeded : Bool → Input → Config → Outcome → Manager → List Event → Reconciled
succeeded clear_sim req cfg o m h = record {
  manager = block clear_sim req (record_success req cfg m);
  outcome = if clear_sim then iccid_changed_cleared else o;
  trace = h;
}

abbrev pub failed : Manager → List Event → Reconciled
failed m h = record { manager = m; outcome = error; trace = h }

unfoldable pub verified : Input → Config → Manager → Bool
verified req cfg m =
    str_eq m.last_applied_iccid req.iccid
    && str_eq m.last_applied_path req.modem_path
    && equal m.last_applied_config cfg

unfoldable pub cid_matches : Input → Config → Snapshot → Manager → Bool
cid_matches req cfg before m =
    context_eq before.cid (desired_context cfg)
    || (is_empty cfg
        && (str_eq before.cid.apn ""
            || (verified req cfg m && context_eq before.cid m.last_applied_cid)))

-- Nothing is to be done.
unfoldable pub in_place : Input → Config → Snapshot → Manager → Bool
in_place req cfg before m =
    (m.attempts == 0)
    && is_none m.pending
    && equal_nm before.nm cfg
    && cid_matches req cfg before m
    && (equal (parse_mm_settings before.mm) cfg || verified req cfg m)

abbrev pub idle : Progress
idle = record { trace = []; changed = false; detached = false; failures = [] }

module _ (w : World) where
  unfoldable pub read_current : Action Snapshot
  read_current = do
    nm ← get_gsm w
    mm ← get_eps w
    cid ← read_cid w
    pure (record { nm = nm; mm = mm; cid = cid })

  unfoldable pub schedule_retry : Manager → List Event → Manager
  schedule_retry m h = record m {
    attempts = m.attempts + 1;
    retry_at = w.now h + retry_delay * 2 ^ m.attempts;
  }

  unfoldable pub settle : Bool → Input → Config → Applied → Reconciled
  settle clear_sim req cfg r =
      if r.done
      then succeeded clear_sim req cfg applied r.manager r.trace
      else failed (schedule_retry r.manager r.trace) r.trace

  -- From the state that has been read on.
  unfoldable pub act : Bool → Input → Config → Manager → Snapshot → List Event → Reconciled
  act clear_sim req cfg m before h =
      if in_place req cfg before m
      then succeeded clear_sim req cfg (if is_empty cfg then unconfigured else fine)
          (record m { last_applied_cid = before.cid }) h
      else if leb max_apply_attempts m.attempts || ltb (w.now h) m.retry_at
      then failed m h
      else settle clear_sim req cfg (apply w req cfg before clear_sim m h)

  unfoldable pub acted : Bool → Input → Config → Manager → Result Snapshot × Progress → Reconciled
  acted clear_sim req cfg m (ok before, t) = act clear_sim req cfg m before t.trace
  acted clear_sim req cfg m (err e, t) = failed m t.trace

  unfoldable pub observe : Bool → Input → Config → Manager → Reconciled
  observe clear_sim req cfg m = acted clear_sim req cfg m (read_current idle)

  -- What the SIM before or a blocked configuration leave to do.
  unfoldable pub choose : Input → Manager → Reconciled
  choose req m =
      if sim_swapped req m
      then observe true req no_config m
      else if str_eq m.blocked_iccid req.iccid
      then if equal m.blocked_config req.desired
        then record { manager = m; outcome = unconfigured; trace = [] }
        else observe false req req.desired (record m { blocked_iccid = "" })
      else observe false req req.desired m

  unfoldable pub reconcile : Bool → Input → Manager → Reconciled
  reconcile busy req m =
      if str_eq req.iccid ""
      then record { manager = m; outcome = no_sim; trace = [] }
      else if busy
      then failed m []
      else if w.cancelled [] || str_eq req.modem_path ""
      then failed m []
      else if not (valid_config req.desired)
      then failed m []
      else choose req (note_input req m)

  reregister : Action (Unit {0})
  reregister = do
    detached ← command w deregister no_deregister
    attached ← command w register no_reattach
    pure tt

  -- Whether it succeeds, with its calls.
  unfoldable pub reattach : String → Bool → Option (Result (Unit {0}) × Progress)
  unfolding reregister
  reattach path busy = if str_eq path "" || busy then none else some (reregister idle)
