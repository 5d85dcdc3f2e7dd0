-- ===== src/Apn/Tests.antt =====
-- Tests of the APN manager (internal/apn), and its theorems at concrete inputs.
use modem_service.Prelude.{
  ℕ, ◌≤◌, String, Bool, true, false, not, if◌then◌else◌, str_eq, none, some, List, [], ◌∷◌, ◌++◌,
  ◌≡◌, ◌⊎◌, refl, All, arith,
}
use modem_service.Apn.{
  Config, Input, Manager, new, Snapshot, PendingRollback, Library, no_config, no_context, is_empty,
  equal_nm, auth_name, equal, context_eq, desired_context, valid_at_value, valid_auth, valid_config,
  lookup, encode_auth, decode_auth, parse_mm_settings, encode_mm_settings, trim_left, trim_right,
  trim_space, after_prefix, split_lines, parse_record, parse_line, parse_lines, parse_cid1,
}
use modem_service.Apn.Calls.{
  World, Write, Command, query_contexts, deregister, register, clear_context, clear_auth,
  define_context, set_auth, set_gsm, set_eps, set_autoconnect, disconnect, connect, commit, Event,
  gsm_read, eps_read, state_read, wrote, sent, Progress, gathered, gather, attempted, attempt,
  answered, bound, raise_any, raise_gathered, write, command, get_gsm, get_eps, read_cid,
  context_command, auth_method, auth_command, write_cid, write_auth,
}
use modem_service.Apn.Transaction.{
  prepare, empty_snapshot, tolerate, set_mm, verify_cid, verify_nm, suspend, configure, activate,
  body, detach, check_restored_cid, restore_modem, restore, reconnect, resume, rollback, undone,
  undo, finish, transact, apply_from, apply,
}
use modem_service.Apn.Reconcile.{
  reconcile, choose, observe, acted, act, settle, schedule_retry, read_current, in_place,
  cid_matches, verified, record_success, sim_swapped, note_input, is_new, max_apply_attempts,
}
use modem_service.Apn.Events.{Extends}
use modem_service.Apn.Swap.{Clears, swap-Clears}
use modem_service.Apn.Safety.{IsSafe, reconciles, resets, run, run-IsSafe}
use modem_service.Apn.Verified.{Verified}
use modem_service.Apn.Nmcli.{read_gsm}
use modem_service.Apn.Shown.{free, shown, read_gsm-shown}
use modem_service.Apn.Success.{reconcile_applied}
use modem_service.Apn.Attempts.{runs, has_start, transactions, transactions_bounded}
use modem_service.Apn.Undo.{Settled, undo_restores, StaysOff, undo-StaysOff}

abbrev internet : Config
internet = record { apn = "internet"; username = "me"; password = "secret"; auth = "chap" }

-- A modem and a NetworkManager that keep what is stored in them.
abbrev stored_gsm : List Event → Config
stored_gsm [] = no_config
stored_gsm (gsm_read r ∷ h) = stored_gsm h
stored_gsm (eps_read r ∷ h) = stored_gsm h
stored_gsm (state_read r ∷ h) = stored_gsm h
stored_gsm (sent c r ∷ h) = stored_gsm h
stored_gsm (wrote (set_gsm c) b ∷ h) = c
stored_gsm (wrote (set_eps s) b ∷ h) = stored_gsm h
stored_gsm (wrote (set_autoconnect a) b ∷ h) = stored_gsm h
stored_gsm (wrote disconnect b ∷ h) = stored_gsm h
stored_gsm (wrote connect b ∷ h) = stored_gsm h
stored_gsm (wrote (commit a) b ∷ h) = stored_gsm h

abbrev stored_context : List Event → String
stored_context [] = "AT+CGDCONT?"
stored_context (gsm_read r ∷ h) = stored_context h
stored_context (eps_read r ∷ h) = stored_context h
stored_context (state_read r ∷ h) = stored_context h
stored_context (wrote c b ∷ h) = stored_context h
stored_context (sent query_contexts r ∷ h) = stored_context h
stored_context (sent deregister r ∷ h) = stored_context h
stored_context (sent register r ∷ h) = stored_context h
stored_context (sent clear_context r ∷ h) = stored_context h
stored_context (sent clear_auth r ∷ h) = stored_context h
stored_context (sent (set_auth n u p) r ∷ h) = stored_context h
stored_context (sent (define_context t a) r ∷ h) =
    if str_eq a "" then "+CGDCONT: 1,IPV4V6," else "+CGDCONT: 1,ip,internet"

abbrev library : Library
library = record {
  csv = λ s.
      if str_eq s "1,ip,internet"
      then some ("1" ∷ "ip" ∷ "internet" ∷ [])
      else if str_eq s "1,IPV4V6,"
      then some ("1" ∷ "IPV4V6" ∷ "" ∷ [])
      else none;
  to_upper = λ s. if str_eq s "ip" then "IP" else s;
}

abbrev good : World
good = record {
  get_gsm = λ h. some (stored_gsm h);
  get_eps = λ h. some [];
  state = λ h. some (record { autoconnect = true; active = true });
  accepts = λ h c. true;
  send = λ h c. some (stored_context h);
  cancelled = λ h. false;
  now = λ h. 1000;
  library = library;
}

-- The same, with a modem that does not deregister.
abbrev is_deregister : Command → Bool
is_deregister query_contexts = false
is_deregister deregister = true
is_deregister register = false
is_deregister clear_context = false
is_deregister clear_auth = false
is_deregister (define_context t a) = false
is_deregister (set_auth n u p) = false

abbrev stubborn : ℕ → World
stubborn now = record good {
  send = λ h c. if is_deregister c then none else some (stored_context h);
  now = λ h. now;
}

abbrev over : World
over = record good { cancelled = λ h. true }

abbrev request : Input
request = record { iccid = "8949"; modem_path = "/Modem/0"; desired = internet }

abbrev swapped : Manager
swapped = record {
  pending = none;
  last_applied_iccid = "8900";
  last_applied_path = "/Modem/0";
  last_applied_config = internet;
  last_applied_cid = no_context;
  blocked_iccid = "";
  blocked_config = no_config;
  retry_input = record { iccid = "8900"; modem_path = "/Modem/0"; desired = internet };
  attempts = 0;
  retry_at = 0;
}

abbrev fresh : Manager
fresh = record swapped { last_applied_iccid = "" }

abbrev snapshot : Snapshot
snapshot = record {
  nm = no_config;
  mm = [];
  cid = record { present = true; pdp_type = "IPV4V6"; apn = "" };
}

abbrev to_roll_back : PendingRollback
to_roll_back = record {
  before = snapshot;
  state = record { autoconnect = true; active = true };
  iccid = "8949";
}

abbrev broken_off : Progress
broken_off = record {
  trace = wrote (set_gsm internet) true ∷ [];
  changed = true;
  detached = true;
  failures = [];
}

swap-Clears_example : All Clears (reconcile good false request swapped).trace
unfolding sim_swapped
swap-Clears_example = swap-Clears good false request swapped refl

run-IsSafe_example :
    All (All IsSafe) (
      run (reconciles good false request ∷ resets ∷ reconciles (stubborn 0) false request ∷ []) new)
run-IsSafe_example =
    run-IsSafe (reconciles good false request ∷ resets ∷ reconciles (stubborn 0) false request ∷ [])

undo-StaysOff_example :
    Extends
      (wrote (set_gsm internet) true ∷ [])
      StaysOff
      (undo over to_roll_back swapped broken_off).trace
undo-StaysOff_example = undo-StaysOff over to_roll_back swapped broken_off (λ l. refl)

undo_restores_example :
    ((undo good to_roll_back swapped broken_off).manager ≡ swapped)
    ⊎ (((undo good to_roll_back swapped broken_off).manager ≡ record swapped { pending = none })
        × Settled good
            (wrote (set_gsm internet) true ∷ [])
            to_roll_back
            (undo good to_roll_back swapped broken_off).trace)
undo_restores_example = undo_restores good to_roll_back swapped broken_off refl

-- Everything that a call of `Reconcile` opens.
reconcile_applied_example : Verified good internet (reconcile good false request fresh).trace
unfolding reconcile choose observe acted act settle schedule_retry read_current in_place cid_matches
    verified record_success sim_swapped note_input is_new apply apply_from transact finish undo
    undone rollback resume reconnect restore restore_modem check_restored_cid detach body activate
    configure suspend verify_nm verify_cid set_mm tolerate empty_snapshot prepare write_auth
    write_cid auth_command auth_method context_command read_cid get_eps get_gsm command write
    raise_gathered raise_any bound answered gather gathered attempt attempted parse_cid1 parse_lines
    parse_line parse_record split_lines after_prefix trim_space trim_right trim_left
    encode_mm_settings parse_mm_settings decode_auth encode_auth lookup valid_config valid_auth
    valid_at_value desired_context context_eq equal auth_name equal_nm is_empty
reconcile_applied_example = reconcile_applied good false request fresh refl

abbrev tries : List (World × Bool)
tries =
    (stubborn 0, false)
    ∷ (stubborn 29, false)
    ∷ (stubborn 40, false)
    ∷ (stubborn 200, false)
    ∷ (stubborn 900, false)
    ∷ []

transactions_bounded_example : transactions (runs request tries fresh) ≤ max_apply_attempts
unfolding runs reconcile choose observe acted act settle schedule_retry read_current in_place
    cid_matches verified record_success sim_swapped note_input is_new apply apply_from transact
    finish undo undone rollback resume reconnect restore restore_modem check_restored_cid detach
    body activate configure suspend verify_nm verify_cid set_mm tolerate empty_snapshot prepare
    write_auth write_cid auth_command auth_method context_command read_cid get_eps get_gsm command
    write raise_gathered raise_any bound answered gather gathered attempt attempted parse_cid1
    parse_lines parse_line parse_record split_lines after_prefix trim_space trim_right trim_left
    encode_mm_settings parse_mm_settings decode_auth encode_auth lookup valid_config valid_auth
    valid_at_value desired_context context_eq equal auth_name equal_nm is_empty
transactions_bounded_example =
    transactions_bounded request tries fresh (omega arith)
      (refl, (refl, (refl, (refl, (refl, tt)))))

three_transactions : transactions (runs request tries fresh) ≡ 3
unfolding transactions has_start runs reconcile choose observe acted act settle schedule_retry
    read_current in_place cid_matches verified record_success sim_swapped note_input is_new apply
    apply_from transact finish undo undone rollback resume reconnect restore restore_modem
    check_restored_cid detach body activate configure suspend verify_nm verify_cid set_mm tolerate
    empty_snapshot prepare write_auth write_cid auth_command auth_method context_command read_cid
    get_eps get_gsm command write raise_gathered raise_any bound answered gather gathered attempt
    attempted parse_cid1 parse_lines parse_line parse_record split_lines after_prefix trim_space
    trim_right trim_left encode_mm_settings parse_mm_settings decode_auth encode_auth lookup
    valid_config valid_auth valid_at_value desired_context context_eq equal auth_name equal_nm
    is_empty
three_transactions = refl

-- The attach settings of ModemManager are refused, and so is every registration; a context without
-- an APN was defined before.
abbrev refuses_eps : Write → Bool
refuses_eps (set_gsm c) = false
refuses_eps (set_eps s) = true
refuses_eps (set_autoconnect b) = false
refuses_eps disconnect = false
refuses_eps connect = false
refuses_eps (commit b) = false

abbrev is_register : Command → Bool
is_register query_contexts = false
is_register deregister = false
is_register register = true
is_register clear_context = false
is_register clear_auth = false
is_register (define_context t a) = false
is_register (set_auth n u p) = false

abbrev falls_back : World
falls_back = record good {
  accepts = λ h c. not (refuses_eps c);
  send = λ h c.
      if is_register c
      then none
      else some (stored_context (h ++ sent (define_context "IPV4V6" "") none ∷ []));
}

-- Whether the last calls are the commit of a rollback and the registration after it.
abbrev commits_last : List Event → Bool
commits_last (sent register none ∷ wrote (commit true) true ∷ h) = true
commits_last _ = false

-- The refusal has no part in the rollback, which goes on to the commit; only the registration after
-- that keeps it pending.
tolerated_refusal : commits_last (reconcile falls_back false request fresh).trace ≡ true
unfolding reconcile choose observe acted act settle schedule_retry read_current in_place cid_matches
    verified record_success sim_swapped note_input is_new apply apply_from transact finish undo
    undone rollback resume reconnect restore restore_modem check_restored_cid detach body activate
    configure suspend verify_nm verify_cid set_mm tolerate empty_snapshot prepare write_auth
    write_cid auth_command auth_method context_command read_cid get_eps get_gsm command write
    raise_gathered raise_any bound answered gather gathered attempt attempted parse_cid1 parse_lines
    parse_line parse_record split_lines after_prefix trim_space trim_right trim_left
    encode_mm_settings parse_mm_settings decode_auth encode_auth lookup valid_config valid_auth
    valid_at_value desired_context context_eq equal auth_name equal_nm is_empty
tolerated_refusal = refl

read_gsm-shown_example : read_gsm (some (shown internet)) ≡ some (record internet { auth = "" })
unfolding free
read_gsm-shown_example = read_gsm-shown internet (refl, refl) (refl, refl) (refl, refl)
