-- ===== src/Apn/Swap.antt =====
-- A swapped SIM and the credentials of the one before (internal/apn/manager.go).
use modem_service.Prelude.{
  Bool, true, false, Option, none, some, ◌≡◌, ◌≢◌, refl, sym, subst, ◌∙◌, All, arith,
}
use modem_service.Apn.{
  Input, Manager, Snapshot, ConnectionState, PendingRollback, no_config, encode_mm_settings,
  desired_context, parse_mm_settings, lookup, encode_auth, decode_auth,
}
use modem_service.Apn.Calls.{
  World, Command, query_contexts, deregister, register, clear_context, clear_auth, define_context,
  set_auth, Write, set_gsm, set_eps, set_autoconnect, disconnect, connect, commit, Event, gsm_read,
  eps_read, state_read, wrote, sent, context_command, auth_command, auth_method,
}
use modem_service.Apn.Transaction.{prepare, empty_snapshot}
use modem_service.Apn.Events.{Neutral, Joins}
use modem_service.Apn.Applied.{StoresConfig, Restores, observe_calls}
use modem_service.Apn.Reconcile.{Reconciled, reconcile, observe, sim_swapped, note_input}
use modem_service.Apn.Cases.{reconcile_cases, choose_cases, note_input_swapped}

abbrev pub ClearsWrite : Write → Type 0
ClearsWrite (set_gsm c) = c ≡ no_config
ClearsWrite (set_eps s) = s ≡ encode_mm_settings no_config
ClearsWrite (set_autoconnect b) = Unit
ClearsWrite disconnect = Unit
ClearsWrite connect = Unit
ClearsWrite (commit b) = Unit

abbrev pub ClearsCommand : Command → Type 0
ClearsCommand query_contexts = Unit
ClearsCommand deregister = Unit
ClearsCommand register = Unit
ClearsCommand clear_context = Unit
ClearsCommand clear_auth = Unit
ClearsCommand (define_context pdp_type apn) = apn ≡ ""
ClearsCommand (set_auth method username password) = ⊥

-- A call that, where it stores settings, stores empty ones.
abbrev pub Clears : Event → Type 0
Clears (gsm_read r) = Unit
Clears (eps_read r) = Unit
Clears (state_read r) = Unit
Clears (wrote c b) = ClearsWrite c
Clears (sent c r) = ClearsCommand c

Clears-neutral : Neutral Clears
Clears-neutral = record {
  nm = λ r. tt;
  queried = λ r. tt;
  deregistered = λ r. tt;
  suspended = λ b. tt;
  disconnected = λ b. tt;
}

Clears-joins : Joins Clears
Clears-joins = record { registered = λ r. tt; connected = λ b. tt }

Clears-config : StoresConfig Clears no_config
unfolding desired_context context_command auth_command auth_method
Clears-config = record {
  nm_stored = λ b. refl;
  mm_stored = λ b. refl;
  cid_stored = λ r. refl;
  auth_stored = λ v r. tt;
}

Clears-snapshot : Restores Clears empty_snapshot
unfolding empty_snapshot desired_context context_command auth_command auth_method parse_mm_settings
    encode_mm_settings lookup encode_auth decode_auth
Clears-snapshot = record {
  nm_stored = λ b. refl;
  mm_stored = λ b. refl;
  cid_stored = λ r. refl;
  auth_stored = λ v r. tt;
}

prepare_swapped :
    (req : Input) (before : Snapshot) (s : ConnectionState) (o : Option PendingRollback)
    → (prepare req before s true o).rollback_to.before ≡ empty_snapshot
unfolding prepare
prepare_swapped req before s none = refl
prepare_swapped req before s (some p) = refl

true-ne-false : true ≢ false
true-ne-false = λ e. ground arith

swapped-Clears :
    (w : World) (req : Input) (m : Manager) → All Clears (observe w true req no_config m).trace
swapped-Clears w req m =
    observe_calls w Clears Clears-neutral Clears-joins req no_config true m Clears-config (λ s. tt)
      (λ a. Unit) (λ r. tt) (λ r a e. tt)
      (λ before u s. (
        subst (Restores Clears) (sym (prepare_swapped req before s m.pending)) Clears-snapshot,
        λ b. tt,
      ))

-- Where the last SIM that was configured is another one than the SIM of the input, no call of
-- `Reconcile` stores settings other than empty ones: neither in the profile of NetworkManager, nor in
-- the attach settings of ModemManager, nor in the modem's context and authentication, whatever is
-- answered, what a transaction before left to roll back included.
pub swap-Clears :
    (w : World) (busy : Bool) (req : Input) (m : Manager)
    → sim_swapped req m ≡ true
    → All Clears (reconcile w busy req m).trace
swap-Clears w busy req m s =
    let P : Reconciled → Type 0 = λ r. All Clears r.trace in
    reconcile_cases w P req busy m (λ o u. tt)
      (λ v.
        choose_cases w P req (note_input req m) (λ o u. tt)
          (λ e. swapped-Clears w req (note_input req m))
          (λ e. absurd (true-ne-false (sym s ∙ sym (note_input_swapped req m) ∙ e))))
