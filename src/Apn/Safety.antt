-- ===== src/Apn/Safety.antt =====
-- What reaches the modem as an AT command (internal/apn/manager.go): the values that are quoted in one
-- hold no delimiter, over every run of the APN manager.
use modem_service.Prelude.{
  String, Bool, true, false, not, ◌&&◌, ◌||◌, ◌==◌, Option, none, some, List, [], ◌∷◌, ◌≡◌, refl,
  sym, subst, All, if-elim, inl, inr, Option-cases, str_eq, arith,
}
use modem_service.Apn.{
  Config, Input, Manager, new, reset_retry, Snapshot, ConnectionState, PendingRollback,
  AttachContext, no_context, no_config, desired_context, valid_config, valid_at_value, valid_auth,
  supported_pdp, Library, parse_record, parse_line, parse_lines, parse_cid1, trim_space,
  after_prefix, split_lines,
}
use modem_service.Apn.Calls.{
  World, Command, query_contexts, deregister, register, clear_context, clear_auth, define_context,
  set_auth, Event, gsm_read, eps_read, state_read, wrote, sent, context_command, auth_command,
  auth_method,
}
use modem_service.Apn.Transaction.{prepare, empty_snapshot}
use modem_service.Apn.Events.{Neutral, Joins}
use modem_service.Apn.Applied.{StoresConfig, Restores, observe_calls}
use modem_service.Apn.Reconcile.{Reconciled, reconcile, observe, note_input}
use modem_service.Apn.Cases.{reconcile_cases, choose_cases, note_input_pending}
use modem_service.Apn.Pending.{reconcile_pending}

abbrev pub IsSafeCommand : Command → Type 0
IsSafeCommand query_contexts = Unit
IsSafeCommand deregister = Unit
IsSafeCommand register = Unit
IsSafeCommand clear_context = Unit
IsSafeCommand clear_auth = Unit
IsSafeCommand (define_context pdp_type apn) = (supported_pdp pdp_type && valid_at_value apn) ≡ true
IsSafeCommand (set_auth method username password) =
    (valid_at_value username && valid_at_value password) ≡ true

abbrev pub IsSafe : Event → Type 0
IsSafe (gsm_read r) = Unit
IsSafe (eps_read r) = Unit
IsSafe (state_read r) = Unit
IsSafe (wrote c b) = Unit
IsSafe (sent c r) = IsSafeCommand c

abbrev pub IsSafeContext : AttachContext → Type 0
IsSafeContext c = c.present ≡ true → (supported_pdp c.pdp_type && valid_at_value c.apn) ≡ true

parse_record_safe :
    (l : Library) (c a : AttachContext) (o : Option (List String))
    → IsSafeContext c
    → parse_record l c o ≡ some a
    → IsSafeContext a
unfolding parse_record
parse_record_safe l c a none s e = absurd (ground arith)
parse_record_safe l c a (some []) s e = absurd (ground arith)
parse_record_safe l c a (some (x ∷ [])) s e = absurd (ground arith)
parse_record_safe l c a (some (x ∷ y ∷ [])) s e = absurd (ground arith)
parse_record_safe l c a (some (i ∷ t ∷ x ∷ xs)) s e = ground arith

parse_line_safe :
    (l : Library) (c a : AttachContext) (line : String)
    → IsSafeContext c
    → parse_line l c line ≡ some a
    → IsSafeContext a
unfolding parse_line
parse_line_safe l c a line s e = elim (Option-cases (after_prefix "+CGDCONT:" (trim_space line))) [
  | inl f ↦ ground arith
  | inr (r, f) ↦ parse_record_safe l c a (l.csv (trim_space r)) s (rw (f, parse_line) at e)
]

parse_lines_safe :
    (l : Library) (c a : AttachContext) (lines : List String)
    → IsSafeContext c
    → parse_lines l c lines ≡ some a
    → IsSafeContext a
unfolding parse_lines
parse_lines_safe l c a [] s e = ground arith
parse_lines_safe l c a (x ∷ xs) s e = elim (Option-cases (parse_line l c x)) [
  | inl f ↦ absurd (ground arith)
  | inr (n, f) ↦ parse_lines_safe l n a xs (parse_line_safe l c n x s f) (rw (f, parse_lines) at e)
]

parse_cid1_safe :
    (l : Library) (r : String) (a : AttachContext) → parse_cid1 l r ≡ some a → IsSafeContext a
unfolding parse_cid1
parse_cid1_safe l r a e = parse_lines_safe l no_context a (split_lines r) (λ x. ground arith) e

valid_values :
    (c : Config)
    → valid_config c ≡ true
    → (valid_at_value c.apn ≡ true)
      × ((valid_at_value c.username && valid_at_value c.password) ≡ true)
unfolding valid_config
valid_values c v = ground arith

desired_context_safe : (c : Config) → valid_config c ≡ true → IsSafeContext (desired_context c)
unfolding desired_context
desired_context_safe c v x =
    let e = (valid_values c v).0 in
    if-elim (λ t. (supported_pdp t && valid_at_value c.apn) ≡ true) (str_eq c.apn "") _ _
      (λ f. rw e refl) (λ f. rw e refl)

context_command_safe : (c : AttachContext) → IsSafeContext c → IsSafeCommand (context_command c)
unfolding context_command
context_command_safe c s = if-elim IsSafeCommand c.present _ _ s (λ e. tt)

auth_command_safe : (c : Config) → valid_config c ≡ true → IsSafeCommand (auth_command c)
unfolding auth_command
auth_command_safe c v =
    if-elim IsSafeCommand
      (not (auth_method c.auth == 0) && (not (str_eq c.username "") || not (str_eq c.password "")))
      (set_auth (auth_method c.auth) c.username c.password) clear_auth (λ e. (valid_values c v).1)
      (λ e. tt)

IsSafe-neutral : Neutral IsSafe
IsSafe-neutral = record {
  nm = λ r. tt;
  queried = λ r. tt;
  deregistered = λ r. tt;
  suspended = λ b. tt;
  disconnected = λ b. tt;
}

IsSafe-joins : Joins IsSafe
IsSafe-joins = record { registered = λ r. tt; connected = λ b. tt }

IsSafe-config : (c : Config) → valid_config c ≡ true → StoresConfig IsSafe c
IsSafe-config c v = record {
  nm_stored = λ b. tt;
  mm_stored = λ b. tt;
  cid_stored = λ r. context_command_safe _ (desired_context_safe c v);
  auth_stored = λ x r. auth_command_safe c x;
}

IsSafe-snapshot : (s : Snapshot) → IsSafeContext s.cid → Restores IsSafe s
IsSafe-snapshot s c = record {
  nm_stored = λ b. tt;
  mm_stored = λ b. tt;
  cid_stored = λ r. context_command_safe _ c;
  auth_stored = λ x r. auth_command_safe _ x;
}

abbrev pub IsSafePending : Option PendingRollback → Type 0
IsSafePending none = Unit
IsSafePending (some p) = IsSafeContext p.before.cid

empty_safe : IsSafeContext empty_snapshot.cid
unfolding empty_snapshot desired_context valid_at_value
empty_safe e = refl

prepare_safe :
    (req : Input) (before : Snapshot) (s : ConnectionState) (clear_sim : Bool)
    (o : Option PendingRollback)
    → IsSafePending o
    → IsSafeContext before.cid
    → IsSafeContext (prepare req before s clear_sim o).rollback_to.before.cid
unfolding prepare
prepare_safe req before s clear_sim none k b =
    if-elim (λ (x : Snapshot). IsSafeContext x.cid) clear_sim empty_snapshot before
      (λ e. empty_safe) (λ e. b)
prepare_safe req before s clear_sim (some p) k b =
    let P : Snapshot → Type 0 = λ x. IsSafeContext x.cid in
    let same = str_eq p.iccid req.iccid in
    if-elim P (clear_sim || not same) empty_snapshot _ (λ e. empty_safe)
      (λ e. if-elim P same p.before before (λ f. k) (λ f. b))

observe-IsSafe :
    (w : World) (clear_sim : Bool) (req : Input) (cfg : Config) (m : Manager)
    → valid_config cfg ≡ true
    → IsSafePending m.pending
    → All IsSafe (observe w clear_sim req cfg m).trace
observe-IsSafe w clear_sim req cfg m v k =
    observe_calls w IsSafe IsSafe-neutral IsSafe-joins req cfg clear_sim m (IsSafe-config cfg v)
      (λ s. tt) IsSafeContext (λ r. tt) (parse_cid1_safe w.library)
      (λ before c s.
        (IsSafe-snapshot _ (prepare_safe req before s clear_sim m.pending k c), λ b. tt))

empty_valid : valid_config no_config ≡ true
unfolding valid_config valid_at_value valid_auth
empty_valid = refl

reconcile-IsSafe :
    (w : World) (busy : Bool) (req : Input) (m : Manager)
    → IsSafePending m.pending
    → All IsSafe (reconcile w busy req m).trace
reconcile-IsSafe w busy req m k =
    let P : Reconciled → Type 0 = λ r. All IsSafe r.trace in
    let e = note_input_pending req m in
    let k' = subst IsSafePending (sym e) k in
    reconcile_cases w P req busy m (λ o u. tt)
      (λ v.
        choose_cases w P req (note_input req m) (λ o u. tt)
          (λ x. observe-IsSafe w true req no_config _ empty_valid k')
          (λ x b. observe-IsSafe w false req req.desired _ v k'))

reconcile_keeps_safe :
    (w : World) (busy : Bool) (req : Input) (m : Manager)
    → IsSafePending m.pending
    → IsSafePending (reconcile w busy req m).manager.pending
reconcile_keeps_safe w busy req m k =
    reconcile_pending w IsSafePending tt IsSafeContext busy req m (parse_cid1_safe w.library)
      (λ clear_sim before s b. prepare_safe req before s clear_sim m.pending k b) k

-- The operations of the manager that change its state.
pub data Step : Type 0 where
  reconciles : World → (busy : Bool) → Input → Step
  resets : Step

-- The traces of the calls, the first call's first.
unfoldable pub run : List Step → Manager → List (List Event)
run [] m = []
run (resets ∷ ss) m = run ss (reset_retry m)
run (reconciles w busy req ∷ ss) m = let r = reconcile w busy req m in r.trace ∷ run ss r.manager

run-IsSafe_from :
    (ss : List Step) (m : Manager) → IsSafePending m.pending → All (All IsSafe) (run ss m)
unfolding run reset_retry
run-IsSafe_from [] m k = tt
run-IsSafe_from (resets ∷ ss) m k = run-IsSafe_from ss _ k
run-IsSafe_from (reconciles w busy req ∷ ss) m k =
    (reconcile-IsSafe w busy req m k, run-IsSafe_from ss _ (reconcile_keeps_safe w busy req m k))

-- In a run of a new manager, whatever is configured and answered, every context that is written to
-- the modem has a supported PDP type and an APN without the characters that would end its argument
-- or add another, and every name and password that is written has none of them either: those of a
-- rollback, which stem from what was read, included.
pub run-IsSafe : (ss : List Step) → All (All IsSafe) (run ss new)
unfolding new
run-IsSafe ss = run-IsSafe_from ss new tt
