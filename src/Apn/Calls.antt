-- ===== src/Apn/Calls.antt =====
-- internal/apn/manager.go: what a transaction asks of NetworkManager and ModemManager. Their answers
-- are a `World`, which decides each from all that was asked and answered before; a trace holds that,
-- the last call first. An action stops at the first error, as the source's early returns do, and
-- keeps what was written before it.
use modem_service.Prelude.{
  ℕ, String, Bool, true, not, if◌then◌else◌, str_eq, Option, none, some, List, [], ◌∷◌, ◌&&◌, ◌||◌,
  ◌==◌,
}
use modem_service.Apn.{
  Config, Settings, AttachContext, ConnectionState, Library, parse_cid1, valid_config,
}

-- The lines that `SendCommandContext` gives to the modem, with what their format verbs print:
-- `AT+CGDCONT?`, `AT+COPS=2`, `AT+COPS=0`, `AT+CGDCONT=1`, `AT+CGDCONT=1,"%s","%s"`, `AT+CGAUTH=1,0`
-- and `AT+CGAUTH=1,%d,"%s","%s"`.
pub data Command : Type 0 where
  query_contexts deregister register clear_context clear_auth : Command
  define_context : (pdp_type apn : String) → Command
  set_auth : (method : ℕ) (username password : String) → Command

-- The other calls that change something.
pub data Write : Type 0 where
  set_gsm : Config → Write
  set_eps : Settings → Write
  set_autoconnect : Bool → Write
  disconnect connect : Write
  commit : Bool → Write

pub data Event : Type 0 where
  gsm_read : Option Config → Event
  eps_read : Option Settings → Event
  state_read : Option ConnectionState → Event
  wrote : Write → (ok : Bool) → Event
  sent : Command → (response : Option String) → Event

pub record World : Type 0 where
  pub get_gsm : List Event → Option Config
  pub get_eps : List Event → Option Settings
  pub state : List Event → Option ConnectionState
  pub accepts : List Event → Write → Bool
  pub send : List Event → Command → Option String
  -- whether the context of the operation has ended, and the clock
  pub cancelled : List Event → Bool
  pub now : List Event → ℕ
  pub library : Library

pub data Failure : Type 0 where
  nm_read mm_read cid_read nm_state nm_suspend nm_disconnect no_deregister nm_write : Failure
  ended context_write auth_write cid_mismatch nm_mismatch no_reattach nm_connect : Failure
  cid_changed nm_commit rollback_failed : Failure

pub data Result (A : Type 0) : Type 0 where
  ok : A → Result A
  err : Failure → Result A

-- What a transaction has done so far: the calls, the flags `changed` and `detached` that the deferred
-- rollback reads, and the errors that the rollback has gathered.
pub record Progress : Type 0 where
  pub trace : List Event
  pub changed : Bool
  pub detached : Bool
  pub failures : List Failure

abbrev pub Action : Type 0 → Type 0
Action A = Progress → Result A × Progress

abbrev pub note : Event → Progress → Progress
note e t = record t { trace = e ∷ t.trace }

module _ {A : Type 0} where
  abbrev pub pure : A → Action A
  pure a t = (ok a, t)

  -- `add(err)` of the rollback: the error is kept, and the actions go on.
  unfoldable pub gathered : Result A × Progress → Result (Option A) × Progress
  gathered (ok a, t) = (ok (some a), t)
  gathered (err e, t) = (ok none, record t { failures = e ∷ t.failures })

  unfoldable pub gather : Action A → Action (Option A)
  gather m t = gathered (m t)

  -- An error that is only logged.
  unfoldable pub attempted : Result A × Progress → Result (Option A) × Progress
  attempted (ok a, t) = (ok (some a), t)
  attempted (err e, t) = (ok none, t)

  unfoldable pub attempt : Action A → Action (Option A)
  attempt m t = attempted (m t)

  unfoldable pub answered : Option A → Failure → Result A
  answered none f = err f
  answered (some a) f = ok a

unfoldable pub bound : {A B : Type 0} → Result A × Progress → (A → Action B) → Result B × Progress
bound (ok a, t) f = f a t
bound (err e, t) f = (err e, t)

infixl 5 ◌>>=◌ ◌>>◌
abbrev pub ◌>>=◌ : {A B : Type 0} → Action A → (A → Action B) → Action B
(m >>= f) t = bound (m t) f

abbrev pub ◌>>◌ : {B : Type 0} → Action (Unit {0}) → Action B → Action B
m >> k = m >>= λ _. k

abbrev pub raise_if : Bool → Failure → Action (Unit {0})
raise_if c f t = (if c then err f else ok tt, t)

abbrev pub mark_changed : Action (Unit {0})
mark_changed t = (ok tt, record t { changed = true })

abbrev pub mark_detached : Action (Unit {0})
mark_detached t = (ok tt, record t { detached = true })

-- `var failures []error` of the rollback.
abbrev pub gather_none : Action (Unit {0})
gather_none t = (ok tt, record t { failures = [] })

unfoldable pub raise_any : List Failure → Action (Unit {0})
raise_any [] t = (ok tt, t)
raise_any (f ∷ fs) t = (err rollback_failed, t)

-- `errors.Join` of what has been gathered, which is nil if that is nothing.
unfoldable pub raise_gathered : Action (Unit {0})
raise_gathered t = raise_any t.failures t

unfoldable pub context_command : AttachContext → Command
context_command c = if c.present then define_context c.pdp_type c.apn else clear_context

unfoldable pub auth_method : String → ℕ
auth_method a = if str_eq a "pap" then 1 else if str_eq a "chap" then 2 else 0

unfoldable pub auth_command : Config → Command
auth_command c =
    if not (auth_method c.auth == 0) && (not (str_eq c.username "") || not (str_eq c.password ""))
    then set_auth (auth_method c.auth) c.username c.password
    else clear_auth

module _ (w : World) where
  unfoldable pub write : Write → Failure → Action (Unit {0})
  write c f t = let b = w.accepts t.trace c in (if b then ok tt else err f, note (wrote c b) t)

  unfoldable pub command : Command → Failure → Action String
  command c f t = let r = w.send t.trace c in (answered r f, note (sent c r) t)

  unfoldable pub get_gsm : Action Config
  get_gsm t = let r = w.get_gsm t.trace in (answered r nm_read, note (gsm_read r) t)

  unfoldable pub get_eps : Action Settings
  get_eps t = let r = w.get_eps t.trace in (answered r mm_read, note (eps_read r) t)

  unfoldable pub read_cid : Action AttachContext
  read_cid = do
    response ← command query_contexts cid_read
    (λ t. (answered (parse_cid1 w.library response) cid_read, t))

  unfoldable pub write_cid : AttachContext → Action (Unit {0})
  write_cid c = do response ← command (context_command c) context_write; pure tt

  unfoldable pub write_auth : Config → Action (Unit {0})
  write_auth c = do
    raise_if (not (valid_config c)) auth_write
    response ← command (auth_command c) auth_write
    pure tt
