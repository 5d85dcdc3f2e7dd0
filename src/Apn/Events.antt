-- ===== src/Apn/Events.antt =====
-- The calls of a transaction of the APN manager (internal/apn/manager.go): a condition that each kind of
-- call meets is met by all calls of the body and of the rollback.
use modem_service.Prelude.{
  String, Bool, true, false, Option, none, some, List, [], ◌∷◌, ◌++◌, ◌≡◌, ◌≢◌, arith, inl, inr,
  sym, ap, All, not, ◌∙◌, Bool-cases,
}
use modem_service.Apn.{Config, Settings, AttachContext, valid_config}
use modem_service.Apn.Calls.{
  World, query_contexts, deregister, register, set_gsm, set_eps, set_autoconnect, disconnect,
  connect, Event, gsm_read, wrote, sent, Failure, Progress, Action, note, pure, gather, Result, ok,
  err, attempt, gather_none, raise_if, raise_gathered, raise_any, write, Command, Write, command,
  get_gsm, read_cid, context_command, auth_command, write_cid, write_auth,
}
use modem_service.Apn.Rules.{
  Post, Triple, Keeps, bind, attempt_triple, gather_triple, raise_if_triple, write_triple,
  command_triple, get_gsm_triple, read_cid_triple,
}

-- The calls that neither configure anything nor join the network.
pub record Neutral (E : Event → Type 0) : Type 0 where
  pub nm : (r : Option Config) → E (gsm_read r)
  pub queried : (r : Option String) → E (sent query_contexts r)
  pub deregistered : (r : Option String) → E (sent deregister r)
  pub suspended : (b : Bool) → E (wrote (set_autoconnect false) b)
  pub disconnected : (b : Bool) → E (wrote disconnect b)

pub record Joins (E : Event → Type 0) : Type 0 where
  pub registered : (r : Option String) → E (sent register r)
  pub connected : (b : Bool) → E (wrote connect b)

-- The calls that store settings.
pub record Stores (E : Event → Type 0) (nm : Config) (mm : Settings) (cid : AttachContext)
    (auth : Config) : Type 0 where
  pub nm_stored : (b : Bool) → E (wrote (set_gsm nm) b)
  pub mm_stored : (b : Bool) → E (wrote (set_eps mm) b)
  pub cid_stored : (r : Option String) → E (sent (context_command cid) r)
  pub auth_stored : valid_config auth ≡ true → (r : Option String) → E (sent (auth_command auth) r)

true-ne-false : true ≢ false
true-ne-false = λ e. ground arith

-- A later trace whose new calls meet the condition.
abbrev pub Extends : List Event → (Event → Type 0) → List Event → Type 0
Extends h E h' = (l : List Event) × (h' ≡ l ++ h) × All E l

abbrev pub Since : List Event → (Event → Type 0) → Progress → Type 0
Since h E t = Extends h E t.trace

-- The operation has ended, and stays so.
abbrev pub HasEnded : World → List Event → Type 0
HasEnded w h = (l : List Event) → w.cancelled (l ++ h) ≡ true

module _ (w : World) (h : List Event) (E : Event → Type 0) where
  abbrev pub Kept : Progress → Type 0
  Kept = Since h E

  pub noted : (e : Event) (t : Progress) → E e → Kept t → Kept (note e t)
  noted e t p (l, q, a) = (e ∷ l, ap (λ l. e ∷ l) q, (p, a))

  pub pure-Keeps : {A : Type 0} (a : A) → Keeps Kept (pure a)
  unfolding Post
  pure-Keeps a = record { after = λ t p. p }

  pub gather-Keeps : {A : Type 0} (m : Action A) → Keeps Kept m → Keeps Kept (gather m)
  gather-Keeps m k = gather_triple m k (λ a t p. p) (λ f t p. p)

  pub attempt-Keeps : {A : Type 0} (m : Action A) → Keeps Kept m → Keeps Kept (attempt m)
  attempt-Keeps m k = attempt_triple m k (λ a t p. p) (λ t p. p)

  pub gather_none-Keeps : Keeps Kept gather_none
  unfolding Post
  gather_none-Keeps = record { after = λ t p. p }

  pub at_end : {A : Type 0} (r : Result A × Progress) → Post (λ a. Kept) Kept r → Kept r.1
  unfolding Post
  at_end (ok a, t) p = p
  at_end (err f, t) p = p

  pub unreached : {A : Type 0} (m : Action A) → Triple (λ t. true ≡ false) m (λ a. Kept) Kept
  unreached m = record { after = λ t x. absurd (true-ne-false x) }

  pub raise_if-Keeps : (b : Bool) (f : Failure) → Keeps Kept (raise_if b f)
  raise_if-Keeps b f = raise_if_triple b f (λ e t p. p) (λ e t p. p)

  pub raise_any_keeps :
      (fs : List Failure) (t : Progress) → Kept t → Post (λ a. Kept) Kept (raise_any fs t)
  unfolding raise_any Post
  raise_any_keeps [] t p = p
  raise_any_keeps (f ∷ fs) t p = p

  pub raise_gathered-Keeps : Keeps Kept raise_gathered
  unfolding raise_gathered
  raise_gathered-Keeps = record { after = λ t p. raise_any_keeps t.failures t p }

  pub write-Keeps :
      (c : Write) (f : Failure) → ((b : Bool) → E (wrote c b)) → Keeps Kept (write w c f)
  write-Keeps c f k =
      write_triple w c f (λ t p e. noted (wrote c true) t (k true) p)
        (λ t p e. noted (wrote c false) t (k false) p)

  pub command-Keeps :
      (c : Command) (f : Failure)
      → ((r : Option String) → E (sent c r))
      → Keeps Kept (command w c f)
  command-Keeps c f k =
      command_triple w c f (λ t a p. noted (sent c (some a)) t (k (some a)) p)
        (λ t p. noted (sent c none) t (k none) p)

  pub get_gsm-Keeps : ((r : Option Config) → E (gsm_read r)) → Keeps Kept (get_gsm w)
  get_gsm-Keeps k =
      get_gsm_triple w (λ t a p. noted (gsm_read (some a)) t (k (some a)) p)
        (λ t p. noted (gsm_read none) t (k none) p)

  pub read_cid-Keeps : ((r : Option String) → E (sent query_contexts r)) → Keeps Kept (read_cid w)
  read_cid-Keeps k =
      read_cid_triple w (λ t r a p e. noted (sent query_contexts (some r)) t (k (some r)) p)
        (λ t r p. noted (sent query_contexts r) t (k r) p)

  pub write_cid-Keeps :
      (c : AttachContext)
      → ((r : Option String) → E (sent (context_command c) r))
      → Keeps Kept (write_cid w c)
  unfolding write_cid
  write_cid-Keeps c k = bind _ _ (command-Keeps _ _ k) (λ a. pure-Keeps tt)

  pub write_auth-Keeps :
      (c : Config)
      → (valid_config c ≡ true → (r : Option String) → E (sent (auth_command c) r))
      → Keeps Kept (write_auth w c)
  unfolding write_auth
  write_auth-Keeps c k = elim (Bool-cases (valid_config c)) [
    | inl e ↦
        bind _ _ (raise_if-Keeps _ _) (λ u. bind _ _ (command-Keeps _ _ (k e)) (λ a. pure-Keeps tt))
    | inr e ↦
        bind {Q = λ u t. true ≡ false} _ _
          (raise_if_triple _ _ (λ f t p. sym (ap not e) ∙ f) (λ f t p. p)) (λ u. unreached _)
  ]
