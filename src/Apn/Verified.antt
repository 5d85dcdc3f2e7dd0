-- ===== src/Apn/Verified.antt =====
-- The body of a transaction of the APN manager up to its end (internal/apn/manager.go).
use modem_service.Prelude.{
  String, Bool, true, false, not, ◌&&◌, ◌≡◌, ◌⊎◌, inl, inr, refl, ap, ◌∙◌, some, List, ◌∷◌,
  Bool-cases, arith,
}
use modem_service.Apn.{
  Config, ConnectionState, AttachContext, is_empty, equal_nm, context_eq, desired_context,
  parse_cid1,
}
use modem_service.Apn.Calls.{
  World, query_contexts, register, connect, commit, Event, gsm_read, wrote, sent, Failure, Result,
  ok, err, Progress, Action,
}
use modem_service.Apn.Transaction.{verify_cid, verify_nm, configure, activate, body}
use modem_service.Apn.Rules.{
  Post, Triple, bind, raise_if_triple, write_triple, command_triple, get_gsm_triple,
  read_cid_triple,
}

-- The profile and the context were read back as configured.
pub record Configured (w : World) (cfg : Config) (h : List Event) : Type 0 where
  pub profile : Config
  pub response : String
  pub context : AttachContext
  pub earlier : List Event
  pub at : h ≡ gsm_read (some profile) ∷ sent query_contexts (some response) ∷ earlier
  pub profile_eq : equal_nm profile cfg ≡ true
  pub context_read : parse_cid1 w.library response ≡ some context
  pub context_eq : context_eq context (desired_context cfg) ≡ true

-- A trace that ends, its last call first, with the two reads, the registration, the connection, a
-- second read of the context, and the commit, all of which succeed. A configuration that is not empty
-- is still in the modem's context when it is read for the second time.
pub record Verified (w : World) (cfg : Config) (h : List Event) : Type 0 where
  pub registered : String
  pub response : String
  pub context : AttachContext
  pub autoconnect : Bool
  pub before : List Event
  pub configured : Configured w cfg before
  pub at :
      h
      ≡ wrote (commit autoconnect) true
        ∷ sent query_contexts (some response)
        ∷ wrote connect true
        ∷ sent register (some registered)
        ∷ before
  pub context_read : parse_cid1 w.library response ≡ some context
  pub context_kept : (is_empty cfg ≡ true) ⊎ (context_eq context (desired_context cfg) ≡ true)

module _ {A : Type 0} where
  anything : (r : Result A × Progress) → Post (λ a t. Unit) (λ t. Unit) r
  unfolding Post
  anything (ok a, t) = tt
  anything (err e, t) = tt

  any_triple : (m : Action A) → Triple (λ t. Unit) m (λ a t. Unit) (λ t. Unit)
  any_triple m = record { after = λ t p. anything (m t) }

not-false : (b : Bool) → not b ≡ false → b ≡ true
not-false b e = ground arith

module _ (w : World) (cfg : Config) where
  -- The context has just been read as wanted.
  record HasContext (h : List Event) : Type 0 where
    response : String
    context : AttachContext
    earlier : List Event
    at : h ≡ sent query_contexts (some response) ∷ earlier
    context_read : parse_cid1 w.library response ≡ some context
    context_eq : context_eq context (desired_context cfg) ≡ true

  verify_cid_ends : Triple (λ t. Unit) (verify_cid w cfg) (λ u t. HasContext t.trace) (λ t. Unit)
  unfolding verify_cid
  verify_cid_ends =
      bind
        {Q = λ a t.
          (r : String) × (l : List Event) × (t.trace ≡ sent query_contexts (some r) ∷ l)
          × (parse_cid1 w.library r ≡ some a)}
        _ _ (read_cid_triple w (λ t r a p e. (r, t.trace, refl, e)) (λ t r p. tt))
        (λ a.
          raise_if_triple _ _
            (λ e t x. record {
              response = x.0;
              context = a;
              earlier = x.1;
              at = x.2;
              context_read = x.3;
              context_eq = not-false _ e;
            })
            (λ e t x. tt))

  verify_nm_ends :
      (f : Failure)
      → Triple
          (λ t. HasContext t.trace)
          (verify_nm w cfg f)
          (λ u t. Configured w cfg t.trace)
          (λ t. Unit)
  unfolding verify_nm
  verify_nm_ends f =
      bind {Q = λ a t. (l : List Event) × (t.trace ≡ gsm_read (some a) ∷ l) × HasContext l} _ _
        (get_gsm_triple w (λ t a p. (t.trace, refl, p)) (λ t p. tt))
        (λ a.
          raise_if_triple _ _
            (λ e t x.
              let c = x.2 in
              record {
                profile = a;
                response = c.response;
                context = c.context;
                earlier = c.earlier;
                at = x.1 ∙ ap (λ l. gsm_read (some a) ∷ l) c.at;
                profile_eq = not-false _ e;
                context_read = c.context_read;
                context_eq = c.context_eq;
              })
            (λ e t x. tt))

  configure_ends :
      Triple (λ t. Unit) (configure w cfg) (λ u t. Configured w cfg t.trace) (λ t. Unit)
  unfolding configure
  configure_ends = bind _ _ (any_triple _) (λ u. bind _ _ (any_triple _) (λ u.
      bind _ _ (any_triple _)
        (λ u. bind _ _ (any_triple _) (λ u. bind _ _ verify_cid_ends (λ u. verify_nm_ends _)))))

  abbrev IsRegistered : List Event → Type 0
  IsRegistered h =
      (r : String) × (l : List Event) × (h ≡ sent register (some r) ∷ l) × Configured w cfg l

  abbrev IsConnected : List Event → Type 0
  IsConnected h = (l : List Event) × (h ≡ wrote connect true ∷ l) × IsRegistered l

  abbrev IsRead : AttachContext → List Event → Type 0
  IsRead a h =
      (r : String) × (l : List Event) × (h ≡ sent query_contexts (some r) ∷ l)
      × (parse_cid1 w.library r ≡ some a)
      × IsConnected l

  abbrev IsWanted : AttachContext → Type 0
  IsWanted a = (is_empty cfg ≡ true) ⊎ (context_eq a (desired_context cfg) ≡ true)

  IsWanted-cases :
      (a : AttachContext)
      → (not (is_empty cfg) && not (context_eq a (desired_context cfg))) ≡ false
      → IsWanted a
  IsWanted-cases a e = elim (Bool-cases (is_empty cfg)) [
    | inl f ↦ inl f
    | inr f ↦ inr (not-false _ (rw f at e))
  ]

  committed :
      (a : AttachContext) (b : Bool) (h : List Event)
      → IsRead a h
      → IsWanted a
      → Verified w cfg (wrote (commit b) true ∷ h)
  committed a b h (r, l, e, p, (l', e', (x, l'', e'', c))) k = record {
    registered = x;
    response = r;
    context = a;
    autoconnect = b;
    before = l'';
    configured = c;
    at =
        ap (λ t. wrote (commit b) true ∷ t)
          (e
            ∙ ap (λ t. sent query_contexts (some r) ∷ t)
                (e' ∙ ap (λ t. wrote connect true ∷ t) e''));
    context_read = p;
    context_kept = k;
  }

  activate_ends :
      (s : ConnectionState)
      → Triple
          (λ t. Configured w cfg t.trace)
          (activate w cfg s)
          (λ a t. Verified w cfg t.trace)
          (λ t. Unit)
  unfolding activate Post
  activate_ends s =
      bind {Q = λ a t. IsRegistered t.trace} _ _
        (command_triple w _ _ (λ t a p. (a, t.trace, refl, p)) (λ t p. tt))
        (λ r.
          bind {Q = λ a t. IsConnected t.trace} _ _
            (write_triple w _ _ (λ t p e. (t.trace, refl, p)) (λ t p e. tt))
            (λ u.
              bind {Q = λ a t. IsRead a t.trace} _ _
                (read_cid_triple w (λ t r a p e. (r, t.trace, refl, e, p)) (λ t r p. tt))
                (λ a.
                  bind {Q = λ u t. IsWanted a × IsRead a t.trace} _ _
                    (raise_if_triple _ _ (λ e t p. (IsWanted-cases a e, p)) (λ e t p. tt))
                    (λ u.
                      bind {Q = λ u t. Verified w cfg t.trace} _ _
                        (write_triple w _ _ (λ t p e. committed a s.autoconnect t.trace p.1 p.0)
                          (λ t p e. tt))
                        (λ u. record { after = λ t p. p })))))

  pub body_ends :
      (s : ConnectionState)
      → Triple (λ t. Unit) (body w cfg s) (λ a t. Verified w cfg t.trace) (λ t. Unit)
  unfolding body
  body_ends s = bind _ _ (any_triple _) (λ u. bind _ _ configure_ends (λ u. activate_ends s))
