-- ===== src/Apn/Phases.antt =====
-- The body and the rollback of a transaction of the APN manager (internal/apn/manager.go): a condition
-- that each of their calls meets is met by all.
use modem_service.Prelude.{
  Bool, true, Option, none, some, List, ◌≡◌, ◌⊎◌, inl, inr, ap, ◌∙◌, if-elim,
}
use modem_service.Apn.{
  Config, Settings, ConnectionState, Snapshot, desired_context, parse_mm_settings,
  encode_mm_settings,
}
use modem_service.Apn.Calls.{
  World, set_eps, commit, Event, wrote, Failure, ended, Progress, Action, pure,
}
use modem_service.Apn.Transaction.{
  tolerate, set_mm, verify_cid, verify_nm, suspend, configure, activate, body, detach,
  check_restored_cid, restore_modem, restore, reconnect, resume, rollback,
}
use modem_service.Apn.Rules.{Post, Keeps, bind}
use modem_service.Apn.Events.{
  Neutral, Joins, Stores, HasEnded, Kept, pure-Keeps, gather-Keeps, attempt-Keeps,
  gather_none-Keeps, at_end, raise_if-Keeps, raise_gathered-Keeps, write-Keeps, command-Keeps,
  get_gsm-Keeps, read_cid-Keeps, write_cid-Keeps, write_auth-Keeps,
}

module _ (w : World) (h : List Event) (E : Event → Type 0) (n : Neutral E) where
  verify_cid-Keeps : (c : Config) → Keeps (Kept w h E) (verify_cid w c)
  unfolding verify_cid
  verify_cid-Keeps c = bind _ _ (read_cid-Keeps w h E n.queried) (λ a. raise_if-Keeps w h E _ _)

  verify_nm-Keeps : (c : Config) (f : Failure) → Keeps (Kept w h E) (verify_nm w c f)
  unfolding verify_nm
  verify_nm-Keeps c f = bind _ _ (get_gsm-Keeps w h E n.nm) (λ a. raise_if-Keeps w h E _ _)

  suspend-Keeps : Keeps (Kept w h E) (suspend w)
  unfolding suspend Post
  suspend-Keeps = bind _ _ (write-Keeps w h E _ _ n.suspended) (λ u.
      bind {Q = λ a. (Kept w h E)} _ _ (record { after = λ t p. p })
        (λ u. bind _ _ (write-Keeps w h E _ _ n.disconnected) (λ u.
          bind _ _ (command-Keeps w h E _ _ n.deregistered) (λ r. record { after = λ t p. p }))))

  tolerate-Keeps : (o : Option (Unit {0})) → Keeps (Kept w h E) (tolerate w o)
  unfolding tolerate Post
  tolerate-Keeps (some u) = record { after = λ t p. p }
  tolerate-Keeps none = record {
    after = λ t p. (raise_if-Keeps w h E (w.cancelled t.trace) ended).after t p;
  }

  set_mm-Keeps :
      (c : Settings) → ((b : Bool) → E (wrote (set_eps c) b)) → Keeps (Kept w h E) (set_mm w c)
  unfolding set_mm
  set_mm-Keeps c k =
      bind _ _ (attempt-Keeps w h E _ (write-Keeps w h E _ _ k)) (λ o. tolerate-Keeps o)

  configure-Keeps :
      (c : Config)
      → Stores E c (encode_mm_settings c) (desired_context c) c
      → Keeps (Kept w h E) (configure w c)
  unfolding configure
  configure-Keeps c s = bind _ _ (write-Keeps w h E _ _ s.nm_stored) (λ u.
      bind _ _ (set_mm-Keeps _ s.mm_stored) (λ u.
        bind _ _ (write_cid-Keeps w h E _ s.cid_stored) (λ u.
          bind _ _ (write_auth-Keeps w h E _ s.auth_stored)
            (λ u. bind _ _ (verify_cid-Keeps c) (λ u. verify_nm-Keeps c _)))))

  activate-Keeps :
      (c : Config) (state : ConnectionState)
      → Joins E
      → ((b : Bool) → E (wrote (commit state.autoconnect) b))
      → Keeps (Kept w h E) (activate w c state)
  unfolding activate
  activate-Keeps c state j k = bind _ _ (command-Keeps w h E _ _ j.registered) (λ r.
      bind _ _ (write-Keeps w h E _ _ j.connected) (λ u.
        bind _ _ (read_cid-Keeps w h E n.queried) (λ a.
          bind _ _ (raise_if-Keeps w h E _ _)
            (λ u. bind _ _ (write-Keeps w h E _ _ k) (λ u. pure-Keeps w h E a)))))

  pub body-Keeps :
      (c : Config) (state : ConnectionState)
      → Stores E c (encode_mm_settings c) (desired_context c) c
      → Joins E
      → ((b : Bool) → E (wrote (commit state.autoconnect) b))
      → Keeps (Kept w h E) (body w c state)
  unfolding body
  body-Keeps c state s j k =
      bind _ _ suspend-Keeps (λ u. bind _ _ (configure-Keeps c s) (λ u. activate-Keeps c state j k))

  pub detach-Keeps : Keeps (Kept w h E) (detach w)
  unfolding detach
  detach-Keeps = bind _ _ (write-Keeps w h E _ _ n.suspended) (λ u.
      bind _ _ (write-Keeps w h E _ _ n.disconnected)
        (λ u. bind _ _ (command-Keeps w h E _ _ n.deregistered) (λ r. pure-Keeps w h E tt)))

  restore_modem-Keeps :
      (before : Snapshot)
      → Stores E before.nm before.mm before.cid (parse_mm_settings before.mm)
      → Keeps (Kept w h E) (restore_modem w before)
  unfolding restore_modem check_restored_cid
  restore_modem-Keeps before s =
      bind _ _ (attempt-Keeps w h E _ (write-Keeps w h E _ _ s.mm_stored)) (λ u.
        bind _ _ (gather-Keeps w h E _ (write_auth-Keeps w h E _ s.auth_stored)) (λ a.
          bind _ _ (gather-Keeps w h E _ (write_cid-Keeps w h E _ s.cid_stored)) (λ a.
            bind _ _
              (gather-Keeps w h E _
                (bind _ _ (read_cid-Keeps w h E n.queried) (λ a. raise_if-Keeps w h E _ _)))
              (λ a. pure-Keeps w h E tt))))

  if_detached-Keeps :
      (before : Snapshot) (o : Option (Unit {0}))
      → Stores E before.nm before.mm before.cid (parse_mm_settings before.mm)
      → Keeps (Kept w h E) (elim o [ some u ↦ restore_modem w before | none ↦ pure tt ])
  if_detached-Keeps before (some u) s = restore_modem-Keeps before s
  if_detached-Keeps before none s = pure-Keeps w h E tt

  restore-Keeps :
      (before : Snapshot)
      → Stores E before.nm before.mm before.cid (parse_mm_settings before.mm)
      → Keeps (Kept w h E) (restore w before)
  unfolding restore
  restore-Keeps before s = bind _ _ (gather-Keeps w h E _ detach-Keeps) (λ o.
      bind _ _ (gather-Keeps w h E _ (write-Keeps w h E _ _ s.nm_stored)) (λ a.
        bind _ _ (if_detached-Keeps before o s) (λ u.
          bind _ _ (gather-Keeps w h E _ (verify_nm-Keeps before.nm _))
            (λ a. pure-Keeps w h E tt))))

  reconnect-Keeps : (state : ConnectionState) → Joins E → Keeps (Kept w h E) (reconnect w state)
  unfolding reconnect
  reconnect-Keeps state j = bind _ _ (command-Keeps w h E _ _ j.registered) (λ r.
      if-elim (Keeps (Kept w h E)) state.active _ _ (λ e. write-Keeps w h E _ _ j.connected)
        (λ e. pure-Keeps w h E tt))

  ran-Keeps :
      {A : Type 0} (m : Action A)
      → Keeps (Kept w h E) m
      → (t : Progress) → (Kept w h E) t
      → (Kept w h E) (m t).1
  unfolding Post
  ran-Keeps m k t p = at_end w h E (m t) (k.after t p)

  pub resume-Keeps :
      (state : ConnectionState) → Joins E ⊎ HasEnded w h → Keeps (Kept w h E) (resume w state)
  unfolding resume Post
  resume-Keeps state j = record {
    after = λ t p. elim j [
      | inl j ↦
          if-elim (Post (λ a. (Kept w h E)) (Kept w h E)) (w.cancelled t.trace) _ _ (λ e. p)
            (λ e. ran-Keeps _ (gather-Keeps w h E _ (reconnect-Keeps state j)) t p)
      | inr x ↦ let e = ap w.cancelled p.1 ∙ x p.0 in rw e p
    ];
  }

  pub rollback-Keeps :
      (before : Snapshot) (state : ConnectionState) (changed detached : Bool)
      → (changed ≡ true → Stores E before.nm before.mm before.cid (parse_mm_settings before.mm))
      → Joins E ⊎ HasEnded w h
      → ((b : Bool) → E (wrote (commit state.autoconnect) b))
      → Keeps (Kept w h E) (rollback w before state changed detached)
  unfolding rollback
  rollback-Keeps before state changed detached s j k = bind _ _ (gather_none-Keeps w h E) (λ u.
      bind _ _
        (if-elim (Keeps (Kept w h E)) changed _ _ (λ e. restore-Keeps before (s e))
          (λ e. pure-Keeps w h E tt))
        (λ u. bind _ _ (raise_gathered-Keeps w h E) (λ u. bind _ _ (write-Keeps w h E _ _ k) (λ u.
          bind _ _
            (if-elim (Keeps (Kept w h E)) detached _ _ (λ e. resume-Keeps state j)
              (λ e. pure-Keeps w h E tt))
            (λ u. raise_gathered-Keeps w h E)))))
