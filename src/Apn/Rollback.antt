-- ===== src/Apn/Rollback.antt =====
-- The rollback of a transaction up to its end (internal/apn/manager.go).
use mathlib.Core.List.{append_assoc}
use modem_service.Prelude.{
  Bool, true, false, not, ◌≡◌, ◌≢◌, ◌⊎◌, inl, inr, refl, sym, ap, ◌∙◌, Option, none, some, List, [],
  ◌∷◌, ◌++◌, arith, if-elim,
}
use modem_service.Apn.{
  Config, Snapshot, ConnectionState, AttachContext, equal_nm, context_eq, parse_cid1,
}
use modem_service.Apn.Calls.{
  World, query_contexts, commit, set_gsm, Event, gsm_read, eps_read, state_read, wrote, sent,
  Failure, Progress, Action, pure, gather, raise_any, raise_gathered, write,
}
use modem_service.Apn.Transaction.{
  verify_nm, detach, check_restored_cid, restore_modem, restore, resume, rollback,
}
use modem_service.Apn.Rules.{
  Post, Triple, Keeps, weakly, weaken, bind, gather_triple, raise_if_triple, write_triple,
  get_gsm_triple, read_cid_triple,
}
use modem_service.Apn.Events.{
  Neutral, Joins, Extends, Since, noted, pure-Keeps, gather-Keeps, attempt-Keeps, gather_none-Keeps,
  write-Keeps, write_cid-Keeps, write_auth-Keeps, raise_gathered-Keeps,
}
use modem_service.Apn.Phases.{detach-Keeps, resume-Keeps}

-- Among some calls there is one with a property.
abbrev pub Any : (Event → Type 0) → List Event → Type 0
Any Q [] = ⊥
Any Q (e ∷ l) = Q e ⊎ Any Q l

-- The calls since a trace, one of which has a property.
abbrev pub Saw : (Event → Type 0) → List Event → List Event → Type 0
Saw Q h h' = (l : List Event) × (h' ≡ l ++ h) × Any Q l

Saw-later : (Q : Event → Type 0) (e : Event) (h h' : List Event) → Saw Q h h' → Saw Q h (e ∷ h')
Saw-later Q e h h' (l, q, a) = (e ∷ l, ap (λ l. e ∷ l) q, inr a)

Any-append : (Q : Event → Type 0) (k l : List Event) → Any Q l → Any Q (k ++ l)
Any-append Q [] l a = a
Any-append Q (e ∷ k) l a = inr (Any-append Q k l a)

abbrev pub Anything : Event → Type 0
Anything e = Unit

Saw-extended :
    (Q : Event → Type 0) (h h' h'' : List Event)
    → Saw Q h h'
    → Extends h' Anything h''
    → Saw Q h h''
Saw-extended Q h h' h'' (l, q, a) (k, r, u) =
    (k ++ l, r ∙ ap (λ x. k ++ x) q ∙ sym (append_assoc k l h), Any-append Q k l a)

-- The profile is read as one of a snapshot, the context as that of one, and the commit is accepted.
abbrev pub IsProfile : Config → Event → Type 0
IsProfile c (gsm_read none) = ⊥
IsProfile c (gsm_read (some x)) = equal_nm x c ≡ true
IsProfile c (eps_read r) = ⊥
IsProfile c (state_read r) = ⊥
IsProfile c (wrote x b) = ⊥
IsProfile c (sent x r) = ⊥

abbrev pub IsContext : World → AttachContext → Event → Type 0
IsContext w c (gsm_read r) = ⊥
IsContext w c (eps_read r) = ⊥
IsContext w c (state_read r) = ⊥
IsContext w c (wrote x b) = ⊥
IsContext w c (sent x none) = ⊥
IsContext w c (sent x (some r)) =
    (x ≡ query_contexts)
    × ((a : AttachContext) × (parse_cid1 w.library r ≡ some a) × (context_eq a c ≡ true))

abbrev pub IsCommit : Bool → Event → Type 0
IsCommit b (gsm_read r) = ⊥
IsCommit b (eps_read r) = ⊥
IsCommit b (state_read r) = ⊥
IsCommit b (sent x r) = ⊥
IsCommit b (wrote x accepted) = (x ≡ commit b) × (accepted ≡ true)

Anything-neutral : Neutral Anything
Anything-neutral = record {
  nm = λ r. tt;
  queried = λ r. tt;
  deregistered = λ r. tt;
  suspended = λ b. tt;
  disconnected = λ b. tt;
}

Anything-joins : Joins Anything
Anything-joins = record { registered = λ r. tt; connected = λ b. tt }

cons-ne-nil : (f : Failure) (fs : List Failure) → f ∷ fs ≢ []
cons-ne-nil f fs = λ e. ground arith

none-ne-some : ◌≢◌ {A = Option (Unit {0})} none (some tt)
none-ne-some = λ e. ground arith

not-false : (b : Bool) → not b ≡ false → b ≡ true
not-false b e = ground arith

module _ (w : World) (h : List Event) where
  abbrev pub More : Progress → Type 0
  More = Since h Anything

  module _ (before : Snapshot) where
    abbrev pub SawContext : Progress → Type 0
    SawContext t = Saw (IsContext w before.cid) h t.trace

    abbrev pub SawProfile : Progress → Type 0
    SawProfile t = Saw (IsProfile before.nm) h t.trace

    check_ends : Triple More (check_restored_cid w before.cid) (λ u t. More t × SawContext t) More
    unfolding check_restored_cid
    check_ends =
        bind {Q = λ a t. More t × (context_eq a before.cid ≡ true → SawContext t)} _ _
          (read_cid_triple w
            (λ t r a p e.
              let e' = sent query_contexts (some r) in
              (
                noted w h Anything e' t tt p,
                λ q. (e' ∷ p.0, ap (λ l. e' ∷ l) p.1, inl (refl, (a, e, q))),
              ))
            (λ t r p. noted w h Anything (sent query_contexts r) t tt p))
          (λ a. raise_if_triple _ _ (λ e t p. (p.0, p.1 (not-false _ e))) (λ e t p. p.0))

    restore_modem_ends :
        Triple More
          (restore_modem w before)
          (λ u t. More t × (t.failures ≡ [] → SawContext t))
          (λ t. Unit)
    unfolding restore_modem Post
    restore_modem_ends =
        bind {Q = λ u. More} _ _
          (weakly (attempt-Keeps w h Anything _ (write-Keeps w h Anything _ _ (λ b. tt))))
          (λ u.
            bind {Q = λ u. More} _ _
              (weakly (gather-Keeps w h Anything _ (write_auth-Keeps w h Anything _ (λ v r. tt))))
              (λ a.
                bind {Q = λ u. More} _ _
                  (weakly (gather-Keeps w h Anything _ (write_cid-Keeps w h Anything _ (λ r. tt))))
                  (λ a.
                    bind {Q = λ u t. More t × (t.failures ≡ [] → SawContext t)} _ _
                      (gather_triple _ check_ends (λ a t p. (p.0, λ e. p.1))
                        (λ f t p. (p, λ e. absurd (cons-ne-nil f t.failures e))))
                      (λ a. record { after = λ t p. p }))))

    abbrev pub Restored : Progress → Type 0
    Restored t = SawContext t × SawProfile t

    detach_ends :
        Triple More
          (gather (detach w))
          (λ o t. More t × (t.failures ≡ [] → o ≡ some tt))
          (λ t. Unit)
    detach_ends =
        gather_triple _ (detach-Keeps w h Anything Anything-neutral) (λ a t p. (p, λ e. refl))
          (λ f t p. (p, λ e. absurd (cons-ne-nil f t.failures e)))

    set_gsm_ends :
        (o : Option (Unit {0})) (f : Failure)
        → Triple
            (λ t. More t × (t.failures ≡ [] → o ≡ some tt))
            (gather (write w (set_gsm before.nm) f))
            (λ u t. More t × (t.failures ≡ [] → o ≡ some tt))
            (λ t. Unit)
    set_gsm_ends o f =
        let S : Progress → Type 0 = λ t. More t × (t.failures ≡ [] → o ≡ some tt) in
        gather_triple {Q = λ u. S} {E = S} _
          (write_triple w _ _ (λ t p e. (noted w h Anything _ t tt p.0, p.1))
            (λ t p e. (noted w h Anything _ t tt p.0, p.1)))
          (λ a t p. p) (λ f t p. (p.0, λ e. absurd (cons-ne-nil f t.failures e)))

    if_detached_ends :
        (o : Option (Unit {0}))
        → Triple
            (λ t. More t × (t.failures ≡ [] → o ≡ some tt))
            (elim o [ some u ↦ restore_modem w before | none ↦ pure tt ])
            (λ u t. More t × (t.failures ≡ [] → SawContext t))
            (λ t. Unit)
    unfolding Post
    if_detached_ends (some u) = record { after = λ t p. restore_modem_ends.after t p.0 }
    if_detached_ends none = record { after = λ t p. (p.0, λ e. absurd (none-ne-some (p.1 e))) }

    verify_nm_ends :
        (f : Failure)
        → Triple
            (λ t. t.failures ≡ [] → SawContext t × More t)
            (verify_nm w before.nm f)
            (λ u t. t.failures ≡ [] → Restored t)
            (λ t. Unit)
    unfolding verify_nm
    verify_nm_ends f =
        bind
          {Q = λ a t. t.failures ≡ [] → SawContext t × (equal_nm a before.nm ≡ true → SawProfile t)}
          _ _
          (get_gsm_triple w
            (λ t a p e.
              let e' = gsm_read (some a) in
              let c = p e in
              let k = c.1 in
              (
                Saw-later (IsContext w before.cid) e' h t.trace c.0,
                λ q. (e' ∷ k.0, ap (λ l. e' ∷ l) k.1, inl q),
              ))
            (λ t p. tt))
          (λ a.
            raise_if_triple _ _ (λ q t p e. let c = p e in (c.0, c.1 (not-false _ q)))
              (λ q t p. tt))

    restore_ends : Triple More (restore w before) (λ u t. t.failures ≡ [] → Restored t) (λ t. Unit)
    unfolding restore Post
    restore_ends = bind _ _ detach_ends (λ o. bind _ _ (set_gsm_ends o _) (λ u.
        bind _ _ (if_detached_ends o) (λ u.
          bind {Q = λ u t. t.failures ≡ [] → Restored t} _ _
            (gather_triple _
              (record { after = λ t p. (verify_nm_ends _).after t (λ e. (p.1 e, p.0)) })
              (λ a t p. p) (λ f t p e. absurd (cons-ne-nil f t.failures e)))
            (λ a. record { after = λ t p. p }))))

    raise_any_ends :
        (fs : List Failure) (t : Progress)
        → (fs ≡ [] → Restored t)
        → Post (λ u t. Restored t) (λ t. Unit) (raise_any fs t)
    unfolding raise_any Post
    raise_any_ends [] t r = r refl
    raise_any_ends (f ∷ fs) t r = tt

    -- The rollback succeeded, and the commit was accepted.
    abbrev pub Committed : ConnectionState → Progress → Type 0
    Committed s t = Restored t × Saw (IsCommit s.autoconnect) h t.trace

    Committed-later :
        (s : ConnectionState) (m : Action (Unit {0}))
        → ((k : List Event) → Keeps (Since k Anything) m)
        → Triple (Committed s) m (λ u. Committed s) (λ t. Unit)
    Committed-later s m keeps = record {
      after = λ t p.
          let q = (keeps t.trace).after t ([], refl, tt) in
          weaken (λ u. Since t.trace Anything) (λ u. Committed s) (Since t.trace Anything)
            (λ t. Unit) (m t) q
            (λ u t' x. (
              (
                Saw-extended (IsContext w before.cid) h t.trace t'.trace p.0.0 x,
                Saw-extended (IsProfile before.nm) h t.trace t'.trace p.0.1 x,
              ),
              Saw-extended (IsCommit s.autoconnect) h t.trace t'.trace p.1 x,
            ))
            (λ t' x. tt);
    }

    pub rollback_ends :
        (s : ConnectionState) (detached : Bool)
        → Triple More (rollback w before s true detached) (λ u. Committed s) (λ t. Unit)
    unfolding rollback raise_gathered
    rollback_ends s detached =
        bind {Q = λ u. More} _ _ (weakly (gather_none-Keeps w h Anything)) (λ u.
          bind _ _ restore_ends (λ u.
            bind {Q = λ u t. Restored t} _ _
              (record { after = λ t p. raise_any_ends t.failures t p })
              (λ u.
                bind {Q = λ u. Committed s} _ _
                  (write_triple w _ _
                    (λ t p e.
                      let e' = wrote (commit s.autoconnect) true in
                      (
                        (
                          Saw-later (IsContext w before.cid) e' h t.trace p.0,
                          Saw-later (IsProfile before.nm) e' h t.trace p.1,
                        ),
                        (e' ∷ p.0.0, ap (λ l. e' ∷ l) p.0.1, inl (refl, refl)),
                      ))
                    (λ t p e. tt))
                  (λ u.
                    bind {Q = λ u. Committed s} _ _
                      (Committed-later s _ (λ k.
                        if-elim (Keeps (Since k Anything)) detached (resume w s) (pure tt)
                          (λ e. resume-Keeps w k Anything Anything-neutral s (inl Anything-joins))
                          (λ e. pure-Keeps w k Anything tt)))
                      (λ u.
                        Committed-later s raise_gathered
                          (λ k. raise_gathered-Keeps w k Anything))))))
