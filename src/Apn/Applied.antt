-- ===== src/Apn/Applied.antt =====
-- The calls of a whole transaction of the APN manager and of `Reconcile` (internal/apn/manager.go).
use mathlib.Core.List.{append-nil, append_assoc}
use modem_service.Prelude.{
  String, Bool, true, Option, none, some, List, [], ◌∷◌, ◌++◌, ◌≡◌, ◌⊎◌, inl, inr, refl, subst, sym,
  ◌∙◌, All, Bool-cases, leb, ltb, All-append, ◌||◌,
}
use modem_service.Apn.{
  Config, Settings, parse_cid1, Input, Manager, PendingRollback, Snapshot, ConnectionState,
  AttachContext, desired_context, parse_mm_settings, encode_mm_settings, valid_config,
}
use modem_service.Apn.Calls.{
  World, Event, sent, query_contexts, eps_read, state_read, wrote, commit, Result, ok, err,
  Progress,
}
use modem_service.Apn.Transaction.{
  Prepared, prepare, Applied, undone, undo, finish, start, transact, apply_from, apply,
}
use modem_service.Apn.Rules.{Post, Triple, bind, get_eps_triple, read_cid_triple, weaken}
use modem_service.Apn.Events.{
  Neutral, Joins, Stores, HasEnded, Extends, Since, noted, get_gsm-Keeps,
}
use modem_service.Apn.Phases.{body-Keeps, rollback-Keeps}
use modem_service.Apn.Reconcile.{
  observe, acted, act, settle, read_current, idle, in_place, max_apply_attempts,
}

-- The calls of what can be stored and committed.
abbrev pub StoresConfig : (Event → Type 0) → Config → Type 0
StoresConfig E c = Stores E c (encode_mm_settings c) (desired_context c) c

abbrev pub Restores : (Event → Type 0) → Snapshot → Type 0
Restores E s = Stores E s.nm s.mm s.cid (parse_mm_settings s.mm)

abbrev pub Commits : (Event → Type 0) → ConnectionState → Type 0
Commits E s = (b : Bool) → E (wrote (commit s.autoconnect) b)

All-of_Extends : (E : Event → Type 0) (h : List Event) → Extends [] E h → All E h
All-of_Extends E h (l, e, a) = subst (All E) (sym (e ∙ append-nil l)) a

module _ (w : World) (E : Event → Type 0) (n : Neutral E) where
  undone_calls :
      (h : List Event) (m : Manager) (r : Result (Unit {0}) × Progress)
      → Post (λ a. Since h E) (Since h E) r
      → Extends h E (undone m r).trace
  unfolding undone Post
  undone_calls h m (ok u, t) p = p
  undone_calls h m (err e, t) p = p

  pub undo_calls :
      (h : List Event) (p : PendingRollback) (m : Manager) (t : Progress)
      → (t.changed ≡ true → Restores E p.before)
      → Joins E ⊎ HasEnded w h
      → Commits E p.state
      → Since h E t
      → Extends h E (undo w p m t).trace
  unfolding undo
  undo_calls h p m t s j k x =
      undone_calls h m _
        ((rollback-Keeps w h E n p.before p.state t.changed t.detached s j k).after t x)

  module _ (j : Joins E) where
    finish_calls :
        (h : List Event) (p : PendingRollback) (m : Manager) (r : Result AttachContext × Progress)
        → Restores E p.before
        → Commits E p.state
        → Post (λ a. Since h E) (Since h E) r
        → Extends h E (finish w p m r).trace
    unfolding finish Post
    finish_calls h p m (ok a, t) s k x = x
    finish_calls h p m (err e, t) s k x = undo_calls h p m t (λ c. s) (inl j) k x

    transact_calls :
        (cfg : Config) (q : Prepared) (m : Manager) (h : List Event)
        → StoresConfig E cfg
        → Restores E q.rollback_to.before
        → Commits E q.rollback_to.state
        → Extends h E (transact w cfg q m h).trace
    unfolding transact
    transact_calls cfg q m h c s k =
        elim (Bool-cases (valid_config (parse_mm_settings q.rollback_to.before.mm))) [
          | inl e ↦ rw e (
              finish_calls h q.rollback_to _ _ s k (
                (body-Keeps w h E n cfg q.rollback_to.state c j k).after (start q h)
                  ([], refl, tt)))
          | inr e ↦ rw e ([], refl, tt)
        ]

    apply_from_calls :
        (req : Input) (cfg : Config) (before : Snapshot) (clear_sim : Bool) (m : Manager)
        (h : List Event) (s : Option ConnectionState)
        → StoresConfig E cfg
        → ((s : Option ConnectionState) → E (state_read s))
        → ((s : ConnectionState)
            → let q = prepare req before s clear_sim m.pending in
              Restores E q.rollback_to.before × Commits E q.rollback_to.state)
        → Extends h E (apply_from w req cfg before clear_sim m h s).trace
    unfolding apply_from
    apply_from_calls req cfg before clear_sim m h none c r k =
        (state_read none ∷ [], refl, (r none, tt))
    apply_from_calls req cfg before clear_sim m h (some s) c r k =
        let q = prepare req before s clear_sim m.pending in
        let e = state_read (some s) in
        let x = transact_calls cfg q m (e ∷ h) c (k s).0 (k s).1 in
        (
          x.0 ++ (e ∷ []),
          x.1 ∙ sym (append_assoc x.0 (e ∷ []) h),
          All-append E x.0 (e ∷ []) x.2 (r (some s), tt),
        )

    pub apply_calls :
        (req : Input) (cfg : Config) (before : Snapshot) (clear_sim : Bool) (m : Manager)
        (h : List Event)
        → StoresConfig E cfg
        → ((s : Option ConnectionState) → E (state_read s))
        → ((s : ConnectionState)
            → let q = prepare req before s clear_sim m.pending in
              Restores E q.rollback_to.before × Commits E q.rollback_to.state)
        → Extends h E (apply w req cfg before clear_sim m h).trace
    unfolding apply
    apply_calls req cfg before clear_sim m h c r k =
        apply_from_calls req cfg before clear_sim m h (w.state h) c r k

    -- What is read at the start, on which a condition `R` of the context may be shown.
    read_current_calls :
        (R : AttachContext → Type 0)
        → ((r : Option Settings) → E (eps_read r))
        → ((r : String) (a : AttachContext) → parse_cid1 w.library r ≡ some a → R a)
        → Triple (Since [] E) (read_current w) (λ s t. R s.cid × Since [] E t) (Since [] E)
    unfolding read_current Post
    read_current_calls R r f = bind _ _ (get_gsm-Keeps w [] E n.nm) (λ nm.
        bind _ _
          (get_eps_triple w (λ t a p. noted w [] E (eps_read (some a)) t (r (some a)) p)
            (λ t p. noted w [] E (eps_read none) t (r none) p))
          (λ mm.
            bind {Q = λ a t. R a × Since [] E t} _ _
              (read_cid_triple w
                (λ t s a p e.
                  (f s a e, noted w [] E (sent query_contexts (some s)) t (n.queried (some s)) p))
                (λ t s p. noted w [] E (sent query_contexts s) t (n.queried s) p))
              (λ a. record { after = λ t p. p })))

    module _ (req : Input) (cfg : Config) (clear_sim : Bool) (m : Manager) (c : StoresConfig E cfg)
        (rs : (s : Option ConnectionState) → E (state_read s)) where
      abbrev Prepares : Snapshot → Type 0
      Prepares before =
          (s : ConnectionState)
          → let q = prepare req before s clear_sim m.pending in
            Restores E q.rollback_to.before × Commits E q.rollback_to.state

      settle_trace : (r : Applied) → (settle w clear_sim req cfg r).trace ≡ r.trace
      unfolding settle
      settle_trace r = elim (Bool-cases r.done) [ inl e ↦ rw e refl | inr e ↦ rw e refl ]

      act_calls :
          (before : Snapshot) (h : List Event)
          → Prepares before
          → Extends h E (act w clear_sim req cfg m before h).trace
      unfolding act
      act_calls before h k = elim (Bool-cases (in_place req cfg before m)) [
        | inl e ↦ rw e ([], refl, tt)
        | inr e ↦
            elim (Bool-cases (leb max_apply_attempts m.attempts || ltb (w.now h) m.retry_at)) [
              | inl f ↦ rw (e, f) ([], refl, tt)
              | inr f ↦
                  rw (e, f)
                    (subst (Extends h E) (sym (settle_trace (apply w req cfg before clear_sim m h)))
                      (apply_calls req cfg before clear_sim m h c rs k))
            ]
      ]

      acted_calls :
          (R : AttachContext → Type 0) (r : Result Snapshot × Progress)
          → Post (λ s t. R s.cid × Since [] E t) (Since [] E) r
          → ((before : Snapshot) → R before.cid → Prepares before)
          → All E (acted w clear_sim req cfg m r).trace
      unfolding acted Post
      acted_calls R (ok before, t) (p, x) k =
          let (l, e, a) = act_calls before t.trace (k before p) in
          subst (All E) (sym e) (All-append E l t.trace a (All-of_Extends E t.trace x))
      acted_calls R (err e, t) x k = All-of_Extends E t.trace x

      pub observe_calls :
          (R : AttachContext → Type 0)
          → ((r : Option Settings) → E (eps_read r))
          → ((r : String) (a : AttachContext) → parse_cid1 w.library r ≡ some a → R a)
          → ((before : Snapshot) → R before.cid → Prepares before)
          → All E (observe w clear_sim req cfg m).trace
      unfolding observe
      observe_calls R r f k =
          acted_calls R _ ((read_current_calls R r f).after idle ([], refl, tt)) k

-- What every parsed context meets, the one that is read at the start meets.
pub read_current_cid :
    (w : World) (R : AttachContext → Type 0)
    → ((r : String) (a : AttachContext) → parse_cid1 w.library r ≡ some a → R a)
    → Post (λ s t. R s.cid) (λ t. Unit) (read_current w idle)
read_current_cid w R f =
    let n : Neutral (λ e. Unit) = record {
      nm = λ r. tt;
      queried = λ r. tt;
      deregistered = λ r. tt;
      suspended = λ b. tt;
      disconnected = λ b. tt;
    } in
    let j : Joins (λ e. Unit) = record { registered = λ r. tt; connected = λ b. tt } in
    let p = read_current_calls w (λ e. Unit) n j R (λ r. tt) f in
    weaken (λ s t. R s.cid × Since [] (λ e. Unit) t) (λ s t. R s.cid) (Since [] (λ e. Unit))
      (λ t. Unit) _ (p.after idle ([], refl, tt)) (λ s t x. x.0) (λ t x. tt)

-- The calls of the reads at the start.
pub read_current_reads :
    (w : World) (E : Event → Type 0) (n : Neutral E) (j : Joins E)
    → ((r : Option Settings) → E (eps_read r))
    → Post (λ s t. All E t.trace) (λ t. All E t.trace) (read_current w idle)
read_current_reads w E n j r =
    let p = read_current_calls w E n j (λ a. Unit) r (λ s a e. tt) in
    weaken (λ s t. Unit × Since [] E t) (λ s t. All E t.trace) (Since [] E) (λ t. All E t.trace) _
      (p.after idle ([], refl, tt)) (λ s t x. All-of_Extends E t.trace x.1)
      (λ t x. All-of_Extends E t.trace x)
