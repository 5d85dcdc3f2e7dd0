-- ===== src/Apn/Rules.antt =====
-- A program logic for the transactions of the APN manager (internal/apn/manager.go): what holds before
-- an action gives what holds after it, with its result or after an error.
use modem_service.Prelude.{
  String, Bool, true, false, Option, none, some, ◌∷◌, ◌≡◌, refl, Bool-cases, Option-cases, inl, inr,
}
use modem_service.Apn.{Config, Settings, AttachContext, parse_cid1}
use modem_service.Apn.Calls.{
  World, Command, query_contexts, Write, gsm_read, eps_read, wrote, sent, Failure, Result, ok, err,
  Progress, Action, note, gather, gathered, attempt, attempted, answered, bound, ◌>>=◌, raise_if,
  write, command, get_gsm, get_eps, read_cid,
}

module _ {A : Type 0} where
  unfoldable pub Post : (A → Progress → Type 0) → (Progress → Type 0) → Result A × Progress → Type 0
  Post Q E (ok a, t) = Q a t
  Post Q E (err e, t) = E t

  -- From `P` the action ends in `Q` with a result, or in `E` after an error.
  pub record Triple (P : Progress → Type 0) (m : Action A) (Q : A → Progress → Type 0)
      (E : Progress → Type 0) : Type 0 where
    pub after : (t : Progress) → P t → Post Q E (m t)

  -- Whatever happens, `P` stays.
  abbrev pub Keeps : (Progress → Type 0) → Action A → Type 0
  Keeps P m = Triple P m (λ a. P) P

  pub weaken :
      (Q R : A → Progress → Type 0) (E F : Progress → Type 0) (r : Result A × Progress)
      → Post Q E r
      → ((a : A) (t : Progress) → Q a t → R a t)
      → ((t : Progress) → E t → F t)
      → Post R F r
  unfolding Post
  weaken Q R E F (ok a, t) p h k = h a t p
  weaken Q R E F (err e, t) p h k = k t p

-- After an error nothing need be shown.
pub weakly :
    {A : Type 0} {P : Progress → Type 0} {m : Action A} {Q : A → Progress → Type 0}
    {E : Progress → Type 0}
    → Triple P m Q E
    → Triple P m Q (λ t. Unit)
weakly {m = m} {Q = Q} {E = E} p = record {
  after = λ t x. weaken Q Q E (λ t. Unit) (m t) (p.after t x) (λ a t q. q) (λ t e. tt);
}

gathered_post :
    {A : Type 0} (Q : A → Progress → Type 0) (E : Progress → Type 0)
    (R : Option A → Progress → Type 0) (F : Progress → Type 0) (r : Result A × Progress)
    → Post Q E r
    → ((a : A) (t : Progress) → Q a t → R (some a) t)
    → ((f : Failure) (t : Progress) → E t → R none (record t { failures = f ∷ t.failures }))
    → Post R F (gathered r)
unfolding gathered Post
gathered_post Q E R F (ok a, t) p h k = h a t p
gathered_post Q E R F (err e, t) p h k = k e t p

bound_post :
    {A B : Type 0} (Q : A → Progress → Type 0) (R : B → Progress → Type 0) (E : Progress → Type 0)
    (r : Result A × Progress) (k : A → Action B)
    → Post Q E r
    → ((a : A) → Triple (Q a) (k a) R E)
    → Post R E (bound r k)
unfolding bound Post
bound_post Q R E (ok a, t) k p h = (h a).after t p
bound_post Q R E (err e, t) k p h = p

pub bind :
    {A B : Type 0} {P : Progress → Type 0} {Q : A → Progress → Type 0} {R : B → Progress → Type 0}
    {E : Progress → Type 0} (m : Action A) (k : A → Action B)
    → Triple P m Q E
    → ((a : A) → Triple (Q a) (k a) R E)
    → Triple P (m >>= k) R E
bind {Q = Q} {R = R} {E = E} m k p h = record {
  after = λ t x. bound_post Q R E (m t) k (p.after t x) h;
}

attempted_post :
    {A : Type 0} (Q : A → Progress → Type 0) (E : Progress → Type 0)
    (R : Option A → Progress → Type 0) (F : Progress → Type 0) (r : Result A × Progress)
    → Post Q E r
    → ((a : A) (t : Progress) → Q a t → R (some a) t)
    → ((t : Progress) → E t → R none t)
    → Post R F (attempted r)
unfolding attempted Post
attempted_post Q E R F (ok a, t) p h k = h a t p
attempted_post Q E R F (err e, t) p h k = k t p

pub attempt_triple :
    {A : Type 0} {P : Progress → Type 0} {Q : A → Progress → Type 0} {E : Progress → Type 0}
    {R : Option A → Progress → Type 0} {F : Progress → Type 0} (m : Action A)
    → Triple P m Q E
    → ((a : A) (t : Progress) → Q a t → R (some a) t)
    → ((t : Progress) → E t → R none t)
    → Triple P (attempt m) R F
unfolding attempt
attempt_triple {Q = Q} {E = E} {R = R} {F = F} m p h k = record {
  after = λ t x. attempted_post Q E R F (m t) (p.after t x) h k;
}

pub gather_triple :
    {A : Type 0} {P : Progress → Type 0} {Q : A → Progress → Type 0} {E : Progress → Type 0}
    {R : Option A → Progress → Type 0} {F : Progress → Type 0} (m : Action A)
    → Triple P m Q E
    → ((a : A) (t : Progress) → Q a t → R (some a) t)
    → ((f : Failure) (t : Progress) → E t → R none (record t { failures = f ∷ t.failures }))
    → Triple P (gather m) R F
unfolding gather
gather_triple {Q = Q} {E = E} {R = R} {F = F} m p h k = record {
  after = λ t x. gathered_post Q E R F (m t) (p.after t x) h k;
}

pub raise_if_triple :
    {P : Progress → Type 0} {Q : Unit {0} → Progress → Type 0} {E : Progress → Type 0} (b : Bool)
    (f : Failure)
    → (b ≡ false → (t : Progress) → P t → Q tt t)
    → (b ≡ true → (t : Progress) → P t → E t)
    → Triple P (raise_if b f) Q E
unfolding Post
raise_if_triple true f h k = record { after = k refl }
raise_if_triple false f h k = record { after = h refl }

module _ (w : World) where
  pub write_triple :
      {P : Progress → Type 0} {Q : Unit {0} → Progress → Type 0} {E : Progress → Type 0} (c : Write)
      (f : Failure)
      → ((t : Progress) → P t → w.accepts t.trace c ≡ true → Q tt (note (wrote c true) t))
      → ((t : Progress) → P t → w.accepts t.trace c ≡ false → E (note (wrote c false) t))
      → Triple P (write w c f) Q E
  unfolding write Post
  write_triple c f h k = record {
    after = λ t p. elim (Bool-cases (w.accepts t.trace c)) [
      | inl e ↦ rw e (h t p e)
      | inr e ↦ rw e (k t p e)
    ];
  }

  pub command_triple :
      {P : Progress → Type 0} {Q : String → Progress → Type 0} {E : Progress → Type 0} (c : Command)
      (f : Failure)
      → ((t : Progress) (a : String) → P t → Q a (note (sent c (some a)) t))
      → ((t : Progress) → P t → E (note (sent c none) t))
      → Triple P (command w c f) Q E
  unfolding command answered Post
  command_triple c f h k = record {
    after = λ t p. elim (Option-cases (w.send t.trace c)) [
      | inl e ↦ rw e (k t p)
      | inr (a, e) ↦ rw e (h t a p)
    ];
  }

  pub get_gsm_triple :
      {P : Progress → Type 0} {Q : Config → Progress → Type 0} {E : Progress → Type 0}
      → ((t : Progress) (a : Config) → P t → Q a (note (gsm_read (some a)) t))
      → ((t : Progress) → P t → E (note (gsm_read none) t))
      → Triple P (get_gsm w) Q E
  unfolding get_gsm answered Post
  get_gsm_triple h k = record {
    after = λ t p. elim (Option-cases (w.get_gsm t.trace)) [
      | inl e ↦ rw e (k t p)
      | inr (a, e) ↦ rw e (h t a p)
    ];
  }

  pub get_eps_triple :
      {P : Progress → Type 0} {Q : Settings → Progress → Type 0} {E : Progress → Type 0}
      → ((t : Progress) (a : Settings) → P t → Q a (note (eps_read (some a)) t))
      → ((t : Progress) → P t → E (note (eps_read none) t))
      → Triple P (get_eps w) Q E
  unfolding get_eps answered Post
  get_eps_triple h k = record {
    after = λ t p. elim (Option-cases (w.get_eps t.trace)) [
      | inl e ↦ rw e (k t p)
      | inr (a, e) ↦ rw e (h t a p)
    ];
  }

  -- A context read is what the response parses to.
  pub read_cid_triple :
      {P : Progress → Type 0} {Q : AttachContext → Progress → Type 0} {E : Progress → Type 0}
      → ((t : Progress) (r : String) (a : AttachContext)
          → P t
          → parse_cid1 w.library r ≡ some a
          → Q a (note (sent query_contexts (some r)) t))
      → ((t : Progress) (r : Option String) → P t → E (note (sent query_contexts r) t))
      → Triple P (read_cid w) Q E
  unfolding read_cid answered command bound Post
  read_cid_triple h k = record {
    after = λ t p. elim (Option-cases (w.send t.trace query_contexts)) [
      | inl e ↦ rw e (k t none p)
      | inr (r, e) ↦ elim (Option-cases (parse_cid1 w.library r)) [
        | inl f ↦ rw (e, f) (k t (some r) p)
        | inr (a, f) ↦ rw (e, f) (h t r a p f)
      ]
    ];
  }
