-- ===== src/Sms/Delivery.antt =====
-- What becomes of an inbound message (internal/sms/manager.go).
use text.Mathlib.TextPositions.{eq_refl}
use modem_service.Prelude.{
  String, Bool, true, false, ◌&&◌, ◌||◌, ◌==◌, Option, none, some, List, [], ◌∷◌, ◌++◌, ◌≡◌, ◌≢◌,
  refl, sym, ◌∙◌, subst, Bool-cases, Option-cases, ◌⊎◌, inl, inr, All, arith, str_eq, eq_iff,
}
use modem_service.Sms.{
  Manager, Event, Answers, Properties, Identity, delivers, deletes, releases, process_one,
  process_inbound, set, known_as, identity_of, identity_eq, zero_identity, message_of, is_empty,
  is_outbound, state_receiving, pdu_type_status_report, new,
}
use modem_service.Sms.Runs.{Operation, adds, drains, transmits, Every, run, run_keeps}

-- The event is a successful delivery of the message `d` at `path`.
abbrev pub told_by : String → Identity → Event → Bool
told_by path d (delivers x true) =
    str_eq x.source_path path
    && str_eq x.number d.number
    && str_eq x.text d.text
    && str_eq x.source_timestamp d.timestamp
told_by path d _ = false

-- The history delivers the message.
unfoldable pub told : String → Identity → List Event → Bool
told path d [] = false
told path d (e ∷ es) = told_by path d e || told path d es

told-append :
    (path : String) (d : Identity) (l m : List Event)
    → told path d (l ++ m) ≡ (told path d l || told path d m)
unfolding told
told-append path d [] m = refl
told-append path d (e ∷ l) m = ground (arith, told-append path d l m)

-- The trace asks for the deletion of `path`.
abbrev deletes_it : String → Event → Bool
deletes_it path (deletes modem q ok) = str_eq q path
deletes_it path _ = false

unfoldable pub asks_deletion : String → List Event → Bool
asks_deletion path [] = false
asks_deletion path (e ∷ es) = deletes_it path e || asks_deletion path es

-- The message comes from the network.
abbrev pub Inbound : Properties → Type 0
Inbound p =
    ((p.state == state_receiving) ≡ false)
    × ((p.pdu_type == pdu_type_status_report) ≡ false)
    × (is_outbound p ≡ false)

process_one-Inbound :
    (modem path : String) (a : Answers) (p : Properties) (m : Manager)
    → a.properties ≡ some p
    → Inbound p
    → process_one modem path a m ≡ process_inbound modem path p a m
unfolding process_one
process_one-Inbound modem path a p m e i = rw (e, i.0, i.1, i.2) refl

none-ne-some : (x : Identity) → none ≢ some x
none-ne-some x = λ e. ground arith

true-ne-false : true ≢ false
true-ne-false = λ e. ground arith

some-inj : {x y : Identity} → some x ≡ some y → x ≡ y
some-inj e = ground arith

-- All that the manager remembers has been delivered.
abbrev Remembers : Manager → List Event → Type 0
Remembers m h = (q : String) (d : Identity) → m q ≡ some d → told q d h ≡ true

-- What the manager does with an inbound message: it keeps it, asks again for the deletion of one it
-- knows, fails to deliver it, or delivers it and asks for its deletion, which succeeds or fails.
abbrev pub Shape : String → String → Properties → Answers → Manager → Manager × List Event → Type 0
Shape modem path p a m r =
    (r ≡ (m, []))
    ⊎ ((known_as (m path) (identity_of p) ≡ true)
        × (r ≡ (set m path none, deletes modem path true ∷ releases path ∷ [])))
    ⊎ ((known_as (m path) (identity_of p) ≡ true) × (r ≡ (m, deletes modem path false ∷ [])))
    ⊎ (r ≡ (m, delivers (message_of path p a) false ∷ []))
    ⊎ ((known_as (m path) (identity_of p) ≡ false)
        × (r ≡ (
          set m path none,
          delivers (message_of path p a) true ∷ deletes modem path true ∷ releases path ∷ [],
        )))
    ⊎ ((known_as (m path) (identity_of p) ≡ false)
        × (r ≡ (
          set m path (some (identity_of p)),
          delivers (message_of path p a) true ∷ deletes modem path false ∷ [],
        )))

pub inbound-Shape :
    (modem path : String) (p : Properties) (a : Answers) (m : Manager)
    → Shape modem path p a m (process_inbound modem path p a m)
unfolding process_inbound
inbound-Shape modem path p a m = elim (Bool-cases (is_empty p.data_bytes)) [
  | inr b ↦ inl (rw b refl)
  | inl b ↦ elim (Bool-cases (known_as (m path) (identity_of p))) [
    | inl k ↦ elim (Bool-cases a.deletion_ok) [
      | inl d ↦ inr (inl (k, rw (b, k, d) refl))
      | inr d ↦ inr (inr (inl (k, rw (b, k, d) refl)))
    ]
    | inr k ↦ elim (Bool-cases a.delivery_ok) [
      | inr o ↦ inr (inr (inr (inl (rw (b, k, o) refl))))
      | inl o ↦ elim (Bool-cases a.deletion_ok) [
        | inl d ↦ inr (inr (inr (inr (inl (k, rw (b, k, o, d) refl)))))
        | inr d ↦ inr (inr (inr (inr (inr (k, rw (b, k, o, d) refl)))))
      ]
    ]
  ]
]

pub process_one_cases :
    (modem path : String) (a : Answers) (m : Manager)
    → let r = process_one modem path a m in
      (r ≡ (m, []))
      ⊎ (r ≡ (m, deletes modem path a.deletion_ok ∷ []))
      ⊎ ((p : Properties) × (a.properties ≡ some p) × (r ≡ process_inbound modem path p a m))
unfolding process_one
process_one_cases modem path a m = elim (Option-cases a.properties) [
  | inl e ↦ inl (rw e refl)
  | inr (p, e) ↦ elim (Bool-cases (p.state == state_receiving)) [
    | inl s ↦ inl (rw (e, s) refl)
    | inr s ↦ elim (Bool-cases (p.pdu_type == pdu_type_status_report)) [
      | inl t ↦ inr (inl (rw (e, s, t) refl))
      | inr t ↦ elim (Bool-cases (is_outbound p)) [
        | inl o ↦ inr (inl (rw (e, s, t, o) refl))
        | inr o ↦ inr (inr (p, e, process_one-Inbound modem path a p m e (s, t, o)))
      ]
    ]
  ]
]

told-append_left :
    (q : String) (d : Identity) (h l : List Event) → told q d h ≡ true → told q d (h ++ l) ≡ true
told-append_left q d h l t = ground (arith, told-append q d h l)

told-append_right :
    (q : String) (d : Identity) (h l : List Event) → told q d l ≡ true → told q d (h ++ l) ≡ true
told-append_right q d h l t = ground (arith, told-append q d h l)

Remembers-more : (m : Manager) (h l : List Event) → Remembers m h → Remembers m (h ++ l)
Remembers-more m h l r = λ q d e. told-append_left q d h l (r q d e)

Remembers-none :
    (path : String) (m : Manager) (h l : List Event)
    → Remembers m h
    → Remembers (set m path none) (h ++ l)
Remembers-none path m h l r = λ q d e. elim (Bool-cases (str_eq q path)) [
  | inl s ↦ absurd (none-ne-some d (rw s at e))
  | inr s ↦ told-append_left q d h l (r q d (rw s at e))
]

Remembers-some :
    (path : String) (x : Identity) (m : Manager) (h l : List Event)
    → told path x l ≡ true
    → Remembers m h
    → Remembers (set m path (some x)) (h ++ l)
Remembers-some path x m h l t r = λ q d e. elim (Bool-cases (str_eq q path)) [
  | inl s ↦ told-append_right q d h l (
      subst (λ q. told q d l ≡ true) (sym ((eq_iff q path).0 s))
        (subst (λ d. told path d l ≡ true) (some-inj (rw s at e)) t))
  | inr s ↦ told-append_left q d h l (r q d (rw s at e))
]

abbrev Honest : List Event → Manager × List Event → Type 0
Honest h r = Remembers r.0 (h ++ r.1)

told_self :
    (path : String) (p : Properties) (a : Answers) (l : List Event)
    → told path (identity_of p) (delivers (message_of path p a) true ∷ l) ≡ true
unfolding told message_of
told_self path p a l =
    ground (arith, eq_refl path, eq_refl p.number, eq_refl p.text, eq_refl p.timestamp)

inbound-Honest :
    (modem path : String) (p : Properties) (a : Answers) (m : Manager) (h : List Event)
    → Remembers m h
    → Honest h (process_inbound modem path p a m)
inbound-Honest modem path p a m h k = elim (inbound-Shape modem path p a m) [
  | inl e ↦ subst (Honest h) (sym e) (Remembers-more m h _ k)
  | inr (inl (_, e)) ↦ subst (Honest h) (sym e) (Remembers-none path m h _ k)
  | inr (inr (inl (_, e))) ↦ subst (Honest h) (sym e) (Remembers-more m h _ k)
  | inr (inr (inr (inl e))) ↦ subst (Honest h) (sym e) (Remembers-more m h _ k)
  | inr (inr (inr (inr (inl (_, e))))) ↦ subst (Honest h) (sym e) (Remembers-none path m h _ k)
  | inr (inr (inr (inr (inr (_, e))))) ↦
      subst (Honest h) (sym e) (Remembers-some path (identity_of p) m h _ (told_self path p a _) k)
]

-- Nothing is asked of a message.
abbrev Any : String → Answers → Type 0
Any path a = Unit {0}

one-Honest :
    (modem path : String) (a : Answers) (m : Manager) (h : List Event)
    → Any path a
    → Remembers m h
    → Honest h (process_one modem path a m)
one-Honest modem path a m h u k = elim (process_one_cases modem path a m) [
  | inl e ↦ subst (Honest h) (sym e) (Remembers-more m h _ k)
  | inr (inl e) ↦ subst (Honest h) (sym e) (Remembers-more m h _ k)
  | inr (inr (p, _, e)) ↦ subst (Honest h) (sym e) (inbound-Honest modem path p a m h k)
]

All-Any : (l : List (String × Answers)) → All (λ x. Any x.0 x.1) l
All-Any [] = tt
All-Any (x ∷ l) = (tt, All-Any l)

Every-Any : (os : List Operation) → All (Every Any) os
unfolding Every
Every-Any [] = tt
Every-Any (adds modem path a ∷ os) = (tt, Every-Any os)
Every-Any (drains modem none ∷ os) = (tt, Every-Any os)
Every-Any (drains modem (some l) ∷ os) = (All-Any l, Every-Any os)
Every-Any (transmits modem r created sent deleted ∷ os) = (tt, Every-Any os)

run-Remembers : (os : List Operation) → Remembers (run os (new, [])).0 (run os (new, [])).1
unfolding new
run-Remembers os =
    run_keeps Any Remembers one-Honest (λ modem r c s d m h k. Remembers-more m h _ k) os new []
      (Every-Any os) (λ q d e. absurd (none-ne-some d e))

-- What the manager knows by its identity, it remembers, unless the identity is the zero value.
known_remembered :
    (o : Option Identity) (d : Identity)
    → known_as o d ≡ true
    → identity_eq zero_identity d ≡ false
    → o ≡ some d
known_remembered none d k z = absurd (true-ne-false (sym k ∙ z))
known_remembered (some x) d k z =
    ground (arith, eq_iff x.number d.number, eq_iff x.text d.text, eq_iff x.timestamp d.timestamp)

abbrev Backed : String → Identity → List Event → List Event → Type 0
Backed path d h l = asks_deletion path l ≡ true → told path d (h ++ l) ≡ true

inbound-Backed :
    (modem path : String) (p : Properties) (a : Answers) (m : Manager) (h : List Event)
    → identity_eq zero_identity (identity_of p) ≡ false
    → Remembers m h
    → Backed path (identity_of p) h (process_inbound modem path p a m).1
unfolding asks_deletion
inbound-Backed modem path p a m h z k =
    let d = identity_of p in
    let old : (l : List Event) → known_as (m path) d ≡ true → Backed path d h l =
      λ l t s. told-append_left path d h l (k path d (known_remembered (m path) d t z)) in
    elim (inbound-Shape modem path p a m) [
      | inl e ↦ rw e (λ s. ground arith)
      | inr (inl (t, e)) ↦ rw e (old _ t)
      | inr (inr (inl (t, e))) ↦ rw e (old _ t)
      | inr (inr (inr (inl e))) ↦ rw e (λ s. ground arith)
      | inr (inr (inr (inr (inl (_, e))))) ↦
          rw e (λ s. told-append_right path d h _ (told_self path p a _))
      | inr (inr (inr (inr (inr (_, e))))) ↦
          rw e (λ s. told-append_right path d h _ (told_self path p a _))
    ]

-- No inbound message is lost: after any operations of a new manager, whatever fails, the deletion of
-- an inbound message whose sender, text and timestamp are not all empty is asked for only if the
-- same message has been delivered with success, before or in the same step.
pub deletion_delivered :
    (os : List Operation) (modem path : String) (a : Answers) (p : Properties)
    → a.properties ≡ some p
    → Inbound p
    → identity_eq zero_identity (identity_of p) ≡ false
    → let (m, h) = run os (new, []) in
      let l = (process_one modem path a m).1 in
      asks_deletion path l ≡ true → told path (identity_of p) (h ++ l) ≡ true
deletion_delivered os modem path a p e i z =
    let m = (run os (new, [])).0 in
    rw (process_one-Inbound modem path a p m e i)
      (inbound-Backed modem path p a m (run os (new, [])).1 z (run-Remembers os))

known_deletes :
    (modem path : String) (p : Properties) (a : Answers) (m : Manager)
    → p.data_bytes ≡ []
    → known_as (m path) (identity_of p) ≡ true
    → let l = (process_inbound modem path p a m).1 in
      (asks_deletion path l ≡ true) × (told path (identity_of p) l ≡ false)
unfolding process_inbound asks_deletion told
known_deletes modem path p a m b k = elim (Bool-cases a.deletion_ok) [
  | inl d ↦ rw (b, k, d, eq_refl path) (refl, refl)
  | inr d ↦ rw (b, k, d, eq_refl path) (refl, refl)
]

-- If nothing is remembered of its path, an inbound text message without sender, text and
-- timestamp is not delivered, and yet its deletion is asked for.
pub blank_message_deleted :
    (modem path : String) (a : Answers) (p : Properties) (m : Manager)
    → a.properties ≡ some p
    → Inbound p
    → p.data_bytes ≡ []
    → identity_of p ≡ zero_identity
    → m path ≡ none
    → (asks_deletion path (process_one modem path a m).1 ≡ true)
      × (told path (identity_of p) (process_one modem path a m).1 ≡ false)
blank_message_deleted modem path a p m e i b z n =
    rw (process_one-Inbound modem path a p m e i)
      (known_deletes modem path p a m b (rw n (subst (λ d. known_as none d ≡ true) (sym z) refl)))
