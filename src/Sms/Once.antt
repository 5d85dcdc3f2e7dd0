-- ===== src/Sms/Once.antt =====
-- A message is not delivered twice (internal/sms/manager.go).
use text.Mathlib.TextPositions.{eq_refl}
use modem_service.Prelude.{
  ℕ, ◌+◌, ◌≤◌, String, Bool, true, false, Option, none, some, List, [], ◌∷◌, ◌++◌, ◌≡◌, refl, sym,
  subst, Bool-cases, Option-cases, ◌⊎◌, inl, inr, All, arith, str_eq, eq_iff, if◌then◌else◌,
}
use modem_service.Sms.{
  Manager, Event, Answers, Properties, Identity, Request, delivers, deletes, process_one,
  process_inbound, set, known_as, identity_of, identity_eq, message_of, new, send,
}
use modem_service.Sms.Runs.{Operation, Every, run, run_keeps}
use modem_service.Sms.Delivery.{inbound-Shape, process_one_cases}

abbrev delivery_of : String → Event → ℕ
delivery_of path (delivers x true) = if str_eq x.source_path path then 1 else 0
delivery_of path _ = 0

abbrev deletion_of : String → Event → ℕ
deletion_of path (deletes modem q true) = if str_eq q path then 1 else 0
deletion_of path _ = 0

-- How often the history delivers a message of `path` with success.
pub deliveries : String → List Event → ℕ
deliveries path [] = 0
deliveries path (e ∷ es) = delivery_of path e + deliveries path es

-- How often the history deletes `path` with success.
pub deletions : String → List Event → ℕ
deletions path [] = 0
deletions path (e ∷ es) = deletion_of path e + deletions path es

deliveries-append :
    (path : String) (l m : List Event)
    → deliveries path (l ++ m) ≡ deliveries path l + deliveries path m
unfolding deliveries
deliveries-append path [] m = omega arith
deliveries-append path (e ∷ l) m = omega (arith, deliveries-append path l m)

deletions-append :
    (path : String) (l m : List Event)
    → deletions path (l ++ m) ≡ deletions path l + deletions path m
unfolding deletions
deletions-append path [] m = omega arith
deletions-append path (e ∷ l) m = omega (arith, deletions-append path l m)

abbrev pending : Option Identity → ℕ
pending none = 0
pending (some x) = 1

-- Whatever is read at `path` is the message `d`.
abbrev pub Only : String → Identity → String → Answers → Type 0
Only path d q a =
    (p : Properties) → str_eq q path ≡ true → a.properties ≡ some p → identity_of p ≡ d

-- Each delivery but the one that waits for its deletion has been followed by a deletion.
abbrev Paid : String → Identity → Manager → List Event → Type 0
Paid path d m h =
    ((m path ≡ none) ⊎ (m path ≡ some d))
    × (deliveries path h ≤ deletions path h + pending (m path))

abbrev Settled : String → Identity → List Event → Manager × List Event → Type 0
Settled path d h r = Paid path d r.0 (h ++ r.1)

-- A trace with no delivery.
Paid-quiet :
    (path : String) (d : Identity) (m : Manager) (h l : List Event)
    → deliveries path l ≡ 0
    → Paid path d m h
    → Paid path d m (h ++ l)
Paid-quiet path d m h l e (k, b) =
    (k, omega (arith, deliveries-append path h l, deletions-append path h l))

send-deliveries :
    (path modem : String) (r : Request) (created : Option String) (sent deleted : Bool)
    → deliveries path (send modem r created sent deleted).1 ≡ 0
unfolding send deliveries
send-deliveries path modem r created sent deleted = elim (Option-cases created) [
  | inl e ↦ rw e (ground arith)
  | inr (x, e) ↦ rw e (ground arith)
]

identity_eq_refl : (d : Identity) → identity_eq d d ≡ true
identity_eq_refl d = ground (arith, eq_refl d.number, eq_refl d.text, eq_refl d.timestamp)

unknown_none :
    (o : Option Identity) (d : Identity)
    → (o ≡ none) ⊎ (o ≡ some d)
    → known_as o d ≡ false
    → o ≡ none
unknown_none o d (inl e) k = e
unknown_none o d (inr e) k = absurd (ground (arith, identity_eq_refl d, rw e at k))

-- A change of another entry.
Paid-away :
    (path q : String) (d : Identity) (v : Option Identity) (m : Manager) (h l : List Event)
    → str_eq path q ≡ false
    → deliveries path l ≡ 0
    → Paid path d m h
    → Paid path d (set m q v) (h ++ l)
Paid-away path q d v m h l k e b = rw k (Paid-quiet path d m h l e b)

-- The message at `path` is another than the one that is handled.
elsewhere :
    (modem path q : String) (d : Identity) (p : Properties) (a : Answers) (m : Manager)
    (h : List Event)
    → str_eq q path ≡ false
    → str_eq path q ≡ false
    → Paid path d m h
    → Settled path d h (process_inbound modem q p a m)
unfolding deliveries deletions message_of
elsewhere modem path q d p a m h n k b = elim (inbound-Shape modem q p a m) [
  | inl e ↦ subst (Settled path d h) (sym e) (Paid-quiet path d m h _ refl b)
  | inr (inl (t, e)) ↦ subst (Settled path d h) (sym e) (Paid-away path q d _ m h _ k refl b)
  | inr (inr (inl (t, e))) ↦ subst (Settled path d h) (sym e) (Paid-quiet path d m h _ refl b)
  | inr (inr (inr (inl e))) ↦ subst (Settled path d h) (sym e) (Paid-quiet path d m h _ refl b)
  | inr (inr (inr (inr (inl (t, e))))) ↦
      subst (Settled path d h) (sym e) (Paid-away path q d _ m h _ k (rw n refl) b)
  | inr (inr (inr (inr (inr (t, e))))) ↦
      subst (Settled path d h) (sym e) (Paid-away path q d _ m h _ k (rw n refl) b)
]

-- The entry of `path` itself changes, and the trace pays for it.
Paid-here :
    (path : String) (d : Identity) (v : Option Identity) (m : Manager) (h l : List Event)
    → (v ≡ none) ⊎ (v ≡ some d)
    → deliveries path l + pending (m path) ≤ deletions path l + pending v
    → Paid path d m h
    → Paid path d (set m path v) (h ++ l)
Paid-here path d v m h l s e (k, b) =
    rw (eq_refl path) (s, omega (arith, deliveries-append path h l, deletions-append path h l))

pending-le : (o : Option Identity) → pending o ≤ 1
pending-le none = omega arith
pending-le (some x) = omega arith

here :
    (modem path : String) (p : Properties) (a : Answers) (m : Manager) (h : List Event)
    → Paid path (identity_of p) m h
    → Settled path (identity_of p) h (process_inbound modem path p a m)
unfolding deliveries deletions message_of
here modem path p a m h b =
    let d = identity_of p in
    elim (inbound-Shape modem path p a m) [
      | inl e ↦ subst (Settled path d h) (sym e) (Paid-quiet path d m h _ refl b)
      | inr (inl (t, e)) ↦ subst (Settled path d h) (sym e) (
          Paid-here path d none m h _ (inl refl)
            (rw (eq_refl path) (omega (arith, pending-le (m path)))) b)
      | inr (inr (inl (t, e))) ↦ subst (Settled path d h) (sym e) (Paid-quiet path d m h _ refl b)
      | inr (inr (inr (inl e))) ↦ subst (Settled path d h) (sym e) (Paid-quiet path d m h _ refl b)
      | inr (inr (inr (inr (inl (t, e))))) ↦ subst (Settled path d h) (sym e) (
          Paid-here path d none m h _ (inl refl)
            (rw (eq_refl path, unknown_none (m path) d b.0 t) (omega arith)) b)
      | inr (inr (inr (inr (inr (t, e))))) ↦ subst (Settled path d h) (sym e) (
          Paid-here path d (some d) m h _ (inr refl)
            (rw (eq_refl path, unknown_none (m path) d b.0 t) (omega arith)) b)
    ]

str_eq_sym : (s t : String) → str_eq s t ≡ false → str_eq t s ≡ false
str_eq_sym s t h = ground (arith, eq_iff s t, eq_iff t s)

-- One inbound message, at `path` or elsewhere.
inbound_settles :
    (modem path q : String) (d : Identity) (p : Properties) (a : Answers) (m : Manager)
    (h : List Event)
    → (str_eq q path ≡ true → identity_of p ≡ d)
    → Paid path d m h
    → Settled path d h (process_inbound modem q p a m)
inbound_settles modem path q d p a m h o b = elim (Bool-cases (str_eq q path)) [
  | inr n ↦ elsewhere modem path q d p a m h n (str_eq_sym q path n) b
  | inl y ↦
      let at_path = sym ((eq_iff q path).0 y) in
      subst (λ q. Settled path d h (process_inbound modem q p a m)) at_path
        (subst (λ d. Paid path d m h → Settled path d h (process_inbound modem path p a m)) (o y)
          (here modem path p a m h) b)
]

one_settles :
    (path : String) (d : Identity) (modem q : String) (a : Answers) (m : Manager) (h : List Event)
    → Only path d q a
    → Paid path d m h
    → Settled path d h (process_one modem q a m)
unfolding deliveries
one_settles path d modem q a m h o b = elim (process_one_cases modem q a m) [
  | inl e ↦ subst (Settled path d h) (sym e) (Paid-quiet path d m h _ refl b)
  | inr (inl e) ↦ subst (Settled path d h) (sym e) (Paid-quiet path d m h _ refl b)
  | inr (inr (p, k, e)) ↦
      subst (Settled path d h) (sym e) (inbound_settles modem path q d p a m h (λ y. o p y k) b)
]

-- A message is not delivered twice: in any run of a new manager in which `path` stands for one
-- message, whatever fails, the message is delivered at most once more often than `path` is deleted,
-- and so at most once while it stays in the modem.
pub delivered_once :
    (path : String) (d : Identity) (os : List Operation)
    → All (Every (Only path d)) os
    → let h = (run os (new, [])).1 in deliveries path h ≤ deletions path h + 1
unfolding new deliveries deletions
delivered_once path d os c =
    let (_, b) =
      run_keeps (Only path d) (Paid path d) (one_settles path d)
        (λ modem r s t u m h k. Paid-quiet path d m h _ (send-deliveries path modem r s t u) k) os
        new [] c (inl refl, omega arith) in
    omega (arith, b, pending-le ((run os (new, [])).0 path))
