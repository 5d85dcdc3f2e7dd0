-- ===== src/Inbox/Kept.antt =====
-- What every run of the inbox keeps (internal/sms/store.go).
use modem_service.Prelude.{
  ℕ, suc, ◌≤◌, String, Bool, true, false, ◌||◌, ◌≡◌, inl, inr, refl, ap, ◌∙◌, Option, none, some,
  List, [], ◌∷◌, All, length, length-take-le, take, arith, leb, leb→le, str_eq, eq_iff, if-elim,
  Bool-cases, Option-cases, zero,
}
use modem_service.Inbox.{
  Row, Inbox, Call, Message, Operation, records, forgets, lists, marks, deletes, forwards,
  open_inbox, inbox_limit, has_id, insert_row, is_old, drop_old, remove_row, set_read, trimmed,
  entry_of, stored, record_new, record_from, record_read, record_with_forward_since, forget_modem,
  list, mark_read, delete, step, run, known, queue_job, eligible, incoming,
}
use modem_service.Inbox.Text.{forward_text}

-- Some of the rows, in their order.
data Sub : List Row → List Row → Type 0 where
  none_left : (rs : List Row) → Sub [] rs
  kept : (r : Row) (xs rs : List Row) → Sub xs rs → Sub (r ∷ xs) (r ∷ rs)
  skipped : (r : Row) (xs rs : List Row) → Sub xs rs → Sub xs (r ∷ rs)

-- The newest first, and no id twice.
abbrev pub IsSorted : List Row → Type 0
IsSorted [] = Unit
IsSorted (r ∷ rs) = All (λ x. x.received_at ≤ r.received_at) rs × IsSorted rs

abbrev pub IsDistinct : List Row → Type 0
IsDistinct [] = Unit
IsDistinct (r ∷ rs) = (has_id r.id rs ≡ false) × IsDistinct rs

abbrev Kept : List Row → Type 0
Kept rs = IsSorted rs × IsDistinct rs

Sub-All : (P : Row → Type 0) (xs rs : List Row) → Sub xs rs → All P rs → All P xs
Sub-All P _ _ (none_left rs) a = tt
Sub-All P _ _ (kept r xs rs s) a = (a.0, Sub-All P xs rs s a.1)
Sub-All P _ _ (skipped r xs rs s) a = Sub-All P xs rs s a.1

or_false : (a b : Bool) → (a || b) ≡ false → (a ≡ false) × (b ≡ false)
or_false a b e = ground arith

Sub-has_id : (i : String) (xs rs : List Row) → Sub xs rs → has_id i rs ≡ false → has_id i xs ≡ false
unfolding has_id
Sub-has_id i _ _ (none_left rs) e = refl
Sub-has_id i _ _ (kept r xs rs s) e =
    let (a, b) = or_false (str_eq r.id i) (has_id i rs) e in rw (a, Sub-has_id i xs rs s b) refl
Sub-has_id i _ _ (skipped r xs rs s) e = Sub-has_id i xs rs s (or_false _ _ e).1

Sub-Kept : (xs rs : List Row) → Sub xs rs → Kept rs → Kept xs
Sub-Kept _ _ (none_left rs) k = (tt, tt)
Sub-Kept _ _ (kept r xs rs s) ((a, b), (c, d)) =
    let (e, f) = Sub-Kept xs rs s (b, d) in
    ((Sub-All (λ x. x.received_at ≤ r.received_at) xs rs s a, e), (Sub-has_id r.id xs rs s c, f))
Sub-Kept _ _ (skipped r xs rs s) ((a, b), (c, d)) = Sub-Kept xs rs s (b, d)

Sub-length : (xs rs : List Row) → Sub xs rs → length xs ≤ length rs
Sub-length _ _ (none_left rs) = omega arith
Sub-length _ _ (kept r xs rs s) = omega (arith, Sub-length xs rs s)
Sub-length _ _ (skipped r xs rs s) = omega (arith, Sub-length xs rs s)

Sub-take : (n : ℕ) (rs : List Row) → Sub (take n rs) rs
Sub-take zero rs = none_left rs
Sub-take (suc n) [] = none_left []
Sub-take (suc n) (r ∷ rs) = kept r (take n rs) rs (Sub-take n rs)

Sub-drop_old : (now : ℕ) (rs : List Row) → Sub (drop_old now rs) rs
unfolding drop_old
Sub-drop_old now [] = none_left []
Sub-drop_old now (r ∷ rs) =
    if-elim (λ x. Sub x (r ∷ rs)) (is_old now r) (drop_old now rs) (r ∷ drop_old now rs)
      (λ e. skipped r _ rs (Sub-drop_old now rs)) (λ e. kept r _ rs (Sub-drop_old now rs))

Sub-remove_row : (i : String) (rs : List Row) → Sub (remove_row i rs) rs
unfolding remove_row
Sub-remove_row i [] = none_left []
Sub-remove_row i (r ∷ rs) =
    if-elim (λ x. Sub x (r ∷ rs)) (str_eq r.id i) (remove_row i rs) (r ∷ remove_row i rs)
      (λ e. skipped r _ rs (Sub-remove_row i rs)) (λ e. kept r _ rs (Sub-remove_row i rs))

le_trans_rows :
    (m n : ℕ) (rs : List Row)
    → m ≤ n
    → All (λ x. x.received_at ≤ m) rs
    → All (λ x. x.received_at ≤ n) rs
le_trans_rows m n [] k a = tt
le_trans_rows m n (r ∷ rs) k (a, b) = (omega (arith, a, k), le_trans_rows m n rs k b)

insert_row-All :
    (P : Row → Type 0) (r : Row) (rs : List Row) → P r → All P rs → All P (insert_row r rs)
unfolding insert_row
insert_row-All P r [] p a = (p, tt)
insert_row-All P r (x ∷ xs) p (a, b) =
    if-elim (All P) (leb x.received_at r.received_at) (r ∷ x ∷ xs) (x ∷ insert_row r xs)
      (λ e. (p, (a, b))) (λ e. (a, insert_row-All P r xs p b))

insert_row-has_id :
    (i : String) (r : Row) (rs : List Row)
    → str_eq r.id i ≡ false
    → has_id i rs ≡ false
    → has_id i (insert_row r rs) ≡ false
unfolding insert_row has_id
insert_row-has_id i r [] e f = rw e refl
insert_row-has_id i r (x ∷ xs) e f =
    let (a, b) = or_false (str_eq x.id i) (has_id i xs) f in
    if-elim (λ l. has_id i l ≡ false) (leb x.received_at r.received_at) (r ∷ x ∷ xs)
      (x ∷ insert_row r xs) (λ g. rw (e, a, b) refl)
      (λ g. rw (a, insert_row-has_id i r xs e b) refl)

str_eq_sym : (a b : String) → str_eq a b ≡ false → str_eq b a ≡ false
str_eq_sym a b e = ground (arith, eq_iff a b, eq_iff b a)

above : (a b : ℕ) → leb a b ≡ false → b ≤ a
above a b e = ground arith

insert_row-Kept :
    (r : Row) (rs : List Row) → has_id r.id rs ≡ false → Kept rs → Kept (insert_row r rs)
unfolding insert_row has_id
insert_row-Kept r [] e k = ((tt, tt), (refl, tt))
insert_row-Kept r (x ∷ xs) e ((a, b), (c, d)) =
    let (f, g) = or_false _ _ e in
    if-elim Kept (leb x.received_at r.received_at) (r ∷ x ∷ xs) (x ∷ insert_row r xs)
      (λ h. let k = leb→le _ _ h in (((k, le_trans_rows _ _ xs k a), (a, b)), (e, (c, d))))
      (λ h.
        let (p, q) = insert_row-Kept r xs g (b, d) in
        (
          (insert_row-All (λ y. y.received_at ≤ x.received_at) r xs (above _ _ h) a, p),
          (insert_row-has_id x.id r xs (str_eq_sym x.id r.id f) c, q),
        ))

set_read-has_id : (j i : String) (rs : List Row) → has_id j (set_read i rs) ≡ has_id j rs
unfolding set_read has_id
set_read-has_id j i [] = refl
set_read-has_id j i (r ∷ rs) =
    if-elim
      (λ (x : Row). (str_eq x.id j || has_id j (set_read i rs)) ≡ (str_eq r.id j || has_id j rs))
      (str_eq r.id i) (record r { is_read = true }) r
      (λ e. ap (λ b. str_eq r.id j || b) (set_read-has_id j i rs))
      (λ e. ap (λ b. str_eq r.id j || b) (set_read-has_id j i rs))

set_read-length : (i : String) (rs : List Row) → length (set_read i rs) ≡ length rs
unfolding set_read
set_read-length i [] = refl
set_read-length i (r ∷ rs) = omega (arith, set_read-length i rs)

set_read-older :
    (i : String) (n : ℕ) (rs : List Row)
    → All (λ x. x.received_at ≤ n) rs
    → All (λ x. x.received_at ≤ n) (set_read i rs)
unfolding set_read
set_read-older i n [] a = tt
set_read-older i n (r ∷ rs) (a, b) = (
  if-elim (λ (x : Row). x.received_at ≤ n) (str_eq r.id i) (record r { is_read = true }) r (λ e. a)
      (λ e. a),
  set_read-older i n rs b,
)

set_read-Kept : (i : String) (rs : List Row) → Kept rs → Kept (set_read i rs)
unfolding set_read
set_read-Kept i [] k = k
set_read-Kept i (r ∷ rs) ((a, b), (c, d)) =
    let (e, f) = set_read-Kept i rs (b, d) in
    let P : Row → Type 0 = λ x.
      (All (λ y. y.received_at ≤ x.received_at) (set_read i rs) × IsSorted (set_read i rs))
      × ((has_id x.id (set_read i rs) ≡ false) × IsDistinct (set_read i rs)) in
    let q : P r = ((set_read-older i r.received_at rs a, e), (set_read-has_id r.id i rs ∙ c, f)) in
    if-elim P (str_eq r.id i) (record r { is_read = true }) r (λ g. q) (λ g. q)

-- At most 100 rows, in the order of the queries, with distinct ids.
abbrev pub IsInbox : Inbox → Type 0
IsInbox s = (length s.rows ≤ 100) × IsSorted s.rows × IsDistinct s.rows

shrunk : (xs : List Row) (s : Inbox) → Sub xs s.rows → IsInbox s → (length xs ≤ 100) × Kept xs
shrunk xs s u (n, a, b) = (omega (arith, Sub-length xs s.rows u, n), Sub-Kept xs s.rows u (a, b))

trimmed-IsInbox :
    (now : ℕ) (rs : List Row) → Kept rs → (length (trimmed now rs) ≤ 100) × Kept (trimmed now rs)
unfolding trimmed
trimmed-IsInbox now rs k =
    let t = take inbox_limit rs in
    let u = Sub-drop_old now t in
    (
      omega (arith, Sub-length (drop_old now t) t u, length-take-le inbox_limit rs),
      Sub-Kept (drop_old now t) t u (Sub-Kept t rs (Sub-take inbox_limit rs) k),
    )

record_new-IsInbox :
    (c : Call) (m : Message) (d : String) (a : ℕ) (i : String) (s : Inbox)
    → IsInbox s
    → IsInbox (record_new c m d a i s).0
unfolding record_new stored entry_of
record_new-IsInbox c m d a i s (n, x, y) = elim (Bool-cases (has_id i s.rows)) [
  | inl e ↦ rw e (n, x, y)
  | inr e ↦
      elim (Option-cases
        (queue_job c m d (eligible c a) (forward_text c.valid (incoming m) d) i s.queue)) [
          | inl f ↦ rw (e, f) (n, x, y)
          | inr (q, f) ↦ elim (Bool-cases c.commits) [
            | inl g ↦
                rw (e, f, g)
                  (let (l, (p, r)) =
                      trimmed-IsInbox c.now _ (insert_row-Kept (entry_of c m i) s.rows e (x, y)) in
                    (l, p, r))
            | inr g ↦ rw (e, f, g) (n, x, y)
          ]
        ]
]

record_from-IsInbox :
    (c : Call) (m : Message) (d : String) (a : ℕ) (i : String) (k : Option String) (s : Inbox)
    → IsInbox s
    → IsInbox (record_from c m d a i k s).0
unfolding record_from
record_from-IsInbox c m d a i (some k) s h = h
record_from-IsInbox c m d a i none s h = record_new-IsInbox c m d a i s h

records-IsInbox :
    (c : Call) (m : Message) (d : String) (a : ℕ) (s : Inbox) (b : Bool) (o : Option String)
    → IsInbox s
    → IsInbox (record_read c m d a s b o).0
unfolding record_read
records-IsInbox c m d a s b none h = h
records-IsInbox c m d a s false (some i) h = h
records-IsInbox c m d a s true (some i) h = record_from-IsInbox c m d a i (known c m s) s h

step-IsInbox : (o : Operation) (s : Inbox) → IsInbox s → IsInbox (step o s)
unfolding step record_with_forward_since forget_modem list mark_read delete
step-IsInbox (records c m d a) s h = records-IsInbox c m d a s c.reads c.random h
step-IsInbox (forgets commits path) s h = elim (Bool-cases commits) [
  | inl e ↦ rw e h
  | inr e ↦ rw e h
]
step-IsInbox (lists commits reads now) s h = elim (Bool-cases commits) [
  | inl e ↦ rw e (let (n, (a, b)) = shrunk _ s (Sub-drop_old now s.rows) h in (n, a, b))
  | inr e ↦ rw e h
]
step-IsInbox (marks commits i) s (n, a, b) = elim (Bool-cases commits) [
  | inl e ↦ rw e (
      let (c, d) = set_read-Kept i s.rows (a, b) in
      (omega (arith, set_read-length i s.rows, n), c, d))
  | inr e ↦ rw e (n, a, b)
]
step-IsInbox (deletes commits i) s h = elim (Bool-cases commits) [
  | inl e ↦ rw e (let (n, (a, b)) = shrunk _ s (Sub-remove_row i s.rows) h in (n, a, b))
  | inr e ↦ rw e h
]
step-IsInbox (forwards o) s h = h

run_from-IsInbox : (os : List Operation) (s : Inbox) → IsInbox s → IsInbox (run os s)
unfolding run
run_from-IsInbox [] s h = h
run_from-IsInbox (o ∷ os) s h = run_from-IsInbox os (step o s) (step-IsInbox o s h)

-- After every run of operations on a new inbox there are at most 100 rows, they stand with the newest
-- first, whatever the clock did, and no id stands twice.
pub run-IsInbox : (os : List Operation) → IsInbox (run os open_inbox)
unfolding open_inbox
run-IsInbox os = run_from-IsInbox os open_inbox (omega arith, tt, tt)
