-- ===== src/Inbox/Known.antt =====
-- A message that the modem still holds after it was recorded (internal/sms/store.go).
use text.Mathlib.TextPositions.{eq_refl}
use modem_service.Prelude.{
  ℕ, String, Bool, true, false, not, ◌&&◌, ◌≡◌, ◌≢◌, inl, inr, refl, sym, ap, ◌∙◌, Option, none,
  some, List, [], ◌∷◌, All, arith, str_eq, if-elim, Bool-cases, Option-cases,
}
use modem_service.Forward
use modem_service.Inbox.{
  Row, Copy, Inbox, Call, Message, Operation, records, forgets, lists, marks, deletes, forwards,
  has_id, entry_of, stored, remember, fingerprint_of, record_new, record_from, record_read,
  record_with_forward_since, forget_modem, list, mark_read, delete, step, run, known, queue_job,
  eligible, incoming,
}
use modem_service.Inbox.Text.{forward_text}

-- Operations that leave what is known under a path.
abbrev pub Spares : String → Operation → Type 0
Spares path (records c m d a) = str_eq path m.source_path ≡ false
Spares path (forgets commits p) = str_eq path p ≡ false
Spares path (lists commits reads now) = Unit
Spares path (marks commits i) = Unit
Spares path (deletes commits i) = Unit
Spares path (forwards o) = Unit

-- The id of a new entry.
abbrev pub new_id : Option (Row × Bool) → Option String
new_id none = none
new_id (some (e, true)) = some e.id
new_id (some (e, false)) = none

none-ne-some : {A : Type 0} (a : A) → none ≢ some a
none-ne-some a = λ e. ground arith

record_new_cases :
    (P : Inbox × Option (Row × Bool) → Type 0) (c : Call) (m : Message) (d : String) (a : ℕ)
    (i : String) (s : Inbox)
    → P (s, none)
    → ((q : Forward.Store) → P (stored c m i s q, some (entry_of c m i, true)))
    → P (record_new c m d a i s)
unfolding record_new
record_new_cases P c m d a i s n k = elim (Bool-cases (has_id i s.rows)) [
  | inl e ↦ rw e n
  | inr e ↦
      elim (Option-cases
        (queue_job c m d (eligible c a) (forward_text c.valid (incoming m) d) i s.queue)) [
          | inl f ↦ rw (e, f) n
          | inr (q, f) ↦ rw (e, f) (if-elim P c.commits _ _ (λ g. k q) (λ g. n))
        ]
]

and_false : (b : Bool) → (not b && false) ≡ false
and_false true = refl
and_false false = refl

remember_other :
    (path p : String) (x : Copy) (f : String → Option Copy)
    → str_eq path p ≡ false
    → remember p x f path ≡ f path
remember_other path p x f e = rw (e, and_false (str_eq p "")) refl

module _ (path : String) where
  records_spared :
      (c : Call) (m : Message) (d : String) (a : ℕ) (s : Inbox) (b : Bool) (o : Option String)
      → str_eq path m.source_path ≡ false
      → (record_read c m d a s b o).0.pending path ≡ s.pending path
  unfolding record_read record_from stored
  records_spared c m d a s b none e = refl
  records_spared c m d a s false (some i) e = refl
  records_spared c m d a s true (some i) e = elim (Option-cases (known c m s)) [
    | inr (k, f) ↦ rw f refl
    | inl f ↦ rw f (
        record_new_cases (λ r. r.0.pending path ≡ s.pending path) c m d a i s refl
          (λ q. remember_other path m.source_path _ s.pending e))
  ]

  forget_spared :
      (commits : Bool) (p : String) (s : Inbox)
      → str_eq path p ≡ false
      → (forget_modem commits p s).pending path ≡ s.pending path
  unfolding forget_modem
  forget_spared true p s e = rw e refl
  forget_spared false p s e = refl

  list_spared :
      (commits reads : Bool) (now : ℕ) (s : Inbox)
      → (list commits reads now s).0.pending path ≡ s.pending path
  unfolding list
  list_spared true reads now s = refl
  list_spared false reads now s = refl

  mark_spared :
      (commits : Bool) (i : String) (s : Inbox)
      → (mark_read commits i s).0.pending path ≡ s.pending path
  unfolding mark_read
  mark_spared true i s = refl
  mark_spared false i s = refl

  delete_spared :
      (commits : Bool) (i : String) (s : Inbox)
      → (delete commits i s).0.pending path ≡ s.pending path
  unfolding delete
  delete_spared true i s = refl
  delete_spared false i s = refl

  step_spared :
      (o : Operation) (s : Inbox) → Spares path o → (step o s).pending path ≡ s.pending path
  unfolding step record_with_forward_since
  step_spared (records c m d a) s e = records_spared c m d a s c.reads c.random e
  step_spared (forgets commits p) s e = forget_spared commits p s e
  step_spared (lists commits reads now) s e = list_spared commits reads now s
  step_spared (marks commits i) s e = mark_spared commits i s
  step_spared (deletes commits i) s e = delete_spared commits i s
  step_spared (forwards o) s e = refl

  run_spared :
      (os : List Operation) (s : Inbox)
      → All (Spares path) os
      → (run os s).pending path ≡ s.pending path
  unfolding run
  run_spared [] s e = refl
  run_spared (o ∷ os) s (e, es) = run_spared os (step o s) es ∙ step_spared o s e

-- What is known under the path of a message that was just recorded.
abbrev Remembers : Call → Message → Inbox × Option (Row × Bool) → Type 0
Remembers c m r =
    (i : String)
    → new_id r.1 ≡ some i
    → r.0.pending m.source_path ≡ some (record { fingerprint = fingerprint_of c m; entry_id = i })

copy_of : Call → Message → String → Option Copy
copy_of c m i = some (record { fingerprint = fingerprint_of c m; entry_id = i })

unwrapped : (i j : String) → ◌≡◌ {A = Option String} (some i) (some j) → i ≡ j
unwrapped i j e = ap (λ o. elim o [ none ↦ i | some x ↦ x ]) e

read-Remembers :
    (c : Call) (m : Message) (d : String) (a : ℕ) (s : Inbox) (b : Bool) (o : Option String)
    → str_eq m.source_path "" ≡ false
    → Remembers c m (record_read c m d a s b o)
unfolding record_read record_from stored entry_of copy_of
read-Remembers c m d a s b none p = λ i e. absurd (none-ne-some i e)
read-Remembers c m d a s false (some j) p = λ i e. absurd (none-ne-some i e)
read-Remembers c m d a s true (some j) p = elim (Option-cases (known c m s)) [
  | inr (k, f) ↦ rw f (λ i e. absurd (none-ne-some i e))
  | inl f ↦ rw f (
      record_new_cases (Remembers c m) c m d a j s (λ i e. absurd (none-ne-some i e))
        (λ q i e. rw (p, eq_refl m.source_path) (ap (copy_of c m) (unwrapped j i e))))
]

known_again :
    (c : Call) (m : Message) (i : String) (s : Inbox)
    → str_eq m.source_path "" ≡ false
    → s.pending m.source_path ≡ some (record { fingerprint = fingerprint_of c m; entry_id = i })
    → known c m s ≡ some i
unfolding known
known_again c m i s p e = rw (p, e, eq_refl (fingerprint_of c m)) refl

record_read-known :
    (c : Call) (m : Message) (d : String) (a : ℕ) (s : Inbox) (b : Bool) (o : Option String)
    (i j : String)
    → b ≡ true
    → o ≡ some j
    → known c m s ≡ some i
    → record_read c m d a s b o ≡ (s, some (entry_of c m i, false))
unfolding record_read record_from
record_read-known c m d a s b o i j e f g = rw (e, f, g) refl

-- A message of the modem that was recorded as a new entry is recognized when it is recorded again,
-- with the same digest, after any operations that neither record a message under its path nor forget
-- it, deletions of the entry and changes of the queue included: the call gives the id of that entry,
-- does not count it as new, and leaves the inbox as it is.
pub recorded_again :
    (c d : Call) (m : Message) (dest dest' : String) (a a' : ℕ) (s : Inbox) (os : List Operation)
    (i j : String)
    → str_eq m.source_path "" ≡ false
    → new_id (record_with_forward_since c m dest a s).1 ≡ some i
    → All (Spares m.source_path) os
    → fingerprint_of d m ≡ fingerprint_of c m
    → d.reads ≡ true
    → d.random ≡ some j
    → let t = run os (record_with_forward_since c m dest a s).0 in
      record_with_forward_since d m dest' a' t ≡ (t, some (entry_of d m i, false))
unfolding record_with_forward_since
recorded_again c d m dest dest' a a' s os i j p n o f r x =
    let first = (record_read c m dest a s c.reads c.random).0 in
    let known_first = read-Remembers c m dest a s c.reads c.random p i n in
    let after =
      run_spared m.source_path os first o
      ∙ known_first
      ∙ ap (λ h. some (record { fingerprint = h; entry_id = i })) (sym f) in
    record_read-known d m dest' a' (run os first) d.reads d.random i j r x
      (known_again d m i (run os first) p after)
