-- ===== src/SmsStorage/Restored.antt =====
-- What the switch leaves behind (internal/service/sms_storage.go).
use modem_service.Prelude.{
  ℕ, String, Bool, true, false, ◌≡◌, ◌⊎◌, inl, inr, refl, some, List, [], ◌∷◌, arith, Bool-cases,
  Option-cases, if◌then◌else◌,
}
use modem_service.SmsStorage.{
  Stores, Answer, done, failed_after, failed_before, Event, selects, defaults, Env, switch,
  consider, recover_full_sms_storage, parsed, alternate, is_full, free_space, contains,
}

-- The storage that the modem uses.
pub record Device : Type 0 where
  pub reading : String
  pub writing : String
  pub receiving : String
  pub default_storage : ℕ

abbrev pub took : Answer → Bool
took done = true
took failed_after = true
took failed_before = false

pub obey : Event → Device → Device
obey (selects a b c x) d =
    if took x then record d { reading = a; writing = b; receiving = c } else d
obey (defaults n x) d = if took x then record d { default_storage = n } else d

pub obey_all : List Event → Device → Device
obey_all [] d = d
obey_all (e ∷ es) d = obey_all es (obey e d)

-- The device as the query and the default storage show it.
abbrev pub device : Stores → ℕ → Device
device s old = record {
  reading = s.reading.name;
  writing = s.writing.name;
  receiving = s.receiving.name;
  default_storage = old;
}

abbrev pub moved : String → ℕ → Device
moved other storage = record {
  reading = other;
  writing = other;
  receiving = other;
  default_storage = storage;
}

switch_obeyed :
    (s : Stores) (other : String) (storage old : ℕ) (e : Env)
    → e.restore ≡ done
    → e.reset_default ≡ done
    → let d = obey_all (switch s other storage old e) (device s old) in
      (d ≡ device s old) ⊎ ((d ≡ moved other storage) × (free_space e.counts ≡ true))
unfolding switch obey obey_all
switch_obeyed s other storage old e r t = ground arith

-- The switch is made for the store `x`.
abbrev pub Moved : Stores → Env → Device → String × ℕ → Type 0
Moved s e d x =
    (alternate s.receiving.name ≡ some x)
    × (is_full s.receiving ≡ true)
    × (free_space e.counts ≡ true)
    × ((ids : List ℕ) × (e.supported ≡ some ids) × (contains x.1 ids ≡ true))
    × (d ≡ moved x.0 x.1)

consider_obeyed :
    (s : Stores) (x : String × ℕ) (old : ℕ) (e : Env)
    → e.previous ≡ some old
    → e.restore ≡ done
    → e.reset_default ≡ done
    → alternate s.receiving.name ≡ some x
    → is_full s.receiving ≡ true
    → let d = obey_all (consider s x e) (device s old) in (d ≡ device s old) ⊎ Moved s e d x
unfolding consider obey_all switch
consider_obeyed s (other, storage) old e p r t a f = elim (Option-cases e.supported) [
  | inl n ↦ inl (rw n refl)
  | inr (ids, n) ↦ elim (Bool-cases (contains storage ids)) [
    | inr c ↦ inl (rw (n, c) refl)
    | inl c ↦ elim (switch_obeyed s other storage old e r t) [
      | inl k ↦ inl (rw (n, c, p) k)
      | inr (k, b) ↦ inr (a, f, b, (ids, n, c), rw (n, c, p) k)
    ]
  ]
]

-- The switch leaves the modem on the other store or as it was: if the commands that restore the
-- selection and the default storage succeed, then, whatever else fails, and whether or not a command
-- that fails has taken effect, the modem ends with the storage that the query found, or with the
-- other store for everything. That happens only if the receiving store was full, the other store is
-- supported, and the probe found free space in it.
pub recover_full_sms_storage_restores :
    (e : Env) (s : Stores) (old : ℕ)
    → parsed e.matches ≡ some s
    → e.previous ≡ some old
    → e.restore ≡ done
    → e.reset_default ≡ done
    → let d = obey_all (recover_full_sms_storage e) (device s old) in
      (d ≡ device s old) ⊎ ((x : String × ℕ) × Moved s e d x)
unfolding recover_full_sms_storage obey_all
recover_full_sms_storage_restores e s old q p r t = elim (Bool-cases (is_full s.receiving)) [
  | inr f ↦ inl (rw (q, f) refl)
  | inl f ↦ elim (Option-cases (alternate s.receiving.name)) [
    | inl a ↦ inl (rw (q, f, a) refl)
    | inr (x, a) ↦ elim (consider_obeyed s x old e p r t a f) [
      | inl k ↦ inl (rw (q, f, a) k)
      | inr k ↦ inr (x, (a, f, k.2, k.3, rw (q, f, a) k.4))
    ]
  ]
]
