-- ===== src/Usage/Persist.antt =====
-- The file, and a restart (internal/datausage/counter.go).
use modem_service.Prelude.{
  ℕ, ◌+◌, ◌≡◌, refl, sym, ◌∙◌, ap, inl, inr, Bool, true, false, String, List, [], ◌∷◌, arith,
  Bool-cases, not, ◌||◌, ltb, str_eq, eq_iff, Option, some, none,
}
use modem_service.Usage.{
  Persisted, Sample, Counter, load, delta_rx, delta_tx, observe, snapshot, flush, backstop,
  observe_all, rebase, backstop_interval,
}

-- What happens to a counter and its file: a reading, a flush or a backstop. `writes` says whether
-- the write behind it succeeds.
pub data Event : Type 0 where
  reads : Sample → Event
  flushes : (writes : Bool) (now : ℕ) → Event
  backstops : (writes : Bool) (now : ℕ) → Event

unfoldable pub step : Event → Counter × Option Persisted → Counter × Option Persisted
step (reads s) (c, f) = (observe c s, f)
step (flushes w now) (c, f) = let r = flush w now c f in (r.counter, r.file)
step (backstops w now) (c, f) = let r = backstop w now c f in (r.counter, r.file)

unfoldable pub run : List Event → Counter × Option Persisted → Counter × Option Persisted
run [] x = x
run (e ∷ es) x = run es (step e x)

-- A counter that has nothing to write, and has seen a reading, is what the file holds.
pub record IsSynced (x : Counter × Option Persisted) : Type 0 where
  pub named : str_eq x.0.path "" ≡ false
  pub current : x.0.dirty ≡ false → x.0.have_last ≡ true → x.1 ≡ some (snapshot x.0)

delta_same :
    (c : Counter) (s : Sample)
    → c.have_last ≡ true
    → str_eq c.last_path s.bearer_path ≡ true
    → c.last_rx ≡ s.rx
    → c.last_tx ≡ s.tx
    → (delta_rx c s ≡ 0) × (delta_tx c s ≡ 0)
unfolding delta_rx delta_tx
delta_same c s h p k l =
    ground (arith, eq_iff s.bearer_path c.last_path, eq_iff c.last_path s.bearer_path)

rebase-clean :
    (c : Counter) (s : Sample)
    → (rebase c s).dirty ≡ false
    → (c.dirty ≡ false)
      × (c.have_last ≡ true)
      × (str_eq c.last_path s.bearer_path ≡ true)
      × (c.last_rx ≡ s.rx)
      × (c.last_tx ≡ s.tx)
unfolding rebase
rebase-clean c s h = ground arith

observe_still :
    (c : Counter) (s : Sample) → delta_rx c s ≡ 0 → delta_tx c s ≡ 0 → observe c s ≡ rebase c s
unfolding observe
observe_still c s h k = rw (h, k)

observe-dirty_eq : (c : Counter) (s : Sample) → (observe c s).dirty ≡ (rebase c s).dirty
unfolding observe
observe-dirty_eq c s = ground arith

rebase-snapshot :
    (c : Counter) (s : Sample)
    → c.last_path ≡ s.bearer_path
    → c.last_rx ≡ s.rx
    → c.last_tx ≡ s.tx
    → snapshot (rebase c s) ≡ snapshot c
unfolding rebase snapshot
rebase-snapshot c s h k l = ground arith

-- A reading that leaves nothing to write has left the record of the file as it was.
observe-dirty :
    (c : Counter) (s : Sample)
    → (observe c s).dirty ≡ false
    → (c.dirty ≡ false) × (c.have_last ≡ true) × (snapshot (observe c s) ≡ snapshot c)
observe-dirty c s h =
    let (d, l, p, x, y) = rebase-clean c s (sym (observe-dirty_eq c s) ∙ h) in
    let (u, v) = delta_same c s l p x y in
    (
      d,
      l,
      ap snapshot (observe_still c s u v)
          ∙ rebase-snapshot c s ((eq_iff c.last_path s.bearer_path).0 p) x y,
    )

observe-path : (c : Counter) (s : Sample) → (observe c s).path ≡ c.path
unfolding observe
observe-path c s = ground arith

flush-IsSynced :
    (w : Bool) (now : ℕ) (c : Counter) (f : Option Persisted)
    → IsSynced (c, f)
    → IsSynced ((flush w now c f).counter, (flush w now c f).file)
unfolding flush snapshot
flush-IsSynced w now c f h = record {
  named = ground (arith, h.named);
  current = λ d l. ground (arith, h.named, h.current);
}

backstop-IsSynced :
    (w : Bool) (now : ℕ) (c : Counter) (f : Option Persisted)
    → IsSynced (c, f)
    → IsSynced ((backstop w now c f).counter, (backstop w now c f).file)
unfolding backstop
backstop-IsSynced w now c f h =
    elim (Bool-cases (not c.dirty || ltb now (c.last_flush + backstop_interval))) [
      | inl e ↦ rw (e, backstop) h
      | inr e ↦ rw (e, backstop) (flush-IsSynced w now c f h)
    ]

step-IsSynced : (e : Event) (x : Counter × Option Persisted) → IsSynced x → IsSynced (step e x)
unfolding step backstop
step-IsSynced (reads s) (c, f) h = record {
  named = rw (observe-path c s) h.named;
  current = λ d l.
      let (clean, had, same) = observe-dirty c s d in h.current clean had ∙ ap some (sym same);
}
step-IsSynced (flushes w now) (c, f) h = flush-IsSynced w now c f h
step-IsSynced (backstops w now) (c, f) h = backstop-IsSynced w now c f h

pub run-IsSynced :
    (es : List Event) (x : Counter × Option Persisted) → IsSynced x → IsSynced (run es x)
unfolding run
run-IsSynced [] x h = h
run-IsSynced (e ∷ es) x h = run-IsSynced es (step e x) (step-IsSynced e x h)

load-IsSynced :
    (path : String) (now : ℕ) (stamp : String)
    → str_eq path "" ≡ false
    → IsSynced (load path now stamp none, none)
unfolding load
load-IsSynced path now stamp h = record { named = rw (h, load) h; current = λ d l. ground arith }

flush_file :
    (now : ℕ) (c : Counter) (f : Option Persisted)
    → IsSynced (c, f)
    → c.have_last ≡ true
    → (flush true now c f).file ≡ some (snapshot c)
unfolding flush
flush_file now c f h l = ground (arith, h.named, h.current)

load-snapshot :
    (c : Counter) (now : ℕ) (stamp : String)
    → str_eq c.path "" ≡ false
    → str_eq c.totals.since "" ≡ false
    → c.have_last ≡ true
    → str_eq c.last_path "" ≡ false
    → load c.path now stamp (some (snapshot c)) ≡ record c { dirty = false; last_flush = now }
unfolding load snapshot
load-snapshot c now stamp p t l b = ground arith

-- The two counters count the same from here on.
abbrev Agree : Counter → Counter → Type 0
Agree c d =
    (c.totals ≡ d.totals)
    × (c.have_last ≡ d.have_last)
    × (c.last_path ≡ d.last_path)
    × (c.last_rx ≡ d.last_rx)
    × (c.last_tx ≡ d.last_tx)

delta-Agree :
    (c d : Counter) (s : Sample)
    → Agree c d
    → (delta_rx c s ≡ delta_rx d s) × (delta_tx c s ≡ delta_tx d s)
unfolding delta_rx delta_tx
delta-Agree c d s h = ground arith

observe-Agree : (c d : Counter) (s : Sample) → Agree c d → Agree (observe c s) (observe d s)
unfolding observe
observe-Agree c d s h = ground (arith, delta-Agree c d s h)

observe_all-Agree :
    (c d : Counter) (ss : List Sample)
    → Agree c d
    → (observe_all c ss).totals ≡ (observe_all d ss).totals
unfolding observe_all
observe_all-Agree c d [] h = h.0
observe_all-Agree c d (s ∷ ss) h =
    observe_all-Agree (observe c s) (observe d s) ss (observe-Agree c d s h)

-- A restart after a successful flush loses and repeats nothing: from a fresh counter with a path,
-- after any events and a flush that succeeds, the counter that loads the file counts all later
-- readings to the same totals as the old one would have, if it had seen a reading of a named
-- bearer and its totals name their start.
pub restart_resumes :
    (path stamp later : String) (start now again : ℕ) (es : List Event) (ss : List Sample)
    → str_eq path "" ≡ false
    → let x = run es (load path start stamp none, none) in
      let r = flush true now x.0 x.1 in
      x.0.have_last ≡ true
      → str_eq x.0.last_path "" ≡ false
      → str_eq x.0.totals.since "" ≡ false
      → (observe_all (load x.0.path again later r.file) ss).totals ≡ (observe_all x.0 ss).totals
restart_resumes path stamp later start now again es ss p l b t =
    let x = run es (load path start stamp none, none) in
    let synced =
      run-IsSynced es (load path start stamp none, none) (load-IsSynced path start stamp p) in
    observe_all-Agree (load x.0.path again later (flush true now x.0 x.1).file) x.0 ss (
      rw (flush_file now x.0 x.1 synced l, load-snapshot x.0 again later synced.named t l b)
        (refl, refl, refl, refl, refl))
