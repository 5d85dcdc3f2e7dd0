-- ===== src/Usage/Sums.antt =====
-- What the totals add up to (internal/datausage/counter.go).
use modem_service.Prelude.{
  ℕ, ◌+◌, ◌-◌, ◌^◌, ◌≤◌, ◌<◌, ◌≡◌, refl, sym, ◌≢◌, ◌⊎◌, inl, inr, true, false, String, List, [],
  ◌∷◌, ◌++◌, arith, eq_iff, ◌∙◌, ap, Option, some, none,
}
use modem_service.Usage.{Totals, Sample, Counter, u64, delta_rx, delta_tx, observe, observe_all}

-- No roaming figure above its total, and the totals below their wrap-around.
pub record IsSane (t : Totals) : Type 0 where
  pub rx_part : t.rx_roaming ≤ t.rx_bytes
  pub tx_part : t.tx_roaming ≤ t.tx_bytes
  pub rx_fits : t.rx_bytes < 2 ^ 64
  pub tx_fits : t.tx_bytes < 2 ^ 64

delta_rx-le : (c : Counter) (s : Sample) → delta_rx c s ≤ s.rx
unfolding delta_rx
delta_rx-le c s = ground arith

delta_tx-le : (c : Counter) (s : Sample) → delta_tx c s ≤ s.tx
unfolding delta_tx
delta_tx-le c s = ground arith

-- Where the sums do not wrap, a reading never lowers a total, and the roaming traffic stays a part
-- of the total.
pub observe-IsSane :
    (c : Counter) (s : Sample)
    → IsSane c.totals
    → c.totals.rx_bytes + s.rx < 2 ^ 64
    → c.totals.tx_bytes + s.tx < 2 ^ 64
    → IsSane (observe c s).totals
      × (c.totals.rx_bytes ≤ (observe c s).totals.rx_bytes)
      × (c.totals.tx_bytes ≤ (observe c s).totals.tx_bytes)
      × (c.totals.rx_roaming ≤ (observe c s).totals.rx_roaming)
      × (c.totals.tx_roaming ≤ (observe c s).totals.tx_roaming)
unfolding observe
observe-IsSane c s h k l = ground (arith, delta_rx-le c s, delta_tx-le c s)

-- The last reading of a session that starts with `s`.
pub last_of : Sample → List Sample → Sample
last_of s [] = s
last_of s (t ∷ ts) = last_of t ts

-- The readings after `s` belong to the bearer of `s`, and no counter falls.
abbrev pub Rises : Sample → List Sample → Type 0
Rises s [] = Unit
Rises s (t ∷ ts) = (t.bearer_path ≡ s.bearer_path) × (s.rx ≤ t.rx) × (s.tx ≤ t.tx) × Rises t ts

observe_base :
    (c : Counter) (s : Sample)
    → ((observe c s).have_last ≡ true)
      × ((observe c s).last_path ≡ s.bearer_path)
      × ((observe c s).last_rx ≡ s.rx)
      × ((observe c s).last_tx ≡ s.tx)
unfolding observe
observe_base c s = ground arith

observe_sums :
    (c : Counter) (s : Sample)
    → c.totals.rx_bytes < 2 ^ 64
    → c.totals.tx_bytes < 2 ^ 64
    → ((observe c s).totals.rx_bytes ≡ u64 (c.totals.rx_bytes + delta_rx c s))
      × ((observe c s).totals.tx_bytes ≡ u64 (c.totals.tx_bytes + delta_tx c s))
unfolding observe
observe_sums c s h k = ground arith

-- The counter's baseline is the reading `s`.
abbrev Stands : Counter → Sample → Type 0
Stands c s =
    (c.have_last ≡ true) × (c.last_path ≡ s.bearer_path) × (c.last_rx ≡ s.rx) × (c.last_tx ≡ s.tx)

-- The next reading does not go on with the session of the baseline.
abbrev pub Restarts : Counter → Sample → Type 0
Restarts c s = (c.have_last ≡ false) ⊎ (s.bearer_path ≢ c.last_path)

delta_first :
    (c : Counter) (s : Sample) → Restarts c s → (delta_rx c s ≡ s.rx) × (delta_tx c s ≡ s.tx)
unfolding delta_rx delta_tx
delta_first c s h = ground (arith, eq_iff s.bearer_path c.last_path)

delta_next :
    (c : Counter) (s t : Sample)
    → Stands c s
    → t.bearer_path ≡ s.bearer_path
    → s.rx ≤ t.rx
    → s.tx ≤ t.tx
    → (delta_rx c t ≡ t.rx - s.rx) × (delta_tx c t ≡ t.tx - s.tx)
unfolding delta_rx delta_tx
delta_next c s t h p k l = ground (arith, eq_iff t.bearer_path c.last_path)

abbrev Fits : Counter → Type 0
Fits c = (c.totals.rx_bytes < 2 ^ 64) × (c.totals.tx_bytes < 2 ^ 64)

observe-Fits : (c : Counter) (s : Sample) → Fits c → Fits (observe c s)
observe-Fits c s h = omega (arith, observe_sums c s h.0 h.1)

last_of-le :
    (s : Sample) (ts : List Sample)
    → Rises s ts
    → (s.rx ≤ (last_of s ts).rx) × (s.tx ≤ (last_of s ts).tx)
unfolding last_of
last_of-le s [] h = omega arith
last_of-le s (t ∷ ts) h = omega (arith, last_of-le t ts h.3)

rest_sums :
    (c : Counter) (s : Sample) (ts : List Sample)
    → Fits c
    → Stands c s
    → Rises s ts
    → ((observe_all c ts).totals.rx_bytes ≡ u64 (c.totals.rx_bytes + ((last_of s ts).rx - s.rx)))
      × ((observe_all c ts).totals.tx_bytes ≡ u64 (c.totals.tx_bytes + ((last_of s ts).tx - s.tx)))
unfolding observe_all last_of
rest_sums c s [] f b r = omega arith
rest_sums c s (t ∷ ts) f b r = omega (
  arith,
  observe_sums c t f.0 f.1,
  delta_next c s t b r.0 r.1 r.2,
  rest_sums (observe c t) t ts (observe-Fits c t f) (observe_base c t) r.3,
  last_of-le t ts r.3,
)

-- A session that does not go on with the baseline, and whose counters do not fall, adds its last
-- reading to the totals, modulo 2 ^ 64, however often it is read, if the totals fit into 64 bits.
pub session_sums :
    (c : Counter) (s : Sample) (ts : List Sample)
    → c.totals.rx_bytes < 2 ^ 64
    → c.totals.tx_bytes < 2 ^ 64
    → Restarts c s
    → Rises s ts
    → ((observe_all c (s ∷ ts)).totals.rx_bytes ≡ u64 (c.totals.rx_bytes + (last_of s ts).rx))
      × ((observe_all c (s ∷ ts)).totals.tx_bytes ≡ u64 (c.totals.tx_bytes + (last_of s ts).tx))
unfolding observe_all
session_sums c s ts h k n r = omega (
  arith,
  observe_sums c s h k,
  delta_first c s n,
  rest_sums (observe c s) s ts (observe-Fits c s (h, k)) (observe_base c s) r,
  last_of-le s ts r,
)

-- Sessions one after the other, each with another bearer than the one before.
abbrev pub Sessions : Option String → List (Sample × List Sample) → Type 0
Sessions p [] = Unit
Sessions p ((s, ts) ∷ rest) =
    (p ≢ some s.bearer_path) × Rises s ts × Sessions (some s.bearer_path) rest

pub readings : List (Sample × List Sample) → List Sample
readings [] = []
readings ((s, ts) ∷ rest) = (s ∷ ts) ++ readings rest

pub rx_of : List (Sample × List Sample) → ℕ
rx_of [] = 0
rx_of ((s, ts) ∷ rest) = (last_of s ts).rx + rx_of rest

observe_all-append :
    (c : Counter) (ss ts : List Sample)
    → observe_all c (ss ++ ts) ≡ observe_all (observe_all c ss) ts
unfolding observe_all
observe_all-append c [] ts = refl
observe_all-append c (s ∷ ss) ts = observe_all-append (observe c s) ss ts

rest_path :
    (c : Counter) (s : Sample) (ts : List Sample)
    → c.last_path ≡ s.bearer_path
    → Rises s ts
    → (observe_all c ts).last_path ≡ s.bearer_path
unfolding observe_all
rest_path c s [] h r = h
rest_path c s (t ∷ ts) h r = rest_path (observe c t) t ts (observe_base c t).1 r.3 ∙ r.0

observe_all-Fits : (c : Counter) (ss : List Sample) → Fits c → Fits (observe_all c ss)
unfolding observe_all
observe_all-Fits c [] f = f
observe_all-Fits c (s ∷ ss) f = observe_all-Fits (observe c s) ss (observe-Fits c s f)

-- The bearer of the baseline is `p`, or there is no baseline and `p` is `none`.
abbrev pub Follows : Counter → Option String → Type 0
Follows c none = c.have_last ≡ false
Follows c (some p) = c.last_path ≡ p

Follows-Restarts :
    (c : Counter) (p : Option String) (s : Sample)
    → Follows c p
    → p ≢ some s.bearer_path
    → Restarts c s
Follows-Restarts c none s h n = inl h
Follows-Restarts c (some p) s h n = inr (λ e. n (ap some (sym h ∙ sym e)))

-- After any sequence of sessions, each with rising counters and another bearer than the one
-- before, the first with another than the baseline, the received total has grown by the sum of
-- the last readings of the sessions, modulo 2 ^ 64: no byte is lost and none is counted twice,
-- whenever the counters were read. The totals fit into 64 bits at the start.
pub readings_rx :
    (c : Counter) (p : Option String) (l : List (Sample × List Sample))
    → c.totals.rx_bytes < 2 ^ 64
    → c.totals.tx_bytes < 2 ^ 64
    → Follows c p
    → Sessions p l
    → (observe_all c (readings l)).totals.rx_bytes ≡ u64 (c.totals.rx_bytes + rx_of l)
unfolding readings rx_of observe_all
readings_rx c p [] h k f w = omega arith
readings_rx c p ((s, ts) ∷ rest) h k f (n, r, w) =
    let d = observe_all c (s ∷ ts) in
    let fits = observe_all-Fits c (s ∷ ts) (h, k) in
    rw (observe_all-append c (s ∷ ts) (readings rest)) (
      omega (
        arith,
        session_sums c s ts h k (Follows-Restarts c p s f n) r,
        readings_rx d (some s.bearer_path) rest fits.0 fits.1
            (rest_path (observe c s) s ts (observe_base c s).1 r) w,
      ))
