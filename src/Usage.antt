-- ===== src/Usage.antt =====
-- internal/datausage/counter.go: the byte counter. `uint64` sums wrap at 2 ^ 64. The file is the
-- last record that `writeAtomic` renamed into place, or `none`; the environment of a write says
-- whether the write succeeds, and `encoding/json` is taken to give a record back as it was put in.
pub mod Sums
pub mod Persist
mod Tests
use modem_service.Prelude.{
  ℕ, ◌+◌, ◌-◌, ◌*◌, ◌^◌, ◌%◌, String, Bool, true, false, not, ◌&&◌, ◌||◌, ◌==◌, ltb, leb,
  if◌then◌else◌, str_eq, Option, none, some, List, [], ◌∷◌,
}

abbrev pub u64 : ℕ → ℕ
u64 n = n % 2 ^ 64

pub record Totals : Type 0 where
  pub rx_bytes : ℕ
  pub tx_bytes : ℕ
  pub rx_roaming : ℕ
  pub tx_roaming : ℕ
  pub since : String

pub record Persisted : Type 0 where
  pub totals : Totals
  pub last_bearer : String
  pub last_rx : ℕ
  pub last_tx : ℕ

pub record Sample : Type 0 where
  pub bearer_path : String
  pub rx : ℕ
  pub tx : ℕ
  pub roaming : Bool

pub record Counter : Type 0 where
  pub path : String
  pub totals : Totals
  pub have_last : Bool
  pub last_path : String
  pub last_rx : ℕ
  pub last_tx : ℕ
  pub dirty : Bool
  pub last_flush : ℕ

abbrev pub backstop_interval : ℕ
backstop_interval = 6 * 3600 * 1000000000

abbrev pub fresh_totals : String → Totals
fresh_totals since = record {
  rx_bytes = 0;
  tx_bytes = 0;
  rx_roaming = 0;
  tx_roaming = 0;
  since = since;
}

-- `load`: `stored` is the decoded file, `none` where it is missing or unreadable, and `stamp` the
-- time `now` in RFC 3339.
unfoldable pub load : String → ℕ → String → Option Persisted → Counter
load path now stamp stored =
    let blank : Counter = record {
      path = path;
      totals = fresh_totals stamp;
      have_last = false;
      last_path = "";
      last_rx = 0;
      last_tx = 0;
      dirty = false;
      last_flush = now;
    } in
    if str_eq path "" then blank else elim stored [
      | none ↦ blank
      | some p ↦
          let totals =
            if str_eq p.totals.since "" then record (p.totals) { since = stamp } else p.totals in
          if str_eq p.last_bearer "" then record blank { totals = totals } else record blank {
            totals = totals;
            have_last = true;
            last_path = p.last_bearer;
            last_rx = p.last_rx;
            last_tx = p.last_tx;
          }
    ]

unfoldable pub continuing : Counter → Sample → Bool
continuing c s =
    c.have_last && str_eq s.bearer_path c.last_path && leb c.last_rx s.rx && leb c.last_tx s.tx

-- The bytes that a sample adds; the subtraction is guarded by `continuing`.
unfoldable pub delta_rx : Counter → Sample → ℕ
unfolding continuing
delta_rx c s = if continuing c s then s.rx - c.last_rx else s.rx

unfoldable pub delta_tx : Counter → Sample → ℕ
unfolding continuing
delta_tx c s = if continuing c s then s.tx - c.last_tx else s.tx

unfoldable pub add_totals : Totals → ℕ → ℕ → Bool → Totals
add_totals t rx tx roaming =
    let u = record t { rx_bytes = u64 (t.rx_bytes + rx); tx_bytes = u64 (t.tx_bytes + tx) } in
    if roaming
    then record u { rx_roaming = u64 (t.rx_roaming + rx); tx_roaming = u64 (t.tx_roaming + tx) }
    else u

unfoldable pub rebase : Counter → Sample → Counter
rebase c s =
    let d =
      if not c.have_last
        || not (str_eq c.last_path s.bearer_path)
        || not (c.last_rx == s.rx)
        || not (c.last_tx == s.tx)
      then record c { dirty = true }
      else c in
    record d { have_last = true; last_path = s.bearer_path; last_rx = s.rx; last_tx = s.tx }

unfoldable pub observe : Counter → Sample → Counter
unfolding rebase add_totals
observe c s =
    let rx = delta_rx c s in
    let tx = delta_tx c s in
    let d = rebase c s in
    if rx == 0 && tx == 0 then d else record d { totals = add_totals c.totals rx tx s.roaming }

-- What `writeAtomic` encodes.
unfoldable pub snapshot : Counter → Persisted
snapshot c = record {
  totals = c.totals;
  last_bearer = c.last_path;
  last_rx = c.last_rx;
  last_tx = c.last_tx;
}

-- The counter, the file after the call, and whether the call succeeds.
pub record Flushed : Type 0 where
  pub counter : Counter
  pub file : Option Persisted
  pub ok : Bool

-- `flushLocked`; `writes` says whether every step of `writeAtomic` up to the rename succeeds.
unfoldable pub flush : Bool → ℕ → Counter → Option Persisted → Flushed
unfolding snapshot
flush writes now c file =
    if str_eq c.path "" || not c.dirty
    then record { counter = c; file = file; ok = true }
    else if writes
    then record {
      counter = record c { dirty = false; last_flush = now };
      file = some (snapshot c);
      ok = true;
    }
    else record { counter = c; file = file; ok = false }

-- `Backstop`, which only logs a failure.
unfoldable pub backstop : Bool → ℕ → Counter → Option Persisted → Flushed
unfolding flush
backstop writes now c file =
    if not c.dirty || ltb now (c.last_flush + backstop_interval)
    then record { counter = c; file = file; ok = true }
    else flush writes now c file

-- A sequence of readings.
unfoldable pub observe_all : Counter → List Sample → Counter
observe_all c [] = c
observe_all c (s ∷ ss) = observe_all (observe c s) ss
