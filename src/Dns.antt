-- ===== src/Dns.antt =====
-- internal/health/probe.go: the DNS messages of the remote probe. Bytes are numbers; the id that
-- `crypto/rand` gives is an argument, and a name is given as the bytes of its labels, as
-- `strings.Split` cuts it at the dots. An offset only grows, so the length of the message, plus one,
-- is enough fuel for a name.
pub mod Names
mod Tests
use modem_service.Prelude.{
  ℕ, zero, suc, ◌+◌, ◌/◌, ◌%◌, Bool, true, false, not, ◌||◌, ◌==◌, ltb, leb, if◌then◌else◌, Option,
  none, some, List, [], ◌∷◌, ◌++◌, length, get_elem?,
}

-- `binary.BigEndian.AppendUint16`
abbrev pub be16 : ℕ → List ℕ
be16 n = (n / 256) % 256 ∷ n % 256 ∷ []

abbrev pub max_label : ℕ
max_label = 63

-- The loop over the labels, with the root behind them; `none` for an invalid label.
unfoldable pub encode_labels : List (List ℕ) → Option (List ℕ)
encode_labels [] = some (0 ∷ [])
encode_labels (l ∷ ls) =
    if (length l == 0) || ltb max_label (length l)
    then none
    else elim (encode_labels ls) [ none ↦ none | some rest ↦ some (length l ∷ l ++ rest) ]

abbrev pub header : ℕ → List ℕ
header i = be16 i ++ be16 256 ++ be16 1 ++ be16 0 ++ be16 0 ++ be16 0

unfoldable pub build_dns_query_type : ℕ → List (List ℕ) → ℕ → Option (List ℕ)
build_dns_query_type i labels qtype = elim (encode_labels labels) [
  | none ↦ none
  | some name ↦ some (header i ++ (name ++ (be16 qtype ++ be16 1)))
]

pub data Error : Type 0 where
  truncated_name truncated_pointer invalid_label truncated_label out_of_fuel : Error

pub data Skipped : Type 0 where
  at : ℕ → Skipped
  failed : Error → Skipped

-- `n & 0xc0`, shifted
abbrev pub top_bits : ℕ → ℕ
top_bits n = (n / 64) % 4

-- One turn of the loop; `rest` is the next one.
unfoldable pub skip_byte : List ℕ → ℕ → ℕ → Skipped → Skipped
skip_byte msg off n rest =
    if n == 0
    then at (off + 1)
    else if top_bits n == 3
    then if leb (length msg) (off + 1) then failed truncated_pointer else at (off + 2)
    else if not (top_bits n == 0)
    then failed invalid_label
    else if ltb (length msg) (off + 1 + n)
    then failed truncated_label
    else rest

unfoldable pub skip_from : ℕ → List ℕ → ℕ → Skipped
skip_from zero msg off = failed out_of_fuel
skip_from (suc fuel) msg off = elim (get_elem? msg off) [
  | none ↦ failed truncated_name
  | some n ↦ skip_byte msg off n (skip_from fuel msg (off + 1 + n))
]

unfoldable pub skip_dns_name : List ℕ → ℕ → Skipped
skip_dns_name msg off = skip_from (length msg + 1) msg off
