-- ===== src/Dns/Names.antt =====
-- Names in DNS messages (internal/health/probe.go).
use mathlib.Core.List.{append_assoc}
use modem_service.Prelude.{
  ℕ, zero, suc, ◌+◌, ◌≤◌, ◌<◌, ◌≡◌, ◌≢◌, inl, inr, refl, sym, ap, subst, ◌∙◌, ◌||◌, ◌==◌, ltb,
  arith, none, some, List, [], ◌∷◌, ◌++◌, length, get_elem?, length-append, Bool-cases,
  Option-cases,
}
use modem_service.Dns.{
  be16, encode_labels, header, build_dns_query_type, Error, out_of_fuel, Skipped, at, failed,
  skip_byte, skip_from, skip_dns_name, max_label,
}

get_elem?-some : (msg : List ℕ) (off n : ℕ) → get_elem? msg off ≡ some n → off < length msg
get_elem?-some [] off n e = absurd (ground arith)
get_elem?-some (x ∷ xs) zero n e = omega arith
get_elem?-some (x ∷ xs) (suc off) n e = omega (arith, get_elem?-some xs off n e)

skip_byte_fuel :
    (msg : List ℕ) (off n : ℕ) (rest : Skipped)
    → (off + 1 + n ≤ length msg → rest ≢ failed out_of_fuel)
    → skip_byte msg off n rest ≢ failed out_of_fuel
unfolding skip_byte
skip_byte_fuel msg off n rest h = λ e. ground arith

at-ne-failed : (n : ℕ) (x : Error) → failed x ≢ at n
at-ne-failed n x = λ e. ground arith

skip_from_fuel :
    (fuel : ℕ) (msg : List ℕ) (off : ℕ)
    → length msg < off + fuel
    → 1 ≤ fuel
    → skip_from fuel msg off ≢ failed out_of_fuel
unfolding skip_from
skip_from_fuel zero msg off h k = absurd (omega arith)
skip_from_fuel (suc fuel) msg off h k = elim (Option-cases (get_elem? msg off)) [
  | inl e ↦ rw (e, skip_from) (λ k. ground arith)
  | inr (n, e) ↦
      rw (e, skip_from)
        (skip_byte_fuel msg off n (skip_from fuel msg (off + 1 + n))
          (λ b. skip_from_fuel fuel msg (off + 1 + n) (omega arith) (omega arith)))
]

skip_byte_bounds :
    (msg : List ℕ) (off n end : ℕ) (rest : Skipped)
    → off < length msg
    → (rest ≡ at end → (off < end) × (end ≤ length msg))
    → skip_byte msg off n rest ≡ at end
    → (off < end) × (end ≤ length msg)
unfolding skip_byte
skip_byte_bounds msg off n end rest k h e = ground arith

skip_from_bounds :
    (fuel : ℕ) (msg : List ℕ) (off end : ℕ)
    → skip_from fuel msg off ≡ at end
    → (off < end) × (end ≤ length msg)
unfolding skip_from
skip_from_bounds zero msg off end e = absurd (ground arith)
skip_from_bounds (suc fuel) msg off end e = elim (Option-cases (get_elem? msg off)) [
  | inl k ↦ absurd (at-ne-failed end _ (rw (k, skip_from) at e))
  | inr (n, k) ↦
      skip_byte_bounds msg off n end (skip_from fuel msg (off + 1 + n)) (get_elem?-some msg off n k)
        (λ r. let (a, b) = skip_from_bounds fuel msg (off + 1 + n) end r in (omega arith, b))
        (rw (k, skip_from) at e)
]

-- Skipping a name ends: it never runs out of fuel, from any offset of any bytes. Where it succeeds,
-- the offset has grown and lies within the message.
pub skip_dns_name_bounds :
    (msg : List ℕ) (off : ℕ)
    → (skip_dns_name msg off ≢ failed out_of_fuel)
      × ((end : ℕ) → skip_dns_name msg off ≡ at end → (off < end) × (end ≤ length msg))
unfolding skip_dns_name
skip_dns_name_bounds msg off = (
  skip_from_fuel (length msg + 1) msg off (omega arith) (omega arith),
  λ end e. skip_from_bounds (length msg + 1) msg off end e,
)

-- The byte behind a prefix.
get_elem?-prefix :
    (pre : List ℕ) (x : ℕ) (post : List ℕ) → get_elem? (pre ++ x ∷ post) (length pre) ≡ some x
get_elem?-prefix [] x post = refl
get_elem?-prefix (y ∷ pre) x post = get_elem?-prefix pre x post

skip_byte_label :
    (msg : List ℕ) (off n : ℕ) (rest : Skipped)
    → 1 ≤ n
    → n ≤ max_label
    → off + 1 + n ≤ length msg
    → skip_byte msg off n rest ≡ rest
unfolding skip_byte
skip_byte_label msg off n rest h k b = ground arith

skip_from_step :
    (fuel : ℕ) (msg : List ℕ) (off n : ℕ)
    → get_elem? msg off ≡ some n
    → skip_from (suc fuel) msg off ≡ skip_byte msg off n (skip_from fuel msg (off + 1 + n))
unfolding skip_from
skip_from_step fuel msg off n e = rw (e, skip_from) refl

none-ne-some : (x : List ℕ) → none ≢ some x
none-ne-some x = λ e. ground arith

some-inj : {x y : List ℕ} → some x ≡ some y → x ≡ y
some-inj e = ground arith

encode_labels_inv :
    (l : List ℕ) (ls : List (List ℕ)) (name : List ℕ)
    → encode_labels (l ∷ ls) ≡ some name
    → (rest : List ℕ) × (encode_labels ls ≡ some rest)
      × (name ≡ length l ∷ (l ++ rest))
      × (1 ≤ length l)
      × (length l ≤ max_label)
unfolding encode_labels
encode_labels_inv l ls name e = elim (Bool-cases ((length l == 0) || ltb max_label (length l))) [
  | inl g ↦ absurd (none-ne-some name (rw g at e))
  | inr g ↦ elim (Option-cases (encode_labels ls)) [
    | inl k ↦ absurd (none-ne-some name (rw (g, k) at e))
    | inr (rest, k) ↦ (rest, k, sym (some-inj (rw (g, k) at e)), ground arith, ground arith)
  ]
]

-- A message with a label behind a prefix, taken apart behind the label.
label_message :
    (pre l rest post : List ℕ)
    → pre ++ ((length l ∷ (l ++ rest)) ++ post) ≡ (pre ++ (length l ∷ l)) ++ (rest ++ post)
label_message pre l rest post =
    ap (λ k. pre ++ (length l ∷ k)) (append_assoc l rest post)
    ∙ sym (append_assoc pre (length l ∷ l) (rest ++ post))

length_label : (pre l : List ℕ) → length (pre ++ (length l ∷ l)) ≡ length pre + 1 + length l
length_label pre l = omega (arith, length-append pre (length l ∷ l))

skip_label :
    (pre l rest post : List ℕ) (fuel : ℕ)
    → 1 ≤ length l
    → length l ≤ max_label
    → skip_from (suc fuel) (pre ++ ((length l ∷ (l ++ rest)) ++ post)) (length pre)
      ≡ skip_from fuel ((pre ++ (length l ∷ l)) ++ (rest ++ post)) (length (pre ++ (length l ∷ l)))
skip_label pre l rest post fuel h k =
    let msg = pre ++ ((length l ∷ (l ++ rest)) ++ post) in
    let whole = length-append pre ((length l ∷ (l ++ rest)) ++ post) in
    skip_from_step fuel msg (length pre) (length l)
      (get_elem?-prefix pre (length l) ((l ++ rest) ++ post))
    ∙ skip_byte_label msg (length pre) (length l) _ h k
        (omega (arith, whole, length-append (l ++ rest) post, length-append l rest))
    ∙ ap (λ m. skip_from fuel m (length pre + 1 + length l)) (label_message pre l rest post)
    ∙ ap (skip_from fuel _) (sym (length_label pre l))

skip_root :
    (pre post : List ℕ) (fuel : ℕ)
    → 1 ≤ fuel
    → skip_from fuel (pre ++ (0 ∷ post)) (length pre) ≡ at (length pre + 1)
unfolding skip_byte
skip_root pre post zero h = absurd (omega arith)
skip_root pre post (suc fuel) h =
    skip_from_step fuel (pre ++ (0 ∷ post)) (length pre) 0 (get_elem?-prefix pre 0 post)

-- A loop of so much fuel passes a name behind the prefix.
abbrev Passed : List ℕ → List ℕ → ℕ → List ℕ → Type 0
Passed pre post fuel name =
    skip_from fuel (pre ++ (name ++ post)) (length pre) ≡ at (length pre + length name)

-- The loop skips a name that `buildDNSQueryType` has put anywhere in a message.
skip_encoded :
    (labels : List (List ℕ)) (name pre post : List ℕ) (fuel : ℕ)
    → encode_labels labels ≡ some name
    → length name ≤ fuel
    → Passed pre post fuel name
unfolding encode_labels
skip_encoded [] name pre post fuel e h =
    subst (Passed pre post fuel) (some-inj e)
      (skip_root pre post fuel (omega (arith, ap length (some-inj e))))
skip_encoded (l ∷ ls) name pre post zero e h =
    let (rest, _, n, _, _) = encode_labels_inv l ls name e in absurd (omega (arith, ap length n))
skip_encoded (l ∷ ls) name pre post (suc fuel) e h =
    let (rest, r, n, low, high) = encode_labels_inv l ls name e in
    let next =
      skip_encoded ls rest (pre ++ (length l ∷ l)) post fuel r
        (omega (arith, ap length n, length-append l rest)) in
    subst (Passed pre post (suc fuel)) (sym n) (
      skip_label pre l rest post fuel low high
      ∙ next
      ∙ ap at (omega (arith, length_label pre l, length-append l rest)))

-- A query that can be built has one question: behind the header of 12 bytes, `skipDNSName` ends
-- four bytes before the end of the message, where the type and the class stand.
pub skip-build :
    (i qtype : ℕ) (labels : List (List ℕ)) (msg : List ℕ)
    → build_dns_query_type i labels qtype ≡ some msg
    → (end : ℕ) × (skip_dns_name msg 12 ≡ at end) × (end + 4 ≡ length msg)
unfolding build_dns_query_type skip_dns_name
skip-build i qtype labels msg e = elim (Option-cases (encode_labels labels)) [
  | inl k ↦ absurd (none-ne-some msg (rw (k, build_dns_query_type) at e))
  | inr (name, k) ↦
      let m = some-inj (rw (k, build_dns_query_type) at e) in
      let whole = length-append (header i) (name ++ (be16 qtype ++ be16 1)) in
      let tail = length-append name (be16 qtype ++ be16 1) in
      subst (λ msg. (end : ℕ) × (skip_dns_name msg 12 ≡ at end) × (end + 4 ≡ length msg)) m
        (
          12 + length name,
          skip_encoded labels name (header i) (be16 qtype ++ be16 1) _ k
              (omega (arith, whole, tail)),
          omega (arith, whole, tail),
        )
]
