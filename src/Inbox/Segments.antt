-- ===== src/Inbox/Segments.antt =====
-- The length of a forwarded message, and the loop that its marker prevents (internal/sms/forward.go).
use Prim.Native.String.{◌++◌ as append}
use text.Mathlib.Text.{starts_with}
use text.Mathlib.TextPositions.{starts_with-append}
use text.Mathlib.TextLemmas.{append_assoc}
use modem_service.Prelude.{
  contains, ℕ, ◌+◌, ◌*◌, ◌≤◌, ◌<◌, String, Bool, true, false, not, ◌||◌, ◌≡◌, ◌≢◌, ◌⊎◌, inl, inr,
  refl, sym, ap, subst, Option, none, some, arith, ltb, leb, leb→le, str_eq, Bool-cases,
}
use modem_service.Inbox.Text.{
  forward_marker, is_gsm, septets, utf16_length, parts, sms_segments, Incoming, forward_body,
  forward_text,
}

-- A number of messages that is just enough: one that takes up to `single` units, or several of up to
-- `multi` units each, the last of which is not empty.
abbrev pub JustFits : (units single multi n : ℕ) → Type 0
JustFits units single multi n =
    ((units ≤ single) × (n ≡ 1))
    ⊎ ((single < units) × (units ≤ multi * n) × (multi * n < units + multi))

over : (a b : ℕ) → leb a b ≡ false → b < a
over a b e = ground arith

gsm_parts : (u : ℕ) → JustFits u 160 153 (parts u 160 153)
unfolding parts
gsm_parts u = elim (Bool-cases (leb u 160)) [
  | inl e ↦ rw e (inl (leb→le u 160 e, refl))
  | inr e ↦ let k = over u 160 e in rw e (inr (k, omega arith, omega arith))
]

ucs_parts : (u : ℕ) → JustFits u 70 67 (parts u 70 67)
unfolding parts
ucs_parts u = elim (Bool-cases (leb u 70)) [
  | inl e ↦ rw e (inl (leb→le u 70 e, refl))
  | inr e ↦ let k = over u 70 e in rw e (inr (k, omega arith, omega arith))
]

-- The segments of a text are just enough for it: of 160 septets, or of 153 in several, where all of
-- its characters are in the GSM alphabet; otherwise of 70 units of UTF-16, or of 67 in several.
pub sms_segments_just_fit :
    (text : String)
    → ((is_gsm text ≡ true) × JustFits (septets text) 160 153 (sms_segments text))
      ⊎ ((is_gsm text ≡ false) × JustFits (utf16_length text) 70 67 (sms_segments text))
unfolding sms_segments
sms_segments_just_fit text = elim (Bool-cases (is_gsm text)) [
  | inl e ↦ inl (e, rw e (gsm_parts (septets text)))
  | inr e ↦ inr (e, rw e (ucs_parts (utf16_length text)))
]

contains_start : (s t : String) → starts_with s t ≡ true → contains s t ≡ true
unfolding contains
contains_start String.[] t e = e
contains_start (String.◌∷◌ c s) t e = rw e refl

last_true : (a b : Bool) → b ≡ true → (a || b) ≡ true
last_true a b e = ground arith

not_over : (n : ℕ) → ltb 10 n ≡ false → n ≤ 10
not_over n e = ground arith

none-ne-some : (a : String × ℕ) → none ≢ some a
none-ne-some a = λ e. ground arith

unwrapped : (a b : String × ℕ) → ◌≡◌ {A = Option (String × ℕ)} (some a) (some b) → a ≡ b
unwrapped a b e = ap (λ o. elim o [ none ↦ a | some x ↦ x ]) e

forward_text-none :
    (valid : Bool) (m : Incoming) (dest : String)
    → contains m.text forward_marker ≡ true
    → forward_text valid m dest ≡ none
unfolding forward_text
forward_text-none valid m dest e =
    let h = last_true (not valid || str_eq dest "off" || str_eq m.number dest) _ e in rw h refl

forward_text-some :
    (valid : Bool) (m : Incoming) (dest b : String) (n : ℕ)
    → forward_text valid m dest ≡ some (b, n)
    → (b ≡ forward_body m) × (n ≤ 10)
unfolding forward_text
forward_text-some valid m dest b n e =
    elim (Bool-cases
      (not valid || str_eq dest "off" || str_eq m.number dest || contains m.text forward_marker)) [
        | inl f ↦ absurd (none-ne-some (b, n) (rw (f, forward_text) at e))
        | inr f ↦ elim (Bool-cases (ltb 10 (sms_segments (forward_body m)))) [
          | inl g ↦ absurd (none-ne-some (b, n) (rw (f, g, forward_text) at e))
          | inr g ↦
              let h : some (forward_body m, sms_segments (forward_body m)) ≡ some (b, n) =
                rw (f, g, forward_text) at e in
              let p = unwrapped _ _ h in
              (sym (ap (λ x. x.0) p), subst (λ k. k ≤ 10) (ap (λ x. x.1) p) (not_over _ g))
        ]
      ]

forward_body_marked :
    (m : Incoming) (rest : String) → contains (append (forward_body m) rest) forward_marker ≡ true
unfolding forward_body
forward_body_marked m rest = contains_start _ forward_marker (
    subst (λ t. starts_with t forward_marker ≡ true) (sym (append_assoc forward_marker _ rest))
      (starts_with-append forward_marker _))

-- A text that is forwarded takes at most ten segments, and a message that holds it at its start, from
-- any number and at any time, is not forwarded again, whatever the destination.
pub forwarded_once :
    (valid : Bool) (m : Incoming) (dest body : String) (n : ℕ) (valid' : Bool)
    (number timestamp rest dest' : String)
    → forward_text valid m dest ≡ some (body, n)
    → (n ≤ 10)
      × (forward_text valid'
            (record { number = number; text = append body rest; timestamp = timestamp })
            dest'
          ≡ none)
forwarded_once valid m dest body n valid' number timestamp rest dest' e =
    let (p, k) = forward_text-some valid m dest body n e in
    (
      k,
      forward_text-none valid' _ dest' (
          subst (λ b. contains (append b rest) forward_marker ≡ true) (sym p)
            (forward_body_marked m rest)),
    )
