-- ===== src/Bearer/Selection.antt =====
-- Which bearer carries the data (internal/mm/bearer.go).
use modem_service.Prelude.{
  String, Bool, true, false, ◌&&◌, Option, none, some, List, [], ◌∷◌, ◌≡◌, ◌≢◌, ◌↔◌, inl, inr, refl,
  sym, ◌∙◌, ap, arith, Bool-cases, str_eq, eq_iff, if◌then◌else◌, All,
}
use modem_service.Bearer.{
  Properties, BearerInfo, failed, no_data_bearer, get_bearer_info, select_data_bearer, infos,
  complete, selected, data_bearer, read_string,
}

-- The interface of the bearer has been read, and there is none.
abbrev pub Bare : String × Properties → Type 0
Bare x = x.1.interface ≡ some ""

true-ne-false : true ≢ false
true-ne-false = λ e. ground arith

some-inj : {x y : String} → some x ≡ some y → x ≡ y
some-inj e = ground arith

select_one :
    (o : Option String) (rest : Option BearerInfo) (c : Bool) (i : BearerInfo)
    → (((if str_eq (read_string o).0 "" then rest else some i) ≡ none)
        × (((read_string o).1 && c) ≡ true))
      ↔ ((o ≡ some "") × (rest ≡ none) × (c ≡ true))
select_one none rest c i = ground arith
select_one (some s) rest c i = elim (Bool-cases (str_eq s "")) [
  | inl e ↦ rw e (λ h. (ap some ((eq_iff s "").0 e), h.0, h.1), λ h. (h.1, h.2))
  | inr e ↦
      rw e
        (λ h. ground arith, λ h. absurd (true-ne-false (sym ((eq_iff s "").1 (some-inj h.0)) ∙ e)))
]

select_none :
    (ps : List (String × Properties))
    → ((select_data_bearer (infos ps) ≡ none) × (complete (infos ps) ≡ true)) ↔ All Bare ps
unfolding select_data_bearer get_bearer_info
select_none [] = (λ h. tt, λ h. (refl, refl))
select_none ((path, p) ∷ ps) =
    let one =
      select_one p.interface (select_data_bearer (infos ps)) (complete (infos ps))
        (get_bearer_info path p) in
    let rest = select_none ps in
    (
      λ h. let k = one.0 h in (k.0, rest.0 (k.1, k.2)),
      λ h. let k = rest.1 h.1 in one.1 (h.0, k.0, k.1),
    )

selected-none :
    (o : Option BearerInfo) (c : Bool)
    → (selected o c ≡ failed no_data_bearer) ↔ ((o ≡ none) × (c ≡ true))
selected-none none true = ground arith
selected-none none false = ground arith
selected-none (some i) c = ground arith

-- `DataBearer` says that there is no data bearer exactly if the interface of every bearer has been
-- read and is empty: a read that fails never looks like the loss of the bearer.
pub data_bearer_none_iff :
    (ps : List (String × Properties))
    → (data_bearer (some ps) ≡ failed no_data_bearer) ↔ All Bare ps
unfolding data_bearer
data_bearer_none_iff ps =
    let a = selected-none (select_data_bearer (infos ps)) (complete (infos ps)) in
    let b = select_none ps in (λ h. b.0 (a.0 h), λ h. a.1 (b.1 h))
