-- ===== src/SmsStorage.antt =====
-- internal/service/sms_storage.go: the switch of the message storage when the active one is full. What
-- `regexp` and `strconv` find in a reply is an argument, as the matches with their numbers; what
-- D-Bus answers to a command is one of three, since a command that fails may have taken effect.
pub mod Restored
mod Tests
use modem_service.Prelude.{
  ℕ, String, Bool, true, false, not, ◌&&◌, ◌||◌, ◌==◌, ltb, leb, if◌then◌else◌, str_eq, Option,
  none, some, List, [], ◌∷◌,
}

pub record Storage : Type 0 where
  pub name : String
  pub used : ℕ
  pub capacity : ℕ

-- A match of `cpmsStoragePattern`; a number is `none` where `Atoi` fails.
pub record Match : Type 0 where
  pub name : String
  pub used : Option ℕ
  pub capacity : Option ℕ

unfoldable pub parse_match : Match → Option Storage
parse_match m = elim m.used [
  | none ↦ none
  | some u ↦ elim m.capacity [
    | none ↦ none
    | some c ↦ if ltb c u then none else some (record { name = m.name; used = u; capacity = c })
  ]
]

pub record Stores : Type 0 where
  pub reading : Storage
  pub writing : Storage
  pub receiving : Storage

abbrev pub join : Option Storage → Option Storage → Option Storage → Option Stores
join (some a) (some b) (some c) = some (record { reading = a; writing = b; receiving = c })
join _ _ _ = none

-- `parseSMSStorage`: exactly three matches.
unfoldable pub parse_sms_storage : List Match → Option Stores
parse_sms_storage (a ∷ b ∷ c ∷ []) = join (parse_match a) (parse_match b) (parse_match c)
parse_sms_storage _ = none

pub data Answer : Type 0 where
  done failed_after failed_before : Answer

abbrev pub succeeds : Answer → Bool
succeeds done = true
succeeds _ = false

pub data Event : Type 0 where
  selects : (reading writing receiving : String) → Answer → Event
  defaults : (storage : ℕ) → Answer → Event

-- The answers: the matches in the reply to the query, the supported storages and the default one, the
-- probe of the other store with the numbers of its reply, and the commands in their order.
pub record Env : Type 0 where
  pub matches : Option (List Match)
  pub supported : Option (List ℕ)
  pub previous : Option ℕ
  pub probe : Answer
  pub counts : Option (ℕ × ℕ)
  pub set_default : Answer
  pub final_select : Answer
  pub reset_default : Answer
  pub restore : Answer

-- The other store and its number.
unfoldable pub alternate : String → Option (String × ℕ)
alternate name =
    if str_eq name "SM" then some ("ME", 2) else if str_eq name "ME" then some ("SM", 1) else none

abbrev pub contains : ℕ → List ℕ → Bool
contains n [] = false
contains n (x ∷ xs) = (x == n) || contains n xs

abbrev pub free_space : Option (ℕ × ℕ) → Bool
free_space none = false
free_space (some (used, capacity)) = not (capacity == 0) && ltb used capacity

abbrev pub restoring : Stores → Env → Event
restoring s e = selects s.reading.name s.writing.name s.receiving.name e.restore

-- From the probe on; `old` is the previous default storage.
unfoldable pub switch : Stores → String → ℕ → ℕ → Env → List Event
switch s other storage old e =
    let probing = selects other s.writing.name s.receiving.name e.probe in
    if not (succeeds e.probe)
    then probing ∷ restoring s e ∷ []
    else if not (free_space e.counts)
    then probing ∷ restoring s e ∷ []
    else if not (succeeds e.set_default)
    then probing
      ∷ defaults storage e.set_default
      ∷ defaults old e.reset_default
      ∷ restoring s e
      ∷ []
    else if not (succeeds e.final_select)
    then probing
      ∷ defaults storage e.set_default
      ∷ selects other other other e.final_select
      ∷ defaults old e.reset_default
      ∷ restoring s e
      ∷ []
    else probing ∷ defaults storage e.set_default ∷ selects other other other e.final_select ∷ []

abbrev pub is_full : Storage → Bool
is_full s = not (s.capacity == 0) && leb s.capacity s.used

-- The part behind the query, once the stores and the other store are known.
unfoldable pub consider : Stores → String × ℕ → Env → List Event
consider s (other, storage) e = elim e.supported [
  | none ↦ []
  | some ids ↦
      if not (contains storage ids)
      then []
      else elim e.previous [ none ↦ [] | some old ↦ switch s other storage old e ]
]

abbrev pub with_alternate : Stores → Option (String × ℕ) → Env → List Event
with_alternate s none e = []
with_alternate s (some x) e = consider s x e

abbrev pub with_stores : Option Stores → Env → List Event
with_stores none e = []
with_stores (some s) e =
    if not (is_full s.receiving) then [] else with_alternate s (alternate s.receiving.name) e

abbrev pub parsed : Option (List Match) → Option Stores
parsed none = none
parsed (some ms) = parse_sms_storage ms

-- The commands that `recoverFullSMSStorage` gives, with their answers.
unfoldable pub recover_full_sms_storage : Env → List Event
recover_full_sms_storage e = with_stores (parsed e.matches) e
