-- ===== src/Sms.antt =====
-- internal/sms/manager.go: messages out of the modem's store and into it. What D-Bus, the service and
-- `time.Parse` answer at one message are arguments, what the manager asks of them is its trace, and
-- the map `deliveredUndeleted` is a function. Log lines are left out. Every operation holds the
-- mutex, so that a run is a sequence of operations.
pub mod Runs
pub mod Once
pub mod Delivery
mod Tests
use modem_service.Prelude.{
  ℕ, String, Bool, true, false, not, ◌&&◌, ◌||◌, ◌==◌, if◌then◌else◌, str_eq, Option, none, some,
  List, [], ◌∷◌, ◌++◌,
}

abbrev pub state_receiving : ℕ
state_receiving = 2

abbrev pub state_sending : ℕ
state_sending = 4

abbrev pub state_sent : ℕ
state_sent = 5

abbrev pub pdu_type_submit : ℕ
pdu_type_submit = 2

abbrev pub pdu_type_status_report : ℕ
pdu_type_status_report = 3

-- `mm.SMSProperties`, the data as bytes.
pub record Properties : Type 0 where
  pub number : String
  pub text : String
  pub data_bytes : List ℕ
  pub state : ℕ
  pub pdu_type : ℕ
  pub timestamp : String

pub record Message : Type 0 where
  pub number : String
  pub text : String
  pub timestamp : ℕ
  pub source_path : String
  pub source_timestamp : String

pub record Identity : Type 0 where
  pub number : String
  pub text : String
  pub timestamp : String

abbrev pub Manager : Type 0
Manager = String → Option Identity

unfoldable pub new : Manager
new path = none

-- What the manager asks for, with the answer.
pub data Event : Type 0 where
  delivers : Message → (ok : Bool) → Event
  deletes : (modem path : String) → (ok : Bool) → Event
  releases : (path : String) → Event
  creates : (number text : String) → (ok : Bool) → Event
  sends : (path : String) → (ok : Bool) → Event

-- The answers at one message: its properties, or `none` if they cannot be read; the parsed
-- timestamp, if it parses; the clock; and whether the delivery and the deletion succeed.
pub record Answers : Type 0 where
  pub properties : Option Properties
  pub parsed : Option ℕ
  pub now : ℕ
  pub delivery_ok : Bool
  pub deletion_ok : Bool

unfoldable pub parse_timestamp : String → Option ℕ → ℕ → ℕ
parse_timestamp s none now = now
parse_timestamp s (some t) now = if str_eq s "" then now else t

abbrev pub identity_eq : Identity → Identity → Bool
identity_eq x y = str_eq x.number y.number && str_eq x.text y.text && str_eq x.timestamp y.timestamp

-- A missing key reads as the zero identity.
abbrev pub zero_identity : Identity
zero_identity = record { number = ""; text = ""; timestamp = "" }

abbrev pub known_as : Option Identity → Identity → Bool
known_as none y = identity_eq zero_identity y
known_as (some x) y = identity_eq x y

abbrev pub set : Manager → String → Option Identity → Manager
set m path v q = if str_eq q path then v else m q

abbrev pub identity_of : Properties → Identity
identity_of p = record { number = p.number; text = p.text; timestamp = p.timestamp }

unfoldable pub message_of : String → Properties → Answers → Message
unfolding parse_timestamp
message_of path p a = record {
  number = p.number;
  text = p.text;
  timestamp = parse_timestamp p.timestamp a.parsed a.now;
  source_path = path;
  source_timestamp = p.timestamp;
}

abbrev pub is_empty : List ℕ → Bool
is_empty [] = true
is_empty (x ∷ xs) = false

-- A deletion that ends the manager's memory of the message: `DeleteSMS`, `delete` on the map, and
-- `forgetDeleted`; `kept` is the map where the deletion fails.
abbrev pub delete_known : String → String → Bool → Manager → Manager → Manager × List Event
delete_known modem path true m kept =
    (set m path none, deletes modem path true ∷ releases path ∷ [])
delete_known modem path false m kept = (kept, deletes modem path false ∷ [])

-- The default case of `processOne`, for an inbound message.
unfoldable pub process_inbound :
    String → String → Properties → Answers → Manager → Manager × List Event
process_inbound modem path p a m =
    if not (is_empty p.data_bytes)
    then (m, [])
    else if known_as (m path) (identity_of p)
    then delete_known modem path a.deletion_ok m m
    else if not a.delivery_ok
    then (m, delivers (message_of path p a) false ∷ [])
    else let (n, l) = delete_known modem path a.deletion_ok m (set m path (some (identity_of p))) in
      (n, delivers (message_of path p a) true ∷ l)

abbrev pub is_outbound : Properties → Bool
is_outbound p =
    (p.pdu_type == pdu_type_submit) || (p.state == state_sending) || (p.state == state_sent)

unfoldable pub process_one : String → String → Answers → Manager → Manager × List Event
process_one modem path a m = elim a.properties [
  | none ↦ (m, [])
  | some p ↦
      if p.state == state_receiving
      then (m, [])
      else if p.pdu_type == pdu_type_status_report
      then (m, deletes modem path a.deletion_ok ∷ [])
      else if is_outbound p
      then (m, deletes modem path a.deletion_ok ∷ [])
      else process_inbound modem path p a m
]

unfoldable pub handle_added : String → String → Answers → Manager → Manager × List Event
handle_added modem path a m =
    if str_eq modem "" || str_eq path "" then (m, []) else process_one modem path a m

unfoldable pub process_all : String → List (String × Answers) → Manager → Manager × List Event
process_all modem [] m = (m, [])
process_all modem ((path, a) ∷ l) m =
    let (n, done) = process_one modem path a m in
    let (k, more) = process_all modem l n in (k, done ++ more)

-- `DrainReceived`; `listed` is `none` where `ListSMS` fails. The Boolean is `true` for no error.
unfoldable pub drain_received :
    String → Option (List (String × Answers)) → Manager → (Manager × List Event) × Bool
drain_received modem listed m =
    if str_eq modem ""
    then ((m, []), false)
    else elim listed [ none ↦ ((m, []), false) | some l ↦ (process_all modem l m, true) ]

pub data Outcome : Type 0 where
  ok error no_modem : Outcome

pub record Request : Type 0 where
  pub to : String
  pub text : String

-- `Send`; `created` is the path of the new object, or `none` if `CreateSMS` fails.
unfoldable pub send :
    String → Request → Option String → (sent deleted : Bool) → Outcome × List Event
send modem r created sent deleted =
    if str_eq modem ""
    then (no_modem, [])
    else if str_eq r.to ""
    then (error, [])
    else elim created [
      | none ↦ (error, creates r.to r.text false ∷ [])
      | some path ↦ (
        if sent then ok else error,
        creates r.to r.text true ∷ sends path sent ∷ deletes modem path deleted ∷ [],
      )
    ]
