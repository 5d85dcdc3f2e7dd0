-- ===== src/Sms/Tests.antt =====
-- The message manager at fixed messages (internal/sms/manager.go).
use modem_service.Prelude.{
  ◌+◌, ◌≤◌, ◌≡◌, refl, List, [], ◌∷◌, ◌++◌, true, false, none, some, arith, Bool,
}
use modem_service.Sms.{
  Answers, Properties, identity_of, new, process_one, process_inbound, handle_added, drain_received,
  process_all, ok, send, creates, sends, deletes,
}
use modem_service.Sms.Runs.{Operation, adds, drains, run, step, Every}
use modem_service.Sms.Delivery.{told, asks_deletion, deletion_delivered, blank_message_deleted}
use modem_service.Sms.Once.{deliveries, deletions, delivered_once}

abbrev hello : Properties
hello = record {
  number = "+491";
  text = "hello";
  data_bytes = [];
  state = 3;
  pdu_type = 1;
  timestamp = "2026";
}

abbrev blank : Properties
blank = record hello { number = ""; text = ""; timestamp = "" }

abbrev answers : Properties → (delivery_ok deletion_ok : Bool) → Answers
answers p delivery_ok deletion_ok = record {
  properties = some p;
  parsed = none;
  now = 7;
  delivery_ok = delivery_ok;
  deletion_ok = deletion_ok;
}

-- The delivery fails at first, then the deletion.
abbrev operations : List Operation
operations =
    adds "/modem" "/sms/1" (answers hello false true)
    ∷ drains "/modem" (some (("/sms/1", answers hello true false) ∷ []))
    ∷ []

deletion_delivered_example :
    let (m, h) = run operations (new, []) in
    told "/sms/1"
      (identity_of hello)
      (h ++ (process_one "/modem" "/sms/1" (answers hello true true) m).1)
    ≡ true
unfolding run step handle_added drain_received process_all process_one process_inbound asks_deletion
    new
deletion_delivered_example =
    deletion_delivered operations "/modem" "/sms/1" (answers hello true true) hello refl
      (refl, refl, refl) refl refl

blank_message_deleted_example :
    (asks_deletion "/sms/1" (process_one "/modem" "/sms/1" (answers blank true true) new).1 ≡ true)
    × (told "/sms/1"
          (identity_of blank)
          (process_one "/modem" "/sms/1" (answers blank true true) new).1
        ≡ false)
unfolding new
blank_message_deleted_example =
    blank_message_deleted "/modem" "/sms/1" (answers blank true true) blank new refl
      (refl, refl, refl) refl refl refl

delivered_once_example :
    let h = (run operations (new, [])).1 in deliveries "/sms/1" h ≤ deletions "/sms/1" h + 1
unfolding Every
delivered_once_example =
    delivered_once "/sms/1" (identity_of hello) operations
      (λ p y e. ground arith, ((λ p y e. ground arith, tt), tt))

-- A message that is sent is deleted.
send_run :
    send "/modem" (record { to = "+491"; text = "hi" }) (some "/sms/2") true false
    ≡ (ok, creates "+491" "hi" true ∷ sends "/sms/2" true ∷ deletes "/modem" "/sms/2" false ∷ [])
unfolding send
send_run = refl
