-- ===== src/Inbox/Tests.antt =====
-- Tests of the inbox (internal/sms/store.go, internal/sms/forward.go), and its theorems at concrete
-- inputs.
use Prim.Native.String.{◌++◌ as append}
use modem_service.Prelude.{
  contains, ℕ, ◌≤◌, String, true, false, ◌≡◌, ◌⊎◌, refl, none, some, [], ◌∷◌,
}
use modem_service.Inbox.{
  Call, Message, records, marks, deletes, open_inbox, run, record_with_forward_since, record_read,
  record_from, record_new, known, has_id, queue_job, stored, entry_of, fingerprint_of,
}
use modem_service.Inbox.Text.{
  Incoming, forward_text, forward_body, contains_rune, is_gsm, septets, septets_of, utf16_length,
  parts, sms_segments,
}
use modem_service.Inbox.Kept.{IsInbox, run-IsInbox}
use modem_service.Inbox.Known.{recorded_again}
use modem_service.Inbox.Segments.{JustFits, sms_segments_just_fit, forwarded_once}

abbrev call : ℕ → String → Call
call now i = record {
  reads = true;
  commits = true;
  now = now;
  random = some i;
  source_time = none;
  valid = true;
  digest = λ n t s. append n (append t s);
}

abbrev hello : Message
hello = record {
  number = "+4930123456";
  text = "hello";
  timestamp = "2025-01-01T00:00:00Z";
  source_path = "/SMS/1";
  source_timestamp = "2025-01-01T00:00:00+01";
}

abbrev received : Incoming
received = record { number = "+4930123456"; text = "hello"; timestamp = "2025-01-01T00:00:00Z" }

run-IsInbox_example : IsInbox (
    run
      (records (call 5 "a") hello "off" 0
        ∷ records (call 3 "b") hello "off" 0
        ∷ marks true "a"
        ∷ [])
      open_inbox)
run-IsInbox_example =
    run-IsInbox (
      records (call 5 "a") hello "off" 0 ∷ records (call 3 "b") hello "off" 0 ∷ marks true "a" ∷ [])

recorded_again_example :
    let t =
      run
        (deletes true "a" ∷ marks true "x" ∷ [])
        (record_with_forward_since (call 5 "a") hello "off" 0 open_inbox).0 in
    record_with_forward_since (call 9 "b") hello "off" 0 t
    ≡ (t, some (entry_of (call 9 "b") hello "a", false))
unfolding record_with_forward_since record_read record_from record_new known open_inbox has_id
    queue_job forward_text stored entry_of fingerprint_of
recorded_again_example =
    recorded_again (call 5 "a") (call 9 "b") hello "off" "off" 0 0 open_inbox
      (deletes true "a" ∷ marks true "x" ∷ []) "a" "b" refl refl (tt, (tt, tt)) refl refl refl

sms_segments_just_fit_example :
    ((is_gsm "hello" ≡ true) × JustFits (septets "hello") 160 153 (sms_segments "hello"))
    ⊎ ((is_gsm "hello" ≡ false) × JustFits (utf16_length "hello") 70 67 (sms_segments "hello"))
sms_segments_just_fit_example = sms_segments_just_fit "hello"

abbrev body : String
body = "[Librescoot SMS] From: +4930123456\n2025-01-01T00:00:00Z\nhello"

forwarded_once_example :
    (1 ≤ 10)
    × (forward_text true
          (record { number = "+49301"; text = append body " back"; timestamp = "" })
          "+4930123456"
        ≡ none)
unfolding forward_text contains forward_body sms_segments is_gsm contains_rune septets septets_of
    parts
forwarded_once_example =
    forwarded_once true received "+49301" body 1 true "+49301" "" " back" "+4930123456" refl

two_parts : parts 161 160 153 ≡ 2
unfolding parts
two_parts = refl
