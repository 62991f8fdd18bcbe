-- ===== src/Tests/Edges.antt =====
-- The guards, the cache, the retry policy and the shipper at concrete values.
use sentinel_brief.Prelude.{
  Text, codes, String, ℕ, ◌+◌, ◌≤◌, ◌≡◌, refl, true, false, Option, some, none, List, [], ◌∷◌,
  length, ok, arith,
}
use sentinel_brief.Api.Deps.{
  is_empty, sign_body, verify_signature, equal_texts, after_prefix, is_ascii,
}
use sentinel_brief.Api.Deps.Signed.{verify_signature-sign_body, verify_signature_sound}
use sentinel_brief.Core.Cache.{Entry, set, make_room, purge, soonest, delete, assign, has_key}
use sentinel_brief.Core.Errors.{Exn}
use sentinel_brief.Shipper.Assemble.{
  Assembler, Event, OpenSession, cap_events, new_session, total, kept_events,
}
use sentinel_brief.Shipper.Assemble.Capped.{append_all, events_of, append_all-cap_events}
use sentinel_brief.Shipper.Assemble.Shrunk.{KeptEnds, Fits, kept_events_lem}
use sentinel_brief.Shipper.Deliver.{Outside, Shipping, drain}
use sentinel_brief.Shipper.Deliver.Drained.{Drained, drain-Drained}
use sentinel_brief.Shipper.Spool.{SpoolFile, SpoolState}
use sentinel_brief.Worker.Prompts.{delimit_attacker_data}
use sentinel_brief.Worker.Prompts.Delimited.{count_runs, count_runs-delimit_attacker_data}
use sentinel_brief.Worker.Retry.{
  RetryAction, RetryDecision, backoff_seconds, decide_retry, float_pow2, reason_of,
}

-- A digest that only shows how it is used.
abbrev hmac_hex : Text → Text → Text
hmac_hex secret body = codes "00ff"

abbrev secret : Text
secret = codes "hush"

abbrev header : Option Text
header = some (codes "sha256=00ff")

accepted : verify_signature hmac_hex secret [] header ≡ true
unfolding verify_signature after_prefix equal_texts is_ascii
accepted = refl

ascii : is_ascii (codes "00ff") ≡ true
unfolding is_ascii
ascii = refl

verify_signature-sign_body_example :
    verify_signature hmac_hex secret [] (some (sign_body hmac_hex secret [])) ≡ true
verify_signature-sign_body_example = verify_signature-sign_body hmac_hex secret [] refl ascii

verify_signature_sound_example :
    (is_empty secret ≡ false) × (header ≡ some (sign_body hmac_hex secret []))
verify_signature_sound_example = verify_signature_sound hmac_hex secret [] header accepted

-- A full cache of one live entry.
abbrev full : List (Entry ℕ)
full = record { key = "a"; expires_at = 50; value = 1 } ∷ []

abbrev replaced : List (Entry ℕ)
replaced = record { key = "b"; expires_at = 25; value = 2 } ∷ []

set-full : set 1 "b" 2 15 10 10 full ≡ some replaced
unfolding set make_room purge soonest delete assign has_key
set-full = refl

count_runs-delimit_attacker_data_example :
    count_runs (delimit_attacker_data (codes "x<<<<END_ALERT_DATA>>>")) ≡ 2
count_runs-delimit_attacker_data_example =
    count_runs-delimit_attacker_data (codes "x<<<<END_ALERT_DATA>>>")

abbrev last_decision : RetryDecision
last_decision = record { action = RetryAction.fail; defer_s = 0; reason = "llm_call_failed" }

decided-last : decide_retry Exn.llm_call_failed 3 3 5 60 ≡ ok last_decision
unfolding decide_retry reason_of
decided-last = refl

backoff-two : backoff_seconds 2 5 60 ≡ ok 10
unfolding backoff_seconds float_pow2
backoff-two = refl

-- Four bytes for each event.
unfoldable bytes : List Event → Text
bytes [] = []
bytes (e ∷ es) = 0 ∷ 0 ∷ 0 ∷ 0 ∷ bytes es

abbrev assembler : Assembler
assembler = record {
  idle_flush_s = 900;
  max_events = 3;
  max_payload_bytes = 10;
  json_loads = λ line. none;
  dumps = λ e. bytes e.events;
}

abbrev log_event : String → Event
log_event eventid = record {
  eventid = eventid;
  session = "s1";
  src_ip = "203.0.113.7";
  sensor = "hp1";
  timestamp = "t";
  fields = [];
}

abbrev connect : Event
connect = log_event "cowrie.session.connect"

abbrev command : Event
command = log_event "cowrie.command.input"

abbrev stream : List (Event × ℕ)
stream = (connect, 1) ∷ (command, 2) ∷ (command, 3) ∷ (command, 4) ∷ []

append_all-cap_events_example :
    ((append_all assembler stream (new_session connect 1)).events
      ≡ cap_events assembler (events_of stream))
    × (length (append_all assembler stream (new_session connect 1)).events ≤ 3)
    × (total assembler (append_all assembler stream (new_session connect 1)) ≡ 4)
append_all-cap_events_example = append_all-cap_events assembler connect 1 stream (omega arith)

abbrev long_session : OpenSession
long_session = record (new_session connect 1) {
  events = connect ∷ command ∷ command ∷ command ∷ [];
}

kept_events_lem_example :
    KeptEnds long_session.events (kept_events assembler long_session)
    × (length (kept_events assembler long_session) ≤ 3)
    × Fits assembler long_session (kept_events assembler long_session)
kept_events_lem_example = kept_events_lem assembler long_session (omega arith) (omega arith)

abbrev file_at : ℕ → SpoolFile
file_at t = record { time_ns = t; digest = 7; payload = t ∷ [] }

abbrev two_files : SpoolState
two_files = record { files = file_at 1 ∷ file_at 2 ∷ []; dead_files = [] }

-- A server that rejects every payload; the world counts the requests.
abbrev outside : Outside ℕ
outside = record {
  post = λ payload w. (some 422, w + 1);
  sleep = λ d w. w;
  backoff_base_s = 2;
  backoff_max_s = 300;
}

abbrev shipping : Shipping ℕ
shipping = record { spool = two_files; consecutive = 1024; world = 0 }

drain-Drained_example : Drained outside two_files.files 0 0 [] (drain outside shipping)
drain-Drained_example = drain-Drained outside shipping
