-- ===== src/Tests/Values.antt =====
-- The alert, the tools and the rate limit at concrete values.
use sentinel_brief.Prelude.{
  arith, Text, codes, ℕ, ◌+◌, ◌≡◌, refl, String, true, false, some, [], ◌∷◌, ok, err,
}
use sentinel_brief.Api.Deps.{RateLimit, rate_limit}
use sentinel_brief.Core.Alert.{
  CowrieEvent, SessionAlert, model_validate, sort_events, insert_event, connect_time,
}
use sentinel_brief.Core.Alert.Sorted.{Begun, tally, model_validate_lem}
use sentinel_brief.Core.Errors.{Exn}
use sentinel_brief.Shipper.Assemble.{Assembler, AssemblerState, LogEvent, feed}
use sentinel_brief.Shipper.Assemble.Held.{Held, feed-Held}
use sentinel_brief.Tests.{alert, event}
use sentinel_brief.Worker.Tools.{Registry}

abbrev login : ℕ → String → CowrieEvent
login t name = record event { eventid = "cowrie.login.failed"; timestamp = t; username = some name }

abbrev typed : ℕ → CowrieEvent
typed t = record event {
  eventid = "cowrie.command.input";
  timestamp = t;
  input = some (codes "uname -a");
}

-- The connect event comes second in the payload.
abbrev raw : SessionAlert
raw = record alert { events = login 2000 "root" ∷ event ∷ typed 3000 ∷ login 4000 "root" ∷ [] }

abbrev validated : SessionAlert
validated = record alert {
  events = event ∷ login 2000 "root" ∷ typed 3000 ∷ login 4000 "root" ∷ [];
}

raw-validated : model_validate raw ≡ some validated
unfolding model_validate sort_events insert_event
raw-validated = refl

model_validate_lem_example :
    Begun (connect_time validated) validated.events
    × (tally (λ e. e.timestamp) validated.events ≡ tally (λ e. e.timestamp) raw.events)
    × (validated ≡ record raw { events = validated.events })
model_validate_lem_example = model_validate_lem (λ e. e.timestamp) raw validated raw-validated

-- Objects are texts here, and the tool raises.
abbrev registry : Registry Text ℕ
registry = record {
  names = "get_asset_info" ∷ [];
  max_result_chars = 4;
  dumps = λ j. ok j;
  unavailable = λ reason. reason;
  recorder = λ name arguments w. (err (Exn.other "RuntimeError"), w + 7);
  clock = λ w. w;
  class_name = λ e. "RuntimeError";
}

abbrev limit : RateLimit ℕ
limit = record {
  public_rate_limit_per_min = 2;
  redis_wired = true;
  is_non_public_client_ip = λ host. false;
  incr = λ host minute w. (some 3, w);
  now = λ w. 119;
}

over : (rate_limit limit (some "203.0.113.7") 0).0 ≡ err (Exn.rate_limited (some 1))
unfolding rate_limit
over = refl

-- Lines are events already, all of one session; one is held, at the cap of one event.
abbrev line_event : LogEvent
line_event = record {
  eventid = some "cowrie.command.input";
  session = some "s1";
  src_ip = some "203.0.113.7";
  sensor = some "hp1";
  timestamp = some "t";
  fields = [];
}

abbrev small : Assembler
small = record {
  idle_flush_s = 900;
  max_events = 2;
  max_payload_bytes = 100;
  json_loads = λ line. some line_event;
  dumps = λ e. [];
}

abbrev nothing_open : AssemblerState
nothing_open = record {
  sessions = [];
  parse_errors = 0;
  dropped_no_connect = 0;
  truncated_sessions = 0;
}

feed-Held_example : Held small (feed small [] 7 nothing_open).1.sessions
feed-Held_example = feed-Held small [] 7 nothing_open (omega arith) tt
