-- ===== src/Shipper/Assemble.antt =====
-- assemble.py: `SessionAssembler`.
pub mod Capped
pub mod Shrunk
pub mod Held
use sentinel_brief.Prelude.{
  Text, ℕ, ◌+◌, ◌-◌, ◌/◌, ◌<◌, zero, suc, String, Bool, true, false, not, ◌&&◌, ◌==ₛ◌, ltb, leb,
  max, Option, none, some, List, [], ◌∷◌, ◌++◌, length, take, last_only, del_second_last,
  if◌then◌else◌,
}

-- A decoded line: the five required fields, where they are, and the whole object. Each is a text,
-- as Cowrie writes it; a session that is an array or an object, which no dictionary takes as a key,
-- is left out.
pub record LogEvent : Type 0 where
  pub eventid : Option String
  pub session : Option String
  pub src_ip : Option String
  pub sensor : Option String
  pub timestamp : Option String
  pub fields : Text

-- An event that has them all.
pub record Event : Type 0 where
  pub eventid : String
  pub session : String
  pub src_ip : String
  pub sensor : String
  pub timestamp : String
  pub fields : Text

-- `all(f in event for f in _REQUIRED_FIELDS)`
abbrev complete :
    Option String
    → Option String
    → Option String
    → Option String
    → Option String
    → Text
    → Option Event
complete (some eventid) (some session) (some src_ip) (some sensor) (some timestamp) fields =
    some (record {
      eventid = eventid;
      session = session;
      src_ip = src_ip;
      sensor = sensor;
      timestamp = timestamp;
      fields = fields;
    })
complete _ _ _ _ _ fields = none

abbrev pub required : Option LogEvent → Option Event
required none = none
required (some e) = complete e.eventid e.session e.src_ip e.sensor e.timestamp e.fields

pub record OpenSession : Type 0 where
  pub session_id : String
  pub src_ip : String
  pub sensor : String
  pub events : List Event
  pub last_seen : ℕ
  pub has_connect : Bool
  pub dropped_events : ℕ

-- What `build_payload` serializes; `truncated_events` is none when the key "shipper" is absent.
pub record Envelope : Type 0 where
  pub session_id : String
  pub src_ip : String
  pub sensor : String
  pub events : List Event
  pub truncated_events : Option ℕ

-- The settings; `json_loads` and `dumps` are the json module's, and a line that is no JSON object
-- loads as none. Times are milliseconds.
pub record Assembler : Type 0 where
  pub idle_flush_s : ℕ
  pub max_events : ℕ
  pub max_payload_bytes : ℕ
  pub json_loads : Text → Option LogEvent
  pub dumps : Envelope → Text

-- `_sessions`, a dict in insertion order, and the counters.
pub record AssemblerState : Type 0 where
  pub sessions : List OpenSession
  pub parse_errors : ℕ
  pub dropped_no_connect : ℕ
  pub truncated_sessions : ℕ

unfoldable pub find_session : String → List OpenSession → Option OpenSession
find_session id [] = none
find_session id (o ∷ os) = if o.session_id ==ₛ id then some o else find_session id os

-- `_sessions[id] = o`: in place, or at the end.
unfoldable pub put_session : OpenSession → List OpenSession → List OpenSession
put_session o [] = o ∷ []
put_session o (p ∷ ps) = if p.session_id ==ₛ o.session_id then o ∷ ps else p ∷ put_session o ps

unfoldable pub remove_session : String → List OpenSession → List OpenSession
remove_session id [] = []
remove_session id (o ∷ os) = if o.session_id ==ₛ id then os else o ∷ remove_session id os

abbrev pub new_session : Event → ℕ → OpenSession
new_session e now = record {
  session_id = e.session;
  src_ip = e.src_ip;
  sensor = e.sensor;
  events = [];
  last_seen = now;
  has_connect = e.eventid ==ₛ "cowrie.session.connect";
  dropped_events = 0;
}

abbrev pub opened : Event → ℕ → Option OpenSession → OpenSession
opened e now none = new_session e now
opened e now (some o) = o

-- Cap 2: the events are halved, the first and the last kept, until the bytes fit or two are left.
unfoldable pub halve : List Event → List Event
halve events = take (max 2 (length events / 2) - 1) events ++ last_only events

module _ (cfg : Assembler) where
  -- The events after one more, with cap 1.
  unfoldable pub append_event : Event → OpenSession → ℕ → OpenSession
  append_event e o now =
      if ltb cfg.max_events (length (o.events ++ (e ∷ [])))
      then record o {
        events = del_second_last (o.events ++ (e ∷ []));
        last_seen = now;
        dropped_events = o.dropped_events + 1;
      }
      else record o { events = o.events ++ (e ∷ []); last_seen = now }

  -- Cap 1 on a whole list.
  unfoldable pub cap_events : List Event → List Event
  cap_events events =
      if ltb cfg.max_events (length events)
      then take (cfg.max_events - 1) events ++ last_only events
      else events

  abbrev pub envelope : OpenSession → List Event → Option ℕ → Envelope
  envelope o events truncated_events = record {
    session_id = o.session_id;
    src_ip = o.src_ip;
    sensor = o.sensor;
    events = events;
    truncated_events = truncated_events;
  }

  abbrev pub total : OpenSession → ℕ
  total o = length o.events + o.dropped_events

  -- The bytes while the loop runs: the key "shipper" counts.
  unfoldable pub payload_of : OpenSession → List Event → Text
  payload_of o events = cfg.dumps (envelope o events (some (total o - length events)))

  -- The `while`, on fuel; it gives the events that are kept.
  unfoldable pub shrink : ℕ → OpenSession → List Event → List Event
  unfolding halve payload_of
  shrink zero o events = events
  shrink (suc fuel) o events =
      let rest = shrink fuel o (halve events) in
      if ltb cfg.max_payload_bytes (length (payload_of o events)) && ltb 2 (length events)
      then rest
      else events

  abbrev pub kept_events : OpenSession → List Event
  kept_events o = shrink (length o.events) o (cap_events o.events)

  -- `build_payload`; the flag says whether the session counts as truncated.
  unfoldable pub build_payload : OpenSession → Text × Bool
  unfolding shrink cap_events payload_of
  build_payload o =
      let kept = kept_events o in
      if ltb 0 (total o - length kept)
      then (payload_of o kept, true)
      else (cfg.dumps (envelope o kept none), false)

  abbrev pub count_truncated : Text × Bool → AssemblerState → List Text × AssemblerState
  count_truncated (payload, truncated) s = (
    payload ∷ [],
    record s { truncated_sessions = s.truncated_sessions + (if truncated then 1 else 0) },
  )

  -- The end of a session that is no longer in the dict.
  unfoldable pub emit : OpenSession → AssemblerState → List Text × AssemblerState
  emit o s =
      if not o.has_connect
      then ([], record s { dropped_no_connect = s.dropped_no_connect + 1 })
      else count_truncated (build_payload o) s

  abbrev pub accumulated : Event → OpenSession → AssemblerState → List Text × AssemblerState
  accumulated e o s =
      if not (e.eventid ==ₛ "cowrie.session.closed")
      then ([], record s { sessions = put_session o s.sessions })
      else emit o (record s { sessions = remove_session e.session s.sessions })

  abbrev pub fed : Option Event → ℕ → AssemblerState → List Text × AssemblerState
  fed none now s = ([], record s { parse_errors = s.parse_errors + 1 })
  fed (some e) now s =
      accumulated e (append_event e (opened e now (find_session e.session s.sessions)) now) s

  unfoldable pub feed : Text → ℕ → AssemblerState → List Text × AssemblerState
  unfolding emit append_event find_session put_session remove_session
  feed line now s = fed (required (cfg.json_loads line)) now s

  -- `_flush`: the sessions with these ids, in this order.
  unfoldable pub flush : List String → AssemblerState → List Text × AssemblerState
  unfolding emit find_session remove_session
  flush [] s = ([], s)
  flush (id ∷ ids) s = elim (find_session id s.sessions) [
    | none ↦ flush ids s
    | some o ↦
        (let (first, s') = emit o (record s { sessions = remove_session id s.sessions }) in
          let (rest, s'') = flush ids s' in (first ++ rest, s''))
  ]

  unfoldable pub stale_ids : ℕ → List OpenSession → List String
  stale_ids now [] = []
  stale_ids now (o ∷ os) =
      if leb cfg.idle_flush_s (now - o.last_seen)
      then o.session_id ∷ stale_ids now os
      else stale_ids now os

  unfoldable pub flush_idle : ℕ → AssemblerState → List Text × AssemblerState
  unfolding flush stale_ids
  flush_idle now s = flush (stale_ids now s.sessions) s

  unfoldable pub all_ids : List OpenSession → List String
  all_ids [] = []
  all_ids (o ∷ os) = o.session_id ∷ all_ids os

  unfoldable pub flush_all : AssemblerState → List Text × AssemblerState
  unfolding flush all_ids
  flush_all s = flush (all_ids s.sessions) s
