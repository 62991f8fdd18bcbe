-- ===== src/Core/Alert.antt =====
-- core/schemas/alert.py: the session alert. A datetime is its number of microseconds, UTC.
pub mod Sorted
use sentinel_brief.Prelude.{
  Text, ℕ, ◌-◌, ◌/◌, String, ◌==ₛ◌, Option, none, some, List, [], ◌∷◌, leb, if◌then◌else◌,
}

-- Usernames and the like are only compared and counted; a command is cut to a length.
pub record CowrieEvent : Type 0 where
  pub eventid : String
  pub timestamp : ℕ
  pub username : Option String
  pub password : Option String
  pub input : Option Text
  pub url : Option String
  pub outfile : Option String
  pub shasum : Option String
  pub duration_ms : Option ℕ
  pub version : Option String

pub record SessionAlert : Type 0 where
  pub source : String
  pub session_id : String
  pub src_ip : String
  pub sensor : String
  pub events : List CowrieEvent

-- `sorted(events, key=lambda e: e.timestamp)`, which is stable.
unfoldable pub insert_event : CowrieEvent → List CowrieEvent → List CowrieEvent
insert_event e [] = e ∷ []
insert_event e (x ∷ xs) = if leb e.timestamp x.timestamp then e ∷ x ∷ xs else x ∷ insert_event e xs

unfoldable pub sort_events : List CowrieEvent → List CowrieEvent
unfolding insert_event
sort_events [] = []
sort_events (e ∷ es) = insert_event e (sort_events es)

abbrev pub connect_event : String
connect_event = "cowrie.session.connect"

abbrev pub closed_event : String
closed_event = "cowrie.session.closed"

-- `min_length=1`, and `_sort_and_require_connect_first`.
abbrev pub connect_first : SessionAlert → List CowrieEvent → Option SessionAlert
connect_first alert [] = none
connect_first alert (e ∷ es) =
    if e.eventid ==ₛ connect_event then some (record alert { events = e ∷ es }) else none

unfoldable pub model_validate : SessionAlert → Option SessionAlert
unfolding sort_events
model_validate alert = connect_first alert (sort_events alert.events)

-- `events[0].timestamp`; a validated alert has an event.
abbrev first_time : List CowrieEvent → ℕ
first_time [] = 0
first_time (e ∷ es) = e.timestamp

unfoldable pub connect_time : SessionAlert → ℕ
connect_time alert = first_time alert.events

-- The last `cowrie.session.closed` event.
unfoldable pub last_closed : List CowrieEvent → Option CowrieEvent
last_closed [] = none
last_closed (e ∷ es) = elim (last_closed es) [
  | some c ↦ some c
  | none ↦ if e.eventid ==ₛ closed_event then some e else none
]

unfoldable pub close_time : SessionAlert → Option ℕ
close_time alert = elim (last_closed alert.events) [ none ↦ none | some c ↦ some c.timestamp ]

abbrev recorded_duration : Option ℕ → ℕ → ℕ → ℕ
recorded_duration (some d) connect close = d
recorded_duration none connect close = (close - connect) / 1000

unfoldable pub duration_ms : SessionAlert → Option ℕ
unfolding connect_time
duration_ms alert = elim (last_closed alert.events) [
  | none ↦ none
  | some c ↦ some (recorded_duration c.duration_ms (connect_time alert) c.timestamp)
]
