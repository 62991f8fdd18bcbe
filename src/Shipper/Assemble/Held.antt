-- ===== src/Shipper/Assemble/Held.antt =====
-- assemble.py: what the assembler holds in memory stays bounded.
use sentinel_brief.Prelude.{
  Text, ℕ, ◌+◌, ◌≤◌, ◌≡◌, refl, sym, ◌==ₛ◌, String, Bool, true, false, not, arith, Option, none,
  some, List, [], ◌∷◌, length, All, if◌then◌else◌,
}
use sentinel_brief.Shipper.Assemble.{
  Assembler, AssemblerState, Event, OpenSession, append_event, opened, find_session, put_session,
  remove_session, emit, build_payload, count_truncated, accumulated, fed, required, feed,
}
use sentinel_brief.Shipper.Assemble.Capped.{append_event-bounded}

-- Each open session holds at most the cap.
abbrev pub Held : Assembler → List OpenSession → Type 0
Held cfg os = All (λ o. length o.events ≤ cfg.max_events) os

module _ (cfg : Assembler) where
  find_session-Held :
      (id : String) (os : List OpenSession)
      → Held cfg os
      → (found : Option OpenSession) → find_session id os ≡ found
      → All (λ o. length o.events ≤ cfg.max_events) (elim found [ none ↦ [] | some o ↦ o ∷ [] ])
  unfolding find_session
  find_session-Held id [] h none e = tt
  find_session-Held id [] h (some o) e = cc
  find_session-Held id (p ∷ ps) h found e =
      by_test (p.session_id ==ₛ id) e (find_session-Held id ps h.1 found)
    where
      by_test :
          (b : Bool)
          → (if b then some p else find_session id ps) ≡ found
          → (find_session id ps ≡ found
              → All
                  (λ o. length o.events ≤ cfg.max_events)
                  (elim found [ none ↦ [] | some o ↦ o ∷ [] ]))
          → All (λ o. length o.events ≤ cfg.max_events) (elim found [ none ↦ [] | some o ↦ o ∷ [] ])
      by_test true k more = rw (sym k) (h.0, tt)
      by_test false k more = more k

  put_session-Held :
      (o : OpenSession) (os : List OpenSession)
      → length o.events ≤ cfg.max_events
      → Held cfg os
      → Held cfg (put_session o os)
  unfolding put_session
  put_session-Held o [] b h = (b, tt)
  put_session-Held o (p ∷ ps) b h =
      by_test (p.session_id ==ₛ o.session_id) (put_session-Held o ps b h.1)
    where
      by_test :
          (t : Bool)
          → Held cfg (put_session o ps)
          → Held cfg (if t then o ∷ ps else p ∷ put_session o ps)
      by_test true k = (b, h.1)
      by_test false k = (h.0, k)

  remove_session-Held :
      (id : String) (os : List OpenSession) → Held cfg os → Held cfg (remove_session id os)
  unfolding remove_session
  remove_session-Held id [] h = tt
  remove_session-Held id (p ∷ ps) h = by_test (p.session_id ==ₛ id) (remove_session-Held id ps h.1)
    where
      by_test :
          (t : Bool)
          → Held cfg (remove_session id ps)
          → Held cfg (if t then ps else p ∷ remove_session id ps)
      by_test true k = h.1
      by_test false k = (h.0, k)

  emit-sessions : (o : OpenSession) (s : AssemblerState) → (emit cfg o s).1.sessions ≡ s.sessions
  unfolding emit
  emit-sessions o s = by_test (not o.has_connect)
    where
      sessions_of : List Text × AssemblerState → List OpenSession
      sessions_of p = p.1.sessions

      by_test :
          (b : Bool)
          → sessions_of (
              if b
              then ([], record s { dropped_no_connect = s.dropped_no_connect + 1 })
              else count_truncated cfg (build_payload cfg o) s)
            ≡ s.sessions
      by_test true = refl
      by_test false = refl

  opened-bounded :
      (e : Event) (now : ℕ) (found : Option OpenSession)
      → All (λ o. length o.events ≤ cfg.max_events) (elim found [ none ↦ [] | some o ↦ o ∷ [] ])
      → length (opened e now found).events ≤ cfg.max_events
  opened-bounded e now none h = omega arith
  opened-bounded e now (some o) h = h.0

  accumulated-Held :
      (e : Event) (o : OpenSession) (s : AssemblerState)
      → length o.events ≤ cfg.max_events
      → Held cfg s.sessions
      → Held cfg (accumulated cfg e o s).1.sessions
  accumulated-Held e o s b h = by_test (not (e.eventid ==ₛ "cowrie.session.closed"))
    where
      sessions_of : List Text × AssemblerState → List OpenSession
      sessions_of p = p.1.sessions

      by_test :
          (t : Bool)
          → Held cfg (
              sessions_of (
                if t
                then ([], record s { sessions = put_session o s.sessions })
                else emit cfg o (record s { sessions = remove_session e.session s.sessions })))
      by_test true = put_session-Held o s.sessions b h
      by_test false =
          rw (emit-sessions o (record s { sessions = remove_session e.session s.sessions }))
            (remove_session-Held e.session s.sessions h)

-- A line that is fed keeps every open session within `max_events` events, if they all were before
-- it, whichever session it belongs to and however the line decodes. `max_events` is positive.
pub feed-Held :
    (cfg : Assembler) (line : Text) (now : ℕ) (s : AssemblerState)
    → 1 ≤ cfg.max_events
    → Held cfg s.sessions
    → Held cfg (feed cfg line now s).1.sessions
unfolding feed
feed-Held cfg line now s h k = by_event (required (cfg.json_loads line))
  where
    by_event : (e : Option Event) → Held cfg (fed cfg e now s).1.sessions
    by_event none = k
    by_event (some e) =
        accumulated-Held cfg e
          (append_event cfg e (opened e now (find_session e.session s.sessions)) now) s
          (append_event-bounded cfg e (opened e now (find_session e.session s.sessions)) now h (
            opened-bounded cfg e now (find_session e.session s.sessions) (
              find_session-Held cfg e.session s.sessions k (find_session e.session s.sessions)
                refl)))
          k
