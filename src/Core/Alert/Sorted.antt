-- ===== src/Core/Alert/Sorted.antt =====
-- core/schemas/alert.py: what the validator makes of the events.
use sentinel_brief.Prelude.{
  ℕ, ◌+◌, ◌≤◌, ◌≡◌, refl, sym, Bool, true, false, ◌==ₛ◌, eq_iff, leb, arith, none, some, List, [],
  ◌∷◌, All, if◌then◌else◌,
}
use sentinel_brief.Core.Alert.{
  CowrieEvent, SessionAlert, insert_event, sort_events, connect_event, model_validate, connect_time,
  connect_first,
}

-- In the order of time: each event is no later than any that follows.
abbrev pub InOrder : List CowrieEvent → Type 0
InOrder [] = Unit
InOrder (e ∷ es) = All (λ x. e.timestamp ≤ x.timestamp) es × InOrder es

-- How many of the events a test holds for.
abbrev pub tally : (CowrieEvent → ℕ) → List CowrieEvent → ℕ
tally f [] = 0
tally f (e ∷ es) = f e + tally f es

All-insert :
    (t : ℕ) (e : CowrieEvent) (es : List CowrieEvent)
    → t ≤ e.timestamp
    → All (λ x. t ≤ x.timestamp) es
    → All (λ x. t ≤ x.timestamp) (insert_event e es)
unfolding insert_event
All-insert t e [] h k = (h, tt)
All-insert t e (x ∷ xs) h k = by_test (leb e.timestamp x.timestamp) (All-insert t e xs h k.1)
  where
    by_test :
        (b : Bool)
        → All (λ y. t ≤ y.timestamp) (insert_event e xs)
        → All (λ y. t ≤ y.timestamp) (if b then e ∷ x ∷ xs else x ∷ insert_event e xs)
    by_test true r = (h, k)
    by_test false r = (k.0, r)

All-later :
    (s t : ℕ) (es : List CowrieEvent)
    → s ≤ t
    → All (λ x. t ≤ x.timestamp) es
    → All (λ x. s ≤ x.timestamp) es
All-later s t [] h k = tt
All-later s t (e ∷ es) h k = (omega arith, All-later s t es h k.1)

InOrder-insert :
    (e : CowrieEvent) (es : List CowrieEvent) → InOrder es → InOrder (insert_event e es)
unfolding insert_event
InOrder-insert e [] h = (tt, tt)
InOrder-insert e (x ∷ xs) h = by_test (leb e.timestamp x.timestamp) refl (InOrder-insert e xs h.1)
  where
    by_test :
        (b : Bool)
        → leb e.timestamp x.timestamp ≡ b
        → InOrder (insert_event e xs)
        → InOrder (if b then e ∷ x ∷ xs else x ∷ insert_event e xs)
    by_test true t r = ((ground arith, All-later e.timestamp x.timestamp xs (ground arith) h.0), h)
    by_test false t r = (All-insert x.timestamp e xs (ground arith) h.0, r)

sort_events-InOrder : (es : List CowrieEvent) → InOrder (sort_events es)
unfolding sort_events
sort_events-InOrder [] = tt
sort_events-InOrder (e ∷ es) = InOrder-insert e (sort_events es) (sort_events-InOrder es)

tally-insert :
    (f : CowrieEvent → ℕ) (e : CowrieEvent) (es : List CowrieEvent)
    → tally f (insert_event e es) ≡ f e + tally f es
unfolding insert_event
tally-insert f e [] = refl
tally-insert f e (x ∷ xs) = by_test (leb e.timestamp x.timestamp) (tally-insert f e xs)
  where
    by_test :
        (b : Bool)
        → tally f (insert_event e xs) ≡ f e + tally f xs
        → tally f (if b then e ∷ x ∷ xs else x ∷ insert_event e xs) ≡ f e + (f x + tally f xs)
    by_test true r = refl
    by_test false r = omega (arith, r)

tally-sort_events :
    (f : CowrieEvent → ℕ) (es : List CowrieEvent) → tally f (sort_events es) ≡ tally f es
unfolding sort_events
tally-sort_events f [] = refl
tally-sort_events f (e ∷ es) =
    omega (arith, tally-insert f e (sort_events es), tally-sort_events f es)

some_injective : {A : Type 0} {a b : A} → some a ≡ some b → a ≡ b
some_injective e = cc

-- The events are in the order of time and begin with a connect event, which is the earliest.
abbrev pub Begun : ℕ → List CowrieEvent → Type 0
Begun t [] = ⊥
Begun t (e ∷ es) =
    (e.eventid ≡ connect_event) × (t ≡ e.timestamp) × All (λ x. t ≤ x.timestamp) es × InOrder es

-- If the validator accepts an alert, its events are in the order of time and begin with a connect
-- event, whose time is the connect time and no later than any other; they are the events it was
-- given, since every tally of them is the same; and nothing else of the alert has changed.
pub model_validate_lem :
    (f : CowrieEvent → ℕ) (raw alert : SessionAlert)
    → model_validate raw ≡ some alert
    → Begun (connect_time alert) alert.events
      × (tally f alert.events ≡ tally f raw.events)
      × (alert ≡ record raw { events = alert.events })
unfolding model_validate connect_time
model_validate_lem f raw alert h =
    by_events (sort_events raw.events) (sort_events-InOrder raw.events)
      (tally-sort_events f raw.events) h
  where
    accepted :
        (e : CowrieEvent) (es : List CowrieEvent) (b : Bool)
        → (e.eventid ==ₛ connect_event) ≡ b
        → InOrder (e ∷ es)
        → tally f (e ∷ es) ≡ tally f raw.events
        → (if b then some (record raw { events = e ∷ es }) else none) ≡ some alert
        → Begun (connect_time alert) alert.events
          × (tally f alert.events ≡ tally f raw.events)
          × (alert ≡ record raw { events = alert.events })
    accepted e es true c o t k =
        rw (sym (some_injective k))
          ((((eq_iff e.eventid connect_event).0 c), refl, o.0, o.1), t, refl)
    accepted e es false c o t k = cc

    by_events :
        (es : List CowrieEvent)
        → InOrder es
        → tally f es ≡ tally f raw.events
        → connect_first raw es ≡ some alert
        → Begun (connect_time alert) alert.events
          × (tally f alert.events ≡ tally f raw.events)
          × (alert ≡ record raw { events = alert.events })
    by_events [] o t k = cc
    by_events (e ∷ es) o t k = accepted e es (e.eventid ==ₛ connect_event) refl o t k
