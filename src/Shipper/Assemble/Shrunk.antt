-- ===== src/Shipper/Assemble/Shrunk.antt =====
-- assemble.py: the loop of `build_payload` ends, and what it keeps.
use sentinel_brief.Prelude.{
  ℕ, ◌+◌, ◌-◌, ◌/◌, ◌≤◌, ◌<◌, ◌≡◌, refl, ◌∙◌, zero, suc, Bool, true, false, ltb, ◌&&◌, ◌⊎◌, inl,
  inr, arith, List, [], ◌∷◌, ◌++◌, min, length, length-append, length-take, take, last_only,
  last_only_cases, length-last_only, last_only-append, max, if◌then◌else◌,
}
use sentinel_brief.Shipper.Assemble.{
  Assembler, Event, OpenSession, halve, payload_of, shrink, cap_events, kept_events,
}

module _ {ℓ} {A : Type ℓ} where
  take_one-prefix :
      (m : ℕ) (xs ys : List A) → 1 ≤ m → 1 ≤ length xs → take 1 (take m xs ++ ys) ≡ take 1 xs
  take_one-prefix zero xs ys h k = absurd (omega arith)
  take_one-prefix (suc m) [] ys h k = absurd (omega arith)
  take_one-prefix (suc m) (x ∷ xs) ys h k = refl

  -- The last element of a list that ends with the last element of another.
  last_only-last_only :
      (ys xs : List A) → 1 ≤ length xs → last_only (ys ++ last_only xs) ≡ last_only xs
  last_only-last_only ys xs h = let (x, e) = last_only_cases xs h in rw e (last_only-append ys x)

  length_one-last_only : (xs : List A) → 1 ≤ length xs → length (last_only xs) ≡ 1
  length_one-last_only xs h = let (x, e) = last_only_cases xs h in rw e refl

-- What is kept of a list: its first and its last, and no more than there were.
abbrev pub KeptEnds : List Event → List Event → Type 0
KeptEnds events r =
    (take 1 r ≡ take 1 events) × (last_only r ≡ last_only events) × (length r ≤ length events)

halve-shorter : (events : List Event) → 2 < length events → length (halve events) < length events
unfolding halve
halve-shorter events h = omega (
  arith,
  length-append (take (max 2 (length events / 2) - 1) events) (last_only events),
  length-take (max 2 (length events / 2) - 1) events,
  length-last_only events,
)

halve-KeptEnds : (events : List Event) → 2 < length events → KeptEnds events (halve events)
unfolding halve
halve-KeptEnds events h = (
  take_one-prefix (max 2 (length events / 2) - 1) events (last_only events) (omega arith)
      (omega arith),
  last_only-last_only (take (max 2 (length events / 2) - 1) events) events (omega arith),
  omega (arith, halve-shorter events h),
)

module _ (cfg : Assembler) (o : OpenSession) where
  -- The bytes fit, or the floor of two events is reached.
  abbrev pub Fits : List Event → Type 0
  Fits r = (length (payload_of cfg o r) ≤ cfg.max_payload_bytes) ⊎ (length r ≤ 2)

  shrink_lem :
      (fuel : ℕ) (events : List Event)
      → length events ≤ fuel + 2
      → KeptEnds events (shrink cfg fuel o events) × Fits (shrink cfg fuel o events)
  unfolding shrink
  shrink_lem zero events h = ((refl, refl, omega arith), inr (omega arith))
  shrink_lem (suc fuel) events h =
      by_test (ltb cfg.max_payload_bytes (length (payload_of cfg o events))) (ltb 2 (length events))
        refl refl (λ k. shrink_lem fuel (halve events) (omega (arith, halve-shorter events k)))
    where
      rest : List Event
      rest = shrink cfg fuel o (halve events)

      by_test :
          (a b : Bool)
          → ltb cfg.max_payload_bytes (length (payload_of cfg o events)) ≡ a
          → ltb 2 (length events) ≡ b
          → (2 < length events → KeptEnds (halve events) rest × Fits rest)
          → KeptEnds events (if a && b then rest else events)
            × Fits (if a && b then rest else events)
      by_test true true ea eb next =
          let big : 2 < length events = ground arith in
          let (kept, fits) = next big in
          let ends = halve-KeptEnds events big in
          ((kept.0 ∙ ends.0, kept.1 ∙ ends.1, omega (arith, kept.2, ends.2)), fits)
      by_test false b ea eb next = ((refl, refl, omega arith), inl (ground arith))
      by_test true false ea eb next = ((refl, refl, omega arith), inr (ground arith))

  cap_events-KeptEnds :
      (events : List Event)
      → 1 ≤ length events
      → 2 ≤ cfg.max_events
      → KeptEnds events (cap_events cfg events) × (length (cap_events cfg events) ≤ cfg.max_events)
  unfolding cap_events
  cap_events-KeptEnds events h k = by_test (ltb cfg.max_events (length events)) refl
    where
      capped : List Event
      capped = take (cfg.max_events - 1) events ++ last_only events

      capped-length : length capped ≡ min (cfg.max_events - 1) (length events) + 1
      capped-length = omega (
        arith,
        length-append (take (cfg.max_events - 1) events) (last_only events),
        length-take (cfg.max_events - 1) events,
        length_one-last_only events h,
      )

      by_test :
          (b : Bool)
          → ltb cfg.max_events (length events) ≡ b
          → KeptEnds events (if b then capped else events)
            × (length (if b then capped else events) ≤ cfg.max_events)
      by_test true e = (
        (
          take_one-prefix (cfg.max_events - 1) events (last_only events) (omega arith) h,
          last_only-last_only (take (cfg.max_events - 1) events) events h,
          ground (arith, capped-length),
        ),
        omega (arith, capped-length),
      )
      by_test false e = ((refl, refl, omega arith), ground arith)

-- The loop of `build_payload` always ends: of a session with an event it keeps the first and the
-- last, at most `max_events` in all, and either the payload, the key "shipper" counted, is within
-- the limit of bytes, or no more than two events are left. `max_events` is at least 2.
pub kept_events_lem :
    (cfg : Assembler) (o : OpenSession)
    → 1 ≤ length o.events
    → 2 ≤ cfg.max_events
    → KeptEnds o.events (kept_events cfg o)
      × (length (kept_events cfg o) ≤ cfg.max_events)
      × Fits cfg o (kept_events cfg o)
kept_events_lem cfg o h k =
    let (ends, bounded) = cap_events-KeptEnds cfg o o.events h k in
    let (kept, fits) =
      shrink_lem cfg o (length o.events) (cap_events cfg o.events) (omega (arith, ends.2)) in
    (
      (kept.0 ∙ ends.0, kept.1 ∙ ends.1, omega (arith, kept.2, ends.2)),
      omega (arith, kept.2, bounded),
      fits,
    )
