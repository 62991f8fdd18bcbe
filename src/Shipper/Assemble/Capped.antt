-- ===== src/Shipper/Assemble/Capped.antt =====
-- assemble.py: the cap that is applied on every event is the cap of the whole session.
use mathlib.Core.List.{append_assoc, append-nil}
use sentinel_brief.Prelude.{
  ℕ, ◌+◌, ◌-◌, ◌≤◌, ◌<◌, ◌≡◌, refl, sym, ap, ◌∙◌, zero, suc, Bool, true, false, ltb, ◌⊎◌, inl, inr,
  arith, List, [], ◌∷◌, ◌++◌, length, length-append, length-take, take, take-append, last_only,
  last_only-append, take-last_only, last_only_cases, del_second_last, del_second_last-append,
  length-del_second_last, length-last_only, if◌then◌else◌,
}
use sentinel_brief.Shipper.Assemble.{
  Assembler, Event, OpenSession, append_event, cap_events, new_session, total,
}

ltb-true : (a b : ℕ) → a < b → ltb a b ≡ true
ltb-true a b h = ground arith

ltb-false : (a b : ℕ) → b ≤ a → ltb a b ≡ false
ltb-false a b h = ground arith

-- Cap 1 as a function of the bound.
abbrev cap {ℓ} : {A : Type ℓ} → ℕ → List A → List A
cap n xs = if ltb n (length xs) then take (n - 1) xs ++ last_only xs else xs

-- One more element, and the second newest dropped past the bound.
abbrev push {ℓ} : {A : Type ℓ} → ℕ → List A → A → List A
push n xs x =
    if ltb n (length (xs ++ (x ∷ []))) then del_second_last (xs ++ (x ∷ [])) else xs ++ (x ∷ [])

sub-one : (m : ℕ) → suc m - 1 ≡ m
sub-one m = omega arith

short_or_long : (n k : ℕ) → (k < n) ⊎ (n ≤ k)
short_or_long n k = ground arith

module _ {ℓ} {A : Type ℓ} where
  length-snoc : (xs : List A) (x : A) → length (xs ++ (x ∷ [])) ≡ suc (length xs)
  length-snoc xs x = omega (arith, length-append xs (x ∷ []))

  cap-short : (n : ℕ) (xs : List A) → length xs ≤ n → cap n xs ≡ xs
  cap-short n xs h = rw (ltb-false n (length xs) h) refl

  length-cap : (n : ℕ) (xs : List A) → 1 ≤ n → length (cap n xs) ≤ n
  length-cap n xs h = by_test (ltb n (length xs)) refl
    where
      by_test :
          (b : Bool)
          → ltb n (length xs) ≡ b
          → length (if b then take (n - 1) xs ++ last_only xs else xs) ≤ n
      by_test true e = omega (
        arith,
        length-append (take (n - 1) xs) (last_only xs),
        length-take (n - 1) xs,
        length-last_only xs,
      )
      by_test false e = ground arith

  -- From the bound on, the cap is a prefix and the last element.
  cap-long : (m : ℕ) (xs : List A) → suc m ≤ length xs → cap (suc m) xs ≡ take m xs ++ last_only xs
  cap-long m xs h = by_test (ltb (suc m) (length xs)) refl
    where
      by_test :
          (b : Bool)
          → ltb (suc m) (length xs) ≡ b
          → (if b then take (suc m - 1) xs ++ last_only xs else xs) ≡ take m xs ++ last_only xs
      by_test true e = rw (sub-one m) refl
      by_test false e = sym (take-last_only m xs (ground arith))

  push-short : (n : ℕ) (xs : List A) (x : A) → length xs < n → push n xs x ≡ xs ++ (x ∷ [])
  push-short n xs x h = rw (length-snoc xs x, ltb-false n (suc (length xs)) h) refl

  push-long :
      (n : ℕ) (xs : List A) (y x : A)
      → n ≤ suc (length xs)
      → push n (xs ++ (y ∷ [])) x ≡ xs ++ (x ∷ [])
  push-long n xs y x h =
      rw
        (
          length-snoc (xs ++ (y ∷ [])) x,
          length-snoc xs y,
          ltb-true n (suc (suc (length xs))) (omega arith),
          append_assoc xs (y ∷ []) (x ∷ []),
        )
        (del_second_last-append xs y x)

  push-cap :
      (m : ℕ) (xs : List A) (x : A) → push (suc m) (cap (suc m) xs) x ≡ cap (suc m) (xs ++ (x ∷ []))
  push-cap m xs x = elim (short_or_long (suc m) (length xs)) [
    | inl h ↦
        rw (cap-short (suc m) xs (omega arith), push-short (suc m) xs x h)
          (sym (cap-short (suc m) (xs ++ (x ∷ [])) (omega (arith, length-snoc xs x))))
    | inr h ↦ long h (last_only_cases xs (omega arith))
  ]
    where
      long :
          suc m ≤ length xs
          → ((y : A) × (last_only xs ≡ y ∷ []))
          → push (suc m) (cap (suc m) xs) x ≡ cap (suc m) (xs ++ (x ∷ []))
      long h (y, e) =
          rw
            (
              cap-long m xs h,
              e,
              push-long (suc m) (take m xs) y x (omega (arith, length-take m xs)),
              cap-long m (xs ++ (x ∷ [])) (omega (arith, length-snoc xs x)),
              take-append m xs (x ∷ []) (omega arith),
              last_only-append xs x,
            )
            refl

-- A session that is fed events one by one, each with its time.
abbrev pub append_all : Assembler → List (Event × ℕ) → OpenSession → OpenSession
append_all cfg [] o = o
append_all cfg ((e, now) ∷ es) o = append_all cfg es (append_event cfg e o now)

abbrev pub events_of : List (Event × ℕ) → List Event
events_of [] = []
events_of ((e, now) ∷ es) = e ∷ events_of es

module _ (cfg : Assembler) where
  append_event-events :
      (e : Event) (o : OpenSession) (now : ℕ)
      → (append_event cfg e o now).events ≡ push cfg.max_events o.events e
  unfolding append_event
  append_event-events e o now = by_test (ltb cfg.max_events (length (o.events ++ (e ∷ []))))
    where
      by_test :
          (b : Bool)
          → (if b
              then record o {
                events = del_second_last (o.events ++ (e ∷ []));
                last_seen = now;
                dropped_events = o.dropped_events + 1;
              }
              else record o { events = o.events ++ (e ∷ []); last_seen = now }).events
            ≡ (if b then del_second_last (o.events ++ (e ∷ [])) else o.events ++ (e ∷ []))
      by_test true = refl
      by_test false = refl

  append_event-total :
      (e : Event) (o : OpenSession) (now : ℕ)
      → 1 ≤ cfg.max_events
      → total cfg (append_event cfg e o now) ≡ suc (total cfg o)
  unfolding append_event
  append_event-total e o now h = by_test (ltb cfg.max_events (length (o.events ++ (e ∷ [])))) refl
    where
      by_test :
          (b : Bool)
          → ltb cfg.max_events (length (o.events ++ (e ∷ []))) ≡ b
          → total cfg (
              if b
              then record o {
                events = del_second_last (o.events ++ (e ∷ []));
                last_seen = now;
                dropped_events = o.dropped_events + 1;
              }
              else record o { events = o.events ++ (e ∷ []); last_seen = now })
            ≡ suc (total cfg o)
      by_test true t = omega (
        arith,
        length-del_second_last (o.events ++ (e ∷ [])) (ground arith),
        length-snoc o.events e,
      )
      by_test false t = omega (arith, length-snoc o.events e)

  append_all-from :
      (m : ℕ) (ps : List Event) (es : List (Event × ℕ)) (o : OpenSession)
      → cfg.max_events ≡ suc m
      → o.events ≡ cap (suc m) ps
      → (append_all cfg es o).events ≡ cap (suc m) (ps ++ events_of es)
  append_all-from m ps [] o n e = rw (append-nil ps) e
  append_all-from m ps ((x, now) ∷ es) o n e =
      append_all-from m (ps ++ (x ∷ [])) es (append_event cfg x o now) n
        (append_event-events x o now ∙ one)
      ∙ ap (cap (suc m)) (append_assoc ps (x ∷ []) (events_of es))
    where
      one : push cfg.max_events o.events x ≡ cap (suc m) (ps ++ (x ∷ []))
      one = rw (n, e) (push-cap m ps x)

  append_all-total :
      (es : List (Event × ℕ)) (o : OpenSession)
      → 1 ≤ cfg.max_events
      → total cfg (append_all cfg es o) ≡ total cfg o + length es
  append_all-total [] o h = omega arith
  append_all-total ((x, now) ∷ es) o h =
      omega (arith, append_all-total es (append_event cfg x o now) h, append_event-total x o now h)

positive_suc : (n : ℕ) → 1 ≤ n → (m : ℕ) × (n ≡ suc m)
positive_suc zero h = absurd (omega arith)
positive_suc (suc m) h = (m, refl)

-- A session that was fed any events one by one, with the second newest dropped past the bound,
-- holds exactly what the cap keeps of all of them, the first `max_events - 1` and the newest; it
-- never holds more than the bound, and the events it holds and those it counted as dropped are
-- all that it was fed.
pub append_all-cap_events :
    (cfg : Assembler) (e : Event) (now : ℕ) (es : List (Event × ℕ))
    → 1 ≤ cfg.max_events
    → ((append_all cfg es (new_session e now)).events ≡ cap_events cfg (events_of es))
      × (length (append_all cfg es (new_session e now)).events ≤ cfg.max_events)
      × (total cfg (append_all cfg es (new_session e now)) ≡ length es)
unfolding cap_events
append_all-cap_events cfg e now es h =
    (same, bounded, omega (arith, append_all-total cfg es (new_session e now) h))
  where
    same : (append_all cfg es (new_session e now)).events ≡ cap cfg.max_events (events_of es)
    same =
        let (m, p) = positive_suc cfg.max_events h in
        append_all-from cfg m [] es (new_session e now) p (sym (cap-short (suc m) [] (omega arith)))
        ∙ ap (λ n. cap n (events_of es)) (sym p)

    bounded : length (append_all cfg es (new_session e now)).events ≤ cfg.max_events
    bounded = rw same (length-cap cfg.max_events (events_of es) h)

-- One more event on a session within the cap.
pub append_event-bounded :
    (cfg : Assembler) (e : Event) (o : OpenSession) (now : ℕ)
    → 1 ≤ cfg.max_events
    → length o.events ≤ cfg.max_events
    → length (append_event cfg e o now).events ≤ cfg.max_events
append_event-bounded cfg e o now h k =
    let (m, p) = positive_suc cfg.max_events h in
    rw
      (
        append_event-events cfg e o now,
        p,
        sym (cap-short (suc m) o.events (omega arith)),
        push-cap m o.events e,
      )
      (length-cap (suc m) (o.events ++ (e ∷ [])) (omega arith))
