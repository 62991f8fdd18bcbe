-- ===== src/Evals/Sample/Whole.antt =====
-- The sample as a whole.
use sentinel_brief.Prelude.{
  arith, ℕ, ◌-◌, ◌/◌, ◌≤◌, ◌≡◌, inl, inr, min, max, String, Bool, true, false, leb, ltb, List, [],
  ◌∷◌, length, All, Bool-cases,
}
use sentinel_brief.Evals.Sample.{
  Candidate, Row, Rng, eligible, candidate_of, excluded, bucket, strata_categories, remainder,
  group_all, Filling, left_over, draw, draw_stratum, draw_categories, clamp, shuffle_groups, filled,
  sample_from, sample,
}
use sentinel_brief.Evals.Sample.Clamped.{
  RngLaws, Pass, Chosen, put_all-Chosen, bucket-Pass, remainder-Pass,
}
use sentinel_brief.Evals.Sample.Filled.{Room, group_all-Pass, shuffle_groups-Pass, fill_rounds-Room}

-- A row that may be sampled gives a candidate that passes.
abbrev pub Admits : (Candidate → Bool) → List String → List Row → Type 0
Admits p exclude = All (λ r. excluded r.fingerprint exclude ≡ false → p (candidate_of r) ≡ true)

pub eligible-Pass :
    (p : Candidate → Bool) (exclude : List String) (rows : List Row)
    → Admits p exclude rows
    → Pass p (eligible exclude rows)
unfolding eligible
eligible-Pass p exclude [] h = tt
eligible-Pass p exclude (r ∷ rs) h = elim (Bool-cases (excluded r.fingerprint exclude)) [
  | inl e ↦ rw e (eligible-Pass p exclude rs h.1)
  | inr e ↦ rw e (h.0 e, eligible-Pass p exclude rs h.1)
]

leb-≤ : (a b : ℕ) → leb a b ≡ true → a ≤ b
leb-≤ a b e = ground arith

leb-> : (a b : ℕ) → leb a b ≡ false → b ≤ a
leb-> a b e = ground arith

ltb-≤ : (a b : ℕ) → ltb a b ≡ false → b ≤ a
ltb-≤ a b e = ground arith

module _ {R : Type 0} (rng : Rng R) (laws : RngLaws rng) (str_lt : String → String → Bool)
    (p : Candidate → Bool) where
  draw-Pass :
      (cs : List Candidate) (k : ℕ) (r : R)
      → Pass p cs
      → Pass p (draw rng str_lt cs k r).0 × (length (draw rng str_lt cs k r).0 ≤ k)
  unfolding draw
  draw-Pass cs k r h = elim (Bool-cases (leb (length cs) k)) [
    | inl e ↦ rw e (h, leb-≤ (length cs) k e)
    | inr e ↦ rw e (
      laws.sample-All p cs k r h,
      omega (arith, laws.length-sample cs k r (leb-> (length cs) k e)),
    )
  ]

  draw_stratum-Chosen :
      (cs : List Candidate) (target : ℕ) (s : List Candidate × R)
      → Pass p cs
      → Chosen p s.0
      → Chosen p (draw_stratum rng str_lt cs target s).0
  unfolding draw_stratum
  draw_stratum-Chosen cs target (selected, r) h k =
      let k' = min target (length cs) in
      (put_all-Chosen p (draw rng str_lt cs k' r).0 selected (draw-Pass cs k' r h).0 k).0

  draw_categories-Chosen :
      (strata : List String) (n : ℕ) (pool : List Candidate) (s : List Candidate × R)
      → Pass p pool
      → Chosen p s.0
      → Chosen p (draw_categories rng str_lt strata n pool s).0
  unfolding draw_categories
  draw_categories-Chosen [] n pool s h k = k
  draw_categories-Chosen (c ∷ cs) n pool s h k =
      draw_categories-Chosen cs n pool (draw_stratum rng str_lt (bucket c pool) (max 5 (n / 8)) s) h
        (draw_stratum-Chosen (bucket c pool) (max 5 (n / 8)) s (bucket-Pass p c pool h) k)

  clamp-Chosen :
      (n : ℕ) (s : List Candidate × R)
      → Chosen p s.0
      → Chosen p (clamp rng str_lt n s).0 × (length (clamp rng str_lt n s).0 ≤ n)
  unfolding clamp
  clamp-Chosen n (selected, r) k = elim (Bool-cases (ltb n (length selected))) [
    | inl e ↦
        let drawn = draw-Pass selected n r k.pass in
        let all =
          put_all-Chosen p (draw rng str_lt selected n r).0 [] drawn.0
            (record { distinct = tt; pass = tt }) in
        rw e (all.0, omega (arith, all.1, drawn.1))
    | inr e ↦ rw e (k, ltb-≤ n (length selected) e)
  ]

  filled-Chosen :
      (n : ℕ) (pool : List Candidate) (s : List Candidate × R)
      → Pass p pool
      → Chosen p s.0
      → length s.0 ≤ n
      → Chosen p (filled rng str_lt n pool s) × (length (filled rng str_lt n pool s) ≤ n)
  filled-Chosen n pool (selected, r) h k room =
      let groups = group_all str_lt (remainder selected pool) [] in
      let passed =
        group_all-Pass p str_lt (remainder selected pool) [] (remainder-Pass p selected pool h)
          tt in
      let gs = shuffle_groups rng str_lt groups r in
      let f : Filling = record { budget = n - length selected; selected = selected } in
      let start : Room p n f = record { chosen = k; room = omega (arith, room) } in
      let done =
        fill_rounds-Room p n (left_over gs) gs f
          (shuffle_groups-Pass rng laws str_lt p groups r passed) start in
      (done.chosen, omega (arith, done.room))

  -- What is chosen before the remainder is filled.
  abbrev pub drawn_first : ℕ → List Candidate → R → List Candidate × R
  drawn_first n pool r = clamp rng str_lt n (
      draw_stratum rng str_lt (bucket "injection-candidate" pool) (n / 4)
        (draw_categories rng str_lt strata_categories n pool ([], r)))

  pub drawn_first-Chosen :
      (n : ℕ) (pool : List Candidate) (r : R)
      → Pass p pool
      → Chosen p (drawn_first n pool r).0 × (length (drawn_first n pool r).0 ≤ n)
  drawn_first-Chosen n pool r passed =
      let drawn = draw_categories rng str_lt strata_categories n pool ([], r) in
      clamp-Chosen n (draw_stratum rng str_lt (bucket "injection-candidate" pool) (n / 4) drawn) (
        draw_stratum-Chosen (bucket "injection-candidate" pool) (n / 4) drawn
          (bucket-Pass p "injection-candidate" pool passed)
          (draw_categories-Chosen strata_categories n pool ([], r) passed
            (record { distinct = tt; pass = tt })))

  pub sample-Chosen :
      (n : ℕ) (exclude : List String) (rows : List Row) (r : R)
      → Admits p exclude rows
      → Chosen p (sample rng str_lt n exclude rows r)
        × (length (sample rng str_lt n exclude rows r) ≤ n)
  unfolding sample sample_from
  sample-Chosen n exclude rows r h =
      let pool = eligible exclude rows in
      let passed = eligible-Pass p exclude rows h in
      let first = drawn_first-Chosen n pool r passed in
      filled-Chosen n pool (drawn_first n pool r) passed first.0 first.1
