-- ===== src/Evals/Sample/Full.antt =====
-- The sample is as large as asked, or has everything.
use sentinel_brief.Prelude.{
  arith, ℕ, ◌+◌, ◌-◌, ◌≤◌, ◌≡◌, ◌⊎◌, refl, ap, sym, ◌∙◌, inl, inr, String, Bool, true, false, ◌==ₛ◌,
  eq_iff, List, [], ◌∷◌, length, All, ℕ-cases, Bool-cases,
}
use sentinel_brief.Evals.Sample.{
  Candidate, Row, Rng, eligible, remainder, is_selected, group_all, Filling, left_over, fill_rounds,
  shuffle_groups, filled, sample_from, sample,
}
use sentinel_brief.Evals.Sample.Clamped.{RngLaws, Distinct, Chosen, count_id}
use sentinel_brief.Evals.Sample.Counted.{
  one-true, one-false, one_self, count_groups-group_all, count_lists-shuffle_groups, count_lists,
  fill_rounds-Moves, count_lists-empty,
}
use sentinel_brief.Evals.Sample.Ended.{fill_rounds-Ended}
use sentinel_brief.Evals.Sample.Whole.{
  Admits, eligible-Pass, sample-Chosen, drawn_first, drawn_first-Chosen,
}

is_selected-true :
    (c : Candidate) (xs : List Candidate) → 1 ≤ count_id c.case_id xs → is_selected c xs ≡ true
unfolding is_selected
is_selected-true c [] h = absurd (omega (arith, h))
is_selected-true c (y ∷ ys) h = elim (Bool-cases (y.case_id ==ₛ c.case_id)) [
  | inl e ↦ rw e refl
  | inr e ↦ rw e (is_selected-true c ys (omega (arith, h, one-false c.case_id y e)))
]

is_selected-false :
    (c : Candidate) (xs : List Candidate) → count_id c.case_id xs ≡ 0 → is_selected c xs ≡ false
unfolding is_selected
is_selected-false c [] h = refl
is_selected-false c (y ∷ ys) h = elim (Bool-cases (y.case_id ==ₛ c.case_id)) [
  | inl e ↦ absurd (omega (arith, h, one-true c.case_id y e))
  | inr e ↦ rw e (is_selected-false c ys (omega (arith, h)))
]

count_id-other :
    (x : String) (xs : List Candidate) → All (λ y. (y.case_id ==ₛ x) ≡ false) xs → count_id x xs ≡ 0
count_id-other x [] h = refl
count_id-other x (y ∷ ys) h = omega (arith, one-false x y h.0, count_id-other x ys h.1)

Distinct-count_id : (x : String) (xs : List Candidate) → Distinct xs → count_id x xs ≤ 1
Distinct-count_id x [] h = omega arith
Distinct-count_id x (y ∷ ys) h = elim (Bool-cases (y.case_id ==ₛ x)) [
  | inl e ↦
      let same : y.case_id ≡ x = (eq_iff y.case_id x).0 e in
      let none_later : count_id x ys ≡ 0 =
        ap (λ k. count_id k ys) (sym same) ∙ count_id-other y.case_id ys h.0 in
      omega (arith, one-true x y e, none_later)
  | inr e ↦ omega (arith, one-false x y e, Distinct-count_id x ys h.1)
]

-- What is not selected is in the remainder, as often as in the pool; what is, is not.
remainder-absent :
    (selected : List Candidate) (x : String) (cs : List Candidate)
    → count_id x selected ≡ 0
    → count_id x (remainder selected cs) ≡ count_id x cs
unfolding remainder
remainder-absent selected x [] h = refl
remainder-absent selected x (c ∷ cs) h = elim (Bool-cases (c.case_id ==ₛ x)) [
  | inl e ↦
      let same : c.case_id ≡ x = (eq_iff c.case_id x).0 e in
      let out = is_selected-false c selected (ap (λ k. count_id k selected) same ∙ h) in
      rw out (omega (arith, remainder-absent selected x cs h))
  | inr e ↦ elim (Bool-cases (is_selected c selected)) [
    | inl s ↦ rw s (omega (arith, one-false x c e, remainder-absent selected x cs h))
    | inr s ↦ rw s (omega (arith, remainder-absent selected x cs h))
  ]
]

remainder-present :
    (selected : List Candidate) (x : String) (cs : List Candidate)
    → 1 ≤ count_id x selected
    → count_id x (remainder selected cs) ≡ 0
unfolding remainder
remainder-present selected x [] h = refl
remainder-present selected x (c ∷ cs) h = elim (Bool-cases (c.case_id ==ₛ x)) [
  | inl e ↦
      let same : c.case_id ≡ x = (eq_iff c.case_id x).0 e in
      let here : 1 ≤ count_id c.case_id selected =
        omega (arith, h, ap (λ k. count_id k selected) same) in
      rw (is_selected-true c selected here) (remainder-present selected x cs h)
  | inr e ↦ elim (Bool-cases (is_selected c selected)) [
    | inl s ↦ rw s (remainder-present selected x cs h)
    | inr s ↦ rw s (omega (arith, one-false x c e, remainder-present selected x cs h))
  ]
]

-- Together they have each id of the pool, and no id twice.
remainder-once :
    (selected pool : List Candidate) (x : String)
    → Distinct selected
    → Distinct pool
    → (count_id x selected + count_id x (remainder selected pool) ≤ 1)
      × (count_id x pool ≤ count_id x selected + count_id x (remainder selected pool))
remainder-once selected pool x ds dp =
    let s = Distinct-count_id x selected ds in
    let t = Distinct-count_id x pool dp in
    elim (ℕ-cases (count_id x selected)) [
      | inl z ↦
          let out = remainder-absent selected x pool z in
          (omega (arith, z, out, t), omega (arith, z, out))
      | inr (k, z) ↦
          let out = remainder-present selected x pool (omega (arith, z)) in
          (omega (arith, s, out), omega (arith, z, out, t))
    ]

-- A pool whose ids are all chosen.
abbrev pub AllSelected : List Candidate → List Candidate → Type 0
AllSelected pool xs = All (λ c. is_selected c xs ≡ true) pool

all_selected :
    (xs pool : List Candidate)
    → ((x : String) → count_id x pool ≤ count_id x xs)
    → AllSelected pool xs
all_selected xs [] h = tt
all_selected xs (c ∷ cs) h = (
  is_selected-true c xs (omega (arith, h c.case_id, one_self c)),
  all_selected xs cs (λ x. omega (arith, h x)),
)

module _ {R : Type 0} (rng : Rng R) (laws : RngLaws rng) (str_lt : String → String → Bool) where
  filled-Full :
      (n : ℕ) (pool selected : List Candidate) (r : R)
      → Distinct pool
      → Distinct selected
      → length selected ≤ n
      → (length (filled rng str_lt n pool (selected, r)) ≡ n)
        ⊎ AllSelected pool (filled rng str_lt n pool (selected, r))
  filled-Full n pool selected r dp ds room =
      let rest = remainder selected pool in
      let groups = group_all str_lt rest [] in
      let gs = shuffle_groups rng str_lt groups r in
      let f : Filling = record { budget = n - length selected; selected = selected } in
      let (gs', f') = fill_rounds (left_over gs) gs f in
      let same : (x : String) → count_lists x gs ≡ count_id x rest = λ x. omega (
        arith,
        count_lists-shuffle_groups rng laws str_lt x groups r,
        count_groups-group_all str_lt x rest [],
      ) in
      let once = λ (x : String). remainder-once selected pool x ds dp in
      let moves = fill_rounds-Moves (left_over gs) gs f (λ x. omega (arith, same x, (once x).0)) in
      elim (fill_rounds-Ended (left_over gs) gs f (omega arith)) [
        | inl z ↦ inl (omega (arith, moves.size, z, room))
        | inr z ↦ inr (
            all_selected f'.selected pool
              (λ x. omega (arith, moves.total x, same x, (once x).1, count_lists-empty x gs' z)))
      ]

  -- Whatever is drawn from rows whose fingerprints differ, the sample has at most `n` candidates,
  -- and has `n` of them or the id of every row that is not excluded. No two candidates have one
  -- id, and each is made from a row that is not excluded: it passes every test that the candidates
  -- of those rows pass.
  pub sample-Full :
      (p : Candidate → Bool) (n : ℕ) (exclude : List String) (rows : List Row) (r : R)
      → Admits p exclude rows
      → Distinct (eligible exclude rows)
      → let chosen = sample rng str_lt n exclude rows r in
        Chosen p chosen
        × (length chosen ≤ n)
        × ((length chosen ≡ n) ⊎ AllSelected (eligible exclude rows) chosen)
  unfolding sample sample_from
  sample-Full p n exclude rows r h d =
      let pool = eligible exclude rows in
      let passed = eligible-Pass p exclude rows h in
      let first = drawn_first-Chosen rng laws str_lt p n pool r passed in
      let (selected, r') = drawn_first rng laws str_lt p n pool r in
      let whole = sample-Chosen rng laws str_lt p n exclude rows r h in
      (whole.0, whole.1, filled-Full n pool selected r' d first.0.distinct first.1)
