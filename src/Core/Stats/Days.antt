-- ===== src/Core/Stats/Days.antt =====
-- The days stand in order, and each day of an alert is among them just once.
use sentinel_brief.Prelude.{
  arith, ℕ, suc, ◌≤◌, ◌<◌, ◌≡◌, refl, ap, ◌∙◌, true, false, ◌==◌, ltb, List, [], ◌∷◌, All, All-map,
  sym, ==_iff, Bool-cases, inl, inr,
}
use sentinel_brief.Core.Database.{AlertRow}
use sentinel_brief.Core.Reads.{Columns}
use sentinel_brief.Core.Stats.{insert_day, days, day_of}
use sentinel_brief.Core.Stats.Grouped.{occurrences}

-- Strictly increasing from a bound on.
abbrev pub Increasing : ℕ → List ℕ → Type 0
Increasing low [] = Unit
Increasing low (x ∷ xs) = (low ≤ x) × Increasing (suc x) xs

insert_day-Increasing :
    (low d : ℕ) (xs : List ℕ) → low ≤ d → Increasing low xs → Increasing low (insert_day d xs)
unfolding insert_day
insert_day-Increasing low d [] b h = (b, tt)
insert_day-Increasing low d (x ∷ xs) b h = elim (Bool-cases (ltb d x)) [
  | inl e ↦ let lt : suc d ≤ x = ground arith in rw e (b, (lt, h.1))
  | inr e ↦ elim (Bool-cases (d == x)) [
    | inl s ↦ rw (e, s) h
    | inr s ↦
        let lt : suc x ≤ d = ground arith in
        rw (e, s) (h.0, insert_day-Increasing (suc x) d xs lt h.1)
  ]
]

occurrences-below : (x low : ℕ) (xs : List ℕ) → x < low → Increasing low xs → occurrences x xs ≡ 0
unfolding occurrences
occurrences-below x low [] b h = refl
occurrences-below x low (d ∷ ds) b h =
    let differs : (x == d) ≡ false = ground (arith, h.0) in
    rw differs (occurrences-below x (suc d) ds (omega (arith, h.0)) h.1)

occurrences-here : (x d : ℕ) (ds : List ℕ) → x ≡ d → occurrences x (d ∷ ds) ≡ suc (occurrences x ds)
unfolding occurrences
occurrences-here x d ds h = let e : (x == d) ≡ true = ground arith in rw e refl

occurrences-there :
    (x d : ℕ) (ds : List ℕ) → (x == d) ≡ false → occurrences x (d ∷ ds) ≡ occurrences x ds
unfolding occurrences
occurrences-there x d ds e = rw e refl

-- What the insertion of a day does to how often a day is there.
inserted-same : (low d : ℕ) (xs : List ℕ) → Increasing low xs → occurrences d (insert_day d xs) ≡ 1
unfolding insert_day occurrences
inserted-same low d [] h = occurrences-here d d [] refl
inserted-same low d (y ∷ ys) h = elim (Bool-cases (ltb d y)) [
  | inl e ↦
      let lt : d < y = ground arith in
      rw e (
        occurrences-here d d (y ∷ ys) refl
        ∙ ap suc (occurrences-below d y (y ∷ ys) lt (omega arith, h.1)))
  | inr e ↦ elim (Bool-cases (d == y)) [
    | inl s ↦
        let same : d ≡ y = ground arith in
        rw (e, s)
          (occurrences-here d y ys same
            ∙ ap suc (occurrences-below d (suc y) ys (omega (arith, same)) h.1))
    | inr s ↦ rw (e, s) (occurrences-there d y (insert_day d ys) s ∙ inserted-same (suc y) d ys h.1)
  ]
]

inserted-other :
    (d x : ℕ) (xs : List ℕ) → (x == d) ≡ false → occurrences x (insert_day d xs) ≡ occurrences x xs
unfolding insert_day
inserted-other d x [] n = occurrences-there x d [] n
inserted-other d x (y ∷ ys) n = elim (Bool-cases (ltb d y)) [
  | inl e ↦ rw e (occurrences-there x d (y ∷ ys) n)
  | inr e ↦ elim (Bool-cases (d == y)) [
    | inl s ↦ rw (e, s) refl
    | inr s ↦
        rw (e, s)
          (elim (Bool-cases (x == y)) [
            | inl t ↦
                let same : x ≡ y = ground arith in
                occurrences-here x y (insert_day d ys) same
                ∙ ap suc (inserted-other d x ys n)
                ∙ sym (occurrences-here x y ys same)
            | inr t ↦
                occurrences-there x y (insert_day d ys) t
                ∙ inserted-other d x ys n
                ∙ sym (occurrences-there x y ys t)
          ])
  ]
]

module _ (columns : Columns) where
  days-Increasing : (rs : List AlertRow) → Increasing 0 (days columns rs)
  unfolding days
  days-Increasing [] = tt
  days-Increasing (r ∷ rs) =
      insert_day-Increasing 0 (day_of columns r) (days columns rs) (omega arith)
        (days-Increasing rs)

  pub days-once :
      (rs : List AlertRow) → All (λ r. occurrences (day_of columns r) (days columns rs) ≡ 1) rs
  unfolding days
  days-once [] = tt
  days-once (r ∷ rs) = (
    inserted-same 0 (day_of columns r) (days columns rs) (days-Increasing rs),
    All-map rs (λ x once. kept x once) (days-once rs),
  )
    where
      kept :
          (x : AlertRow)
          → occurrences (day_of columns x) (days columns rs) ≡ 1
          → occurrences (day_of columns x) (insert_day (day_of columns r) (days columns rs)) ≡ 1
      kept x once = elim (Bool-cases (day_of columns x == day_of columns r)) [
        | inl e ↦
            let same : day_of columns x ≡ day_of columns r = (==_iff _ _).0 e in
            ap (λ d. occurrences d (insert_day (day_of columns r) (days columns rs))) same
            ∙ inserted-same 0 (day_of columns r) (days columns rs) (days-Increasing rs)
        | inr e ↦ inserted-other (day_of columns r) (day_of columns x) (days columns rs) e ∙ once
      ]
