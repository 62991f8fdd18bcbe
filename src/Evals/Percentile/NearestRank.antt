-- ===== src/Evals/Percentile/NearestRank.antt =====
-- What the nearest-rank percentile promises.
use mathlib.Core.Path.{subst}
use sentinel_brief.Prelude.{
  arith, ℕ, zero, suc, ◌+◌, ◌-◌, ◌*◌, ◌/◌, ◌≤◌, ◌<◌, ◌≡◌, refl, leb, ltb, some, List, [], ◌∷◌,
  length, All, All-map, Bool-cases, inl, inr, if◌then◌else◌,
}
use sentinel_brief.Evals.Percentile.{
  Percent, percent, insert_value, sort_values, rank, get_elem?, at_rank, percentile,
}

-- How many of the values are at most `v`, and how many are below it.
unfoldable pub count_le : ℕ → List ℕ → ℕ
count_le v [] = 0
count_le v (x ∷ xs) = if leb x v then count_le v xs + 1 else count_le v xs

unfoldable pub count_lt : ℕ → List ℕ → ℕ
count_lt v [] = 0
count_lt v (x ∷ xs) = if ltb x v then count_lt v xs + 1 else count_lt v xs

-- Each value is at most every later one.
abbrev Ascending : List ℕ → Type 0
Ascending [] = Unit
Ascending (x ∷ xs) = All (λ y. x ≤ y) xs × Ascending xs

insert_value-All :
    (a v : ℕ) (xs : List ℕ) → a ≤ v → All (λ y. a ≤ y) xs → All (λ y. a ≤ y) (insert_value v xs)
unfolding insert_value
insert_value-All a v [] h k = (h, tt)
insert_value-All a v (x ∷ xs) h k = elim (Bool-cases (leb v x)) [
  | inl e ↦ rw e (h, k)
  | inr e ↦ rw e (k.0, insert_value-All a v xs h k.1)
]

insert_value-Ascending : (v : ℕ) (xs : List ℕ) → Ascending xs → Ascending (insert_value v xs)
unfolding insert_value
insert_value-Ascending v [] h = (tt, tt)
insert_value-Ascending v (x ∷ xs) h = elim (Bool-cases (leb v x)) [
  | inl e ↦ rw e ((ground arith, All-map xs (λ y (k : x ≤ y). ground arith) h.0), h)
  | inr e ↦ rw e (insert_value-All x v xs (ground arith) h.0, insert_value-Ascending v xs h.1)
]

sort_values-Ascending : (xs : List ℕ) → Ascending (sort_values xs)
unfolding sort_values
sort_values-Ascending [] = tt
sort_values-Ascending (x ∷ xs) =
    insert_value-Ascending x (sort_values xs) (sort_values-Ascending xs)

-- Counts and the length are the same after the insertion, and after the sort.
insert_value_counts :
    (a v : ℕ) (xs : List ℕ)
    → (count_le a (insert_value v xs) ≡ count_le a (v ∷ xs))
      × (count_lt a (insert_value v xs) ≡ count_lt a (v ∷ xs))
      × (length (insert_value v xs) ≡ suc (length xs))
unfolding insert_value count_le count_lt
insert_value_counts a v [] = (refl, refl, refl)
insert_value_counts a v (x ∷ xs) = (
  ground (arith, insert_value_counts a v xs),
  ground (arith, insert_value_counts a v xs),
  ground (arith, insert_value_counts a v xs),
)

pub sort_values_counts :
    (a : ℕ) (xs : List ℕ)
    → (count_le a (sort_values xs) ≡ count_le a xs)
      × (count_lt a (sort_values xs) ≡ count_lt a xs)
      × (length (sort_values xs) ≡ length xs)
unfolding sort_values count_le count_lt
sort_values_counts a [] = (refl, refl, refl)
sort_values_counts a (x ∷ xs) =
    let i = insert_value_counts a x (sort_values xs) in
    let s = sort_values_counts a xs in (ground arith, ground arith, ground arith)

get_elem?-All : (P : ℕ → Type 0) (xs : List ℕ) (i v : ℕ) → All P xs → get_elem? xs i ≡ some v → P v
get_elem?-All P [] i v h e = cc
get_elem?-All P (x ∷ xs) zero v h e = subst P (cc) h.0
get_elem?-All P (x ∷ xs) (suc i) v h e = get_elem?-All P xs i v h.1 e

count_lt-above : (v : ℕ) (xs : List ℕ) → All (λ y. v ≤ y) xs → count_lt v xs ≡ 0
unfolding count_lt
count_lt-above v [] h = refl
count_lt-above v (x ∷ xs) h = ground (arith, count_lt-above v xs h.1)

-- In ascending order, more than `i` values are at most the one at place `i`, and at most `i` are
-- below it.
get_elem?-counts :
    (xs : List ℕ) (i v : ℕ)
    → Ascending xs
    → get_elem? xs i ≡ some v
    → (i < count_le v xs) × (count_lt v xs ≤ i)
unfolding count_le count_lt
get_elem?-counts [] i v h e = cc
get_elem?-counts (x ∷ xs) zero v h e =
    let low : All (λ y. v ≤ y) xs = subst (λ w. All (λ y. w ≤ y) xs) (cc) h.0 in
    (ground arith, ground (arith, count_lt-above v xs low))
get_elem?-counts (x ∷ xs) (suc i) v h e =
    let rest = get_elem?-counts xs i v h.1 e in
    let below = get_elem?-All (λ y. x ≤ y) xs i v h.0 e in (ground arith, ground arith)

get_elem?-total : (xs : List ℕ) (i : ℕ) → i < length xs → (v : ℕ) × (get_elem? xs i ≡ some v)
get_elem?-total [] i h = absurd (omega arith)
get_elem?-total (x ∷ xs) zero h = (x, refl)
get_elem?-total (x ∷ xs) (suc i) h = get_elem?-total xs i (omega arith)

-- The rank of a percentage is a place in the list, and rounds up.
pub rank_lem :
    (n : ℕ) (p : Percent)
    → 1 ≤ n
    → (i : ℕ) × (rank n p ≡ suc i)
      × (i < n)
      × (percent p * n ≤ 100 * suc i)
      × (100 * i < percent p * n)
unfolding rank
rank_lem n Percent.p50 hn =
    ((50 * n + 99) / 100 - 1, omega arith, omega arith, omega arith, omega arith)
rank_lem n Percent.p95 hn =
    ((95 * n + 99) / 100 - 1, omega arith, omega arith, omega arith, omega arith)

abbrev pub IsNearestRank : ℕ → ℕ → List ℕ → Type 0
IsNearestRank v p values =
    (p * length values ≤ 100 * count_le v values) × (100 * count_lt v values < p * length values)

pub at_rank-suc :
    (r i v : ℕ) (xs : List ℕ) → r ≡ suc i → get_elem? xs i ≡ some v → at_rank r xs ≡ some v
unfolding at_rank
at_rank-suc r i v xs e g = rw e g

at_rank-IsNearestRank :
    (values : List ℕ) (p : Percent)
    → 1 ≤ length values
    → (v : ℕ) × (at_rank (rank (length (sort_values values)) p) (sort_values values) ≡ some v)
      × IsNearestRank v (percent p) values
at_rank-IsNearestRank values p hn =
    let (i, e, lt, lo, hi) = rank_lem (length values) p hn in
    let same = sort_values_counts 0 values in
    let (v, g) = get_elem?-total (sort_values values) i (omega arith) in
    let c = get_elem?-counts (sort_values values) i v (sort_values-Ascending values) g in
    let k = sort_values_counts v values in
    let r : rank (length (sort_values values)) p ≡ suc i = rw same.2 e in
    (
      v,
      at_rank-suc (rank (length (sort_values values)) p) i v (sort_values values) r g,
      (omega arith, omega arith),
    )

-- The percentile of a list that is not empty, at 50 or at 95 percent, is a value such that at least
-- that share of the list is at most it, and less than that share is below it.
pub percentile-IsNearestRank :
    (values : List ℕ) (p : Percent)
    → 1 ≤ length values
    → (v : ℕ) × (percentile values p ≡ some v) × IsNearestRank v (percent p) values
unfolding percentile
percentile-IsNearestRank [] p hn = absurd (omega arith)
percentile-IsNearestRank (x ∷ xs) p hn = at_rank-IsNearestRank (x ∷ xs) p hn
