-- ===== src/Evals/Percentile.antt =====
-- evals/scoring.py: the nearest-rank percentile, at the two percentages that the code asks for.
pub mod NearestRank
use sentinel_brief.Prelude.{
  ℕ, zero, suc, ◌+◌, ◌*◌, ◌/◌, leb, Option, none, some, List, [], ◌∷◌, length, if◌then◌else◌,
}

-- `sorted(values)`
unfoldable pub insert_value : ℕ → List ℕ → List ℕ
insert_value v [] = v ∷ []
insert_value v (x ∷ xs) = if leb v x then v ∷ x ∷ xs else x ∷ insert_value v xs

unfoldable pub sort_values : List ℕ → List ℕ
unfolding insert_value
sort_values [] = []
sort_values (v ∷ vs) = insert_value v (sort_values vs)

-- The arguments that `score` gives for `p`.
pub data Percent : Type 0 where
  p50 p95 : Percent

abbrev pub percent : Percent → ℕ
percent Percent.p50 = 50
percent Percent.p95 = 95

-- `math.ceil(p / 100 * n)`: at 50 and at 95 the float product rounds up as the exact quotient does
-- (at other percentages, such as 7 of 100 values, it does not).
unfoldable pub rank : ℕ → Percent → ℕ
rank n p = (percent p * n + 99) / 100

-- `xs[i]`
abbrev pub get_elem? : List ℕ → ℕ → Option ℕ
get_elem? [] i = none
get_elem? (x ∷ xs) zero = some x
get_elem? (x ∷ xs) (suc i) = get_elem? xs i

-- `xs[-1]`
abbrev pub last? : List ℕ → Option ℕ
last? [] = none
last? (x ∷ []) = some x
last? (x ∷ y ∷ ys) = last? (y ∷ ys)

-- `xs[r - 1]`: the last element at rank 0.
unfoldable pub at_rank : ℕ → List ℕ → Option ℕ
at_rank zero xs = last? xs
at_rank (suc i) xs = get_elem? xs i

-- None would be an IndexError.
unfoldable pub percentile : List ℕ → Percent → Option ℕ
unfolding sort_values rank at_rank
percentile [] p = some 0
percentile (v ∷ vs) p = let sorted = sort_values (v ∷ vs) in at_rank (rank (length sorted) p) sorted
