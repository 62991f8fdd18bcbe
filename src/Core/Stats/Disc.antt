-- ===== src/Core/Stats/Disc.antt =====
-- The percentile that the database computes is the one that the evaluation computes.
use sentinel_brief.Prelude.{
  arith, ℕ, zero, suc, ◌+◌, ◌*◌, ◌≤◌, ◌<◌, ◌≡◌, refl, ap, sym, ◌∙◌, true, false, leb, List, [], ◌∷◌,
  length,
}
use sentinel_brief.Core.Stats.{first_reaching, percentile_disc, value_or_0}
use sentinel_brief.Evals.Percentile.{
  Percent, percent, get_elem?, at_rank, rank, percentile, sort_values,
}
use sentinel_brief.Evals.Percentile.NearestRank.{rank_lem, sort_values_counts}

first_reaching-get_elem? :
    (p n seen i : ℕ) (xs : List ℕ)
    → 100 * (seen + i) < p * n
    → p * n ≤ 100 * suc (seen + i)
    → first_reaching p n seen xs ≡ get_elem? xs i
unfolding first_reaching
first_reaching-get_elem? p n seen i [] below reached = refl
first_reaching-get_elem? p n seen zero (v ∷ vs) below reached =
    let here : leb (p * n) (100 * (seen + 1)) ≡ true = ground (arith, reached) in rw here refl
first_reaching-get_elem? p n seen (suc i) (v ∷ vs) below reached =
    let later : leb (p * n) (100 * (seen + 1)) ≡ false = ground (arith, below) in
    rw later
      (first_reaching-get_elem? p n (seen + 1) i vs (omega (arith, below)) (omega (arith, reached)))

disc-rank :
    (p : Percent) (x : ℕ) (xs : List ℕ)
    → percentile_disc (percent p) (x ∷ xs) ≡ percentile (x ∷ xs) p
unfolding percentile_disc percentile at_rank
disc-rank p x xs =
    let values = x ∷ xs in
    let (i, e, lt, lo, hi) = rank_lem (length values) p (omega arith) in
    let same = sort_values_counts 0 values in
    let r : rank (length (sort_values values)) p ≡ suc i = rw same.2 e in
    first_reaching-get_elem? (percent p) (length values) 0 i (sort_values values)
      (omega (arith, hi)) (omega (arith, lo))
    ∙ ap (λ k. at_rank k (sort_values values)) (sym r)

-- At 50 and at 95 percent, the two that the code asks for, the `percentile_disc` of the stats view and the
-- nearest-rank percentile of the evaluation are the same number, also where there is no value.
pub percentile_disc-percentile :
    (p : Percent) (values : List ℕ)
    → value_or_0 (percentile_disc (percent p) values) ≡ value_or_0 (percentile values p)
unfolding percentile_disc percentile first_reaching sort_values
percentile_disc-percentile p [] = refl
percentile_disc-percentile p (x ∷ xs) = ap value_or_0 (disc-rank p x xs)
