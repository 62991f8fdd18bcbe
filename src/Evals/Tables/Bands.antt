-- ===== src/Evals/Tables/Bands.antt =====
-- The precision, the recall and the support of a band, read off the confusion matrix.
use sentinel_brief.Prelude.{
  sum_to, arith, ℕ, suc, ◌-◌, ◌≤◌, ◌<◌, ◌≡◌, refl, ◌&&◌, ◌==◌, Option, none, some, List, [], ◌∷◌,
  All, if◌then◌else◌,
}
use sentinel_brief.Core.Verdict.{Verdict}
use sentinel_brief.Evals.Cases.{CaseResult}
use sentinel_brief.Evals.Tables.{
  Grid, mark, fill, empty_grid, bump, zeros, Counters, count_case, count_cases, rate, count_verdict,
  per_severity, confusion, severity_row, severity_column, column_of,
}
use sentinel_brief.Evals.Tables.Rows.{mark_row, mark_column}

abbrev pub Banded : ℕ → Type 0
Banded severity = (1 ≤ severity) × (severity ≤ 5)

abbrev pub VerdictBanded : Option Verdict → Type 0
VerdictBanded none = Unit
VerdictBanded (some v) = Banded v.severity

-- The severities that the validators let pass.
abbrev pub InBands : CaseResult → Type 0
InBands r = Banded r.label.severity × VerdictBanded r.verdict

record Agree (i : ℕ) (c : Counters) (grid : Grid) : Type 0 where
  support : c.support (suc i) ≡ sum_to 6 (grid i)
  true_positive : c.true_positive (suc i) ≡ grid i i
  predicted : c.predicted (suc i) ≡ sum_to 5 (λ k. grid k i)

mark-diagonal :
    (row column : ℕ) (grid : Grid) (i : ℕ)
    → mark row column grid i i ≡ (if i == row && i == column then suc (grid i i) else grid i i)
unfolding mark
mark-diagonal row column grid i = ground arith

count_verdict-Agree :
    (i : ℕ) (r : CaseResult) (v : Option Verdict) (c : Counters) (grid : Grid)
    → i < 5
    → Banded r.label.severity
    → VerdictBanded v
    → Agree i c grid
    → Agree i
        (count_verdict r v (record c { support = bump r.label.severity c.support }))
        (mark (severity_row r) (column_of v) grid)
unfolding bump
count_verdict-Agree i r none c grid hi l b a = record {
  support = ground (arith, mark_row 6 (severity_row r) 5 grid i (omega arith));
  true_positive = ground (arith, mark-diagonal (severity_row r) 5 grid i);
  predicted = ground (arith, mark_column 5 (severity_row r) 5 grid i (omega arith));
}
count_verdict-Agree i r (some v) c grid hi l b a = record {
  support = ground (arith, mark_row 6 (severity_row r) (v.severity - 1) grid i (omega arith));
  true_positive = ground (arith, mark-diagonal (severity_row r) (v.severity - 1) grid i);
  predicted = ground (arith, mark_column 5 (severity_row r) (v.severity - 1) grid i (omega arith));
}

count_cases-Agree :
    (i : ℕ) (rs : List CaseResult) (c : Counters) (grid : Grid)
    → i < 5
    → All InBands rs
    → Agree i c grid
    → Agree i (count_cases c rs) (fill severity_row severity_column grid rs)
unfolding count_cases fill
count_cases-Agree i [] c grid hi h a = a
count_cases-Agree i (r ∷ rs) c grid hi h a =
    count_cases-Agree i rs (count_case r c) (mark (severity_row r) (severity_column r) grid) hi h.1
      (count_verdict-Agree i r r.verdict c grid hi h.0.0 h.0.1 a)

-- For a run whose severities are in the five bands, each band's support is the sum of its row of
-- the confusion matrix, the failed column included; its recall is the cell on the diagonal over
-- that sum, and its precision the same cell over the sum of its column, which no failed case
-- enters.
pub per_severity-confusion :
    (results : List CaseResult) (i : ℕ)
    → All InBands results
    → i < 5
    → let grid = confusion results in
      per_severity results (suc i) ≡ record {
        precision = rate (grid i i) (sum_to 5 (λ k. grid k i));
        recall = rate (grid i i) (sum_to 6 (grid i));
        support = sum_to 6 (grid i);
      }
unfolding per_severity confusion
per_severity-confusion results i h hi =
    let a =
      count_cases-Agree i results
        (record { support = zeros; true_positive = zeros; predicted = zeros }) empty_grid hi h
        (record { support = refl; true_positive = refl; predicted = refl }) in
    rw (a.support, a.true_positive, a.predicted) refl
