-- ===== src/Evals/Scoring/Trace.antt =====
-- The rates of a run, read off its confusion matrices.
use sentinel_brief.Prelude.{
  sum_to, arith, ap, ℕ, zero, suc, ◌==◌, ◌+◌, ◌-◌, ◌≤◌, ◌<◌, ◌≡◌, refl, true, false, Option, none,
  some, List, [], ◌∷◌, length, All, if◌then◌else◌,
}
use sentinel_brief.Core.Verdict.{Verdict, VerdictCategory, category_index}
use sentinel_brief.Evals.Cases.{CaseResult}
use sentinel_brief.Evals.Tables.{
  Grid, mark, fill, empty_grid, rate, confusion, category_confusion, severity_row, severity_column,
  column_of, category_row, category_column, category_column_of,
}
use sentinel_brief.Evals.Tables.Rows.{mark_column}
use sentinel_brief.Evals.Tables.Bands.{Banded, VerdictBanded, InBands}
use sentinel_brief.Evals.Scoring.Consistent.{plus-later}
use sentinel_brief.Evals.Scoring.{
  Tally, no_tally, tally_case, tally_cases, tally_verdict, count, is_failed, plus, score,
}

abbrev pub trace : ℕ → Grid → ℕ
trace n grid = sum_to n (λ i. grid i i)

mark-trace_out :
    (n row column : ℕ) (grid : Grid) → n ≤ row → trace n (mark row column grid) ≡ trace n grid
unfolding mark
mark-trace_out zero row column grid h = refl
mark-trace_out (suc n) row column grid h =
    ground (arith, mark-trace_out n row column grid (omega arith))

mark-trace :
    (n row column : ℕ) (grid : Grid)
    → row < n
    → trace n (mark row column grid) ≡ (if row == column then suc (trace n grid) else trace n grid)
unfolding mark
mark-trace zero row column grid h = absurd (omega arith)
mark-trace (suc n) row column grid h =
    ground (arith, mark-trace n row column grid, mark-trace_out n row column grid)

category_index-lt : (c : VerdictCategory) → category_index c < 7
category_index-lt VerdictCategory.scanning = omega arith
category_index-lt VerdictCategory.brute_force = omega arith
category_index-lt VerdictCategory.successful_intrusion = omega arith
category_index-lt VerdictCategory.malware_delivery = omega arith
category_index-lt VerdictCategory.persistence_attempt = omega arith
category_index-lt VerdictCategory.reconnaissance = omega arith
category_index-lt VerdictCategory.other = omega arith

-- The counters and the two matrices after the same cases.
record Traced (t : Tally) (grid categories : Grid) (f : ℕ) : Type 0 where
  exact : t.severity_exact ≡ trace 5 grid
  category : t.category_match ≡ trace 7 categories
  failed : f ≡ sum_to 5 (λ i. grid i 5)

abbrev failed_after : Option Verdict → ℕ → ℕ
failed_after v f = plus (elim v [ none ↦ true | some w ↦ false ]) f

tally_verdict-Traced :
    (r : CaseResult) (v : Option Verdict) (t : Tally) (grid categories : Grid) (f : ℕ)
    → Banded r.label.severity
    → VerdictBanded v
    → Traced t grid categories f
    → Traced
        (tally_verdict r v t)
        (mark (severity_row r) (column_of v) grid)
        (mark (category_row r) (category_column_of v) categories)
        (failed_after v f)
tally_verdict-Traced r none t grid categories f l b c = record {
  exact = ground (arith, mark-trace 5 (severity_row r) 5 grid (omega arith));
  category = ground (
    arith,
    mark-trace 7 (category_row r) 7 categories (category_index-lt r.label.category),
    category_index-lt r.label.category,
  );
  failed = ground (arith, mark_column 5 (severity_row r) 5 grid 5 (omega arith));
}
tally_verdict-Traced r (some v) t grid categories f l b c = record {
  exact = ground (arith, mark-trace 5 (severity_row r) (v.severity - 1) grid (omega arith));
  category = ground (
    arith,
    mark-trace 7 (category_row r) (category_index v.category) categories
        (category_index-lt r.label.category),
  );
  failed = ground (arith, mark_column 5 (severity_row r) (v.severity - 1) grid 5 (omega arith));
}

tally_case-Traced :
    (r : CaseResult) (t : Tally) (grid categories : Grid) (f : ℕ)
    → InBands r
    → Traced t grid categories f
    → Traced
        (tally_case r t)
        (mark (severity_row r) (severity_column r) grid)
        (mark (category_row r) (category_column r) categories)
        (failed_after r.verdict f)
unfolding tally_case
tally_case-Traced r t grid categories f h c =
    let k = tally_verdict-Traced r r.verdict t grid categories f h.0 h.1 c in
    record { exact = k.exact; category = k.category; failed = k.failed }

tally_cases-Traced :
    (rs : List CaseResult) (t : Tally) (grid categories : Grid) (f f' : ℕ)
    → All InBands rs
    → f' ≡ count is_failed rs + f
    → Traced t grid categories f
    → Traced
        (tally_cases t rs)
        (fill severity_row severity_column grid rs)
        (fill category_row category_column categories rs)
        f'
unfolding tally_cases count fill
tally_cases-Traced [] t grid categories f f' h q c = let q' : f' ≡ f = omega arith in rw q' c
tally_cases-Traced (r ∷ rs) t grid categories f f' h q c =
    tally_cases-Traced rs (tally_case r t) (mark (severity_row r) (severity_column r) grid)
      (mark (category_row r) (category_column r) categories) (failed_after r.verdict f) f' h.1
      (plus-later (is_failed r) f (count is_failed rs) f' (failed_after r.verdict f) refl q)
      (tally_case-Traced r t grid categories f h.0 c)

-- For a run whose severities are in the five bands, the rate of exact severities is the trace of
-- the confusion matrix over the number of cases, the category accuracy is that of the category
-- matrix, and the failed cases are the sum of the last column.
pub score-trace :
    (results : List CaseResult)
    → All InBands results
    → let m = score results in
      (m.severity_exact ≡ rate (trace 5 m.confusion) m.n_cases)
      × (m.category_accuracy ≡ rate (trace 7 m.category_confusion) m.n_cases)
      × (m.n_failed ≡ sum_to 5 (λ i. m.confusion i 5))
unfolding score confusion category_confusion
score-trace results h =
    let c =
      tally_cases-Traced results no_tally empty_grid empty_grid 0 (count is_failed results) h
        (omega arith) (record { exact = refl; category = refl; failed = refl }) in
    (
      ap (λ k. rate k (length results)) c.exact,
      ap (λ k. rate k (length results)) c.category,
      c.failed,
    )
