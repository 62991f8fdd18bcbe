-- ===== src/Evals/Tables.antt =====
-- evals/scoring.py: the tables of counts. A dict or a matrix of counters is a function of its
-- keys; the severities of a label and of a verdict are validated, so that they are keys.
pub mod Rows
pub mod Bands
use sentinel_brief.Prelude.{
  ℕ, ◌+◌, ◌-◌, Bool, true, false, ◌&&◌, ◌==◌, Option, none, some, List, [], ◌∷◌, map, if◌then◌else◌,
}
use sentinel_brief.Core.Verdict.{Verdict, category_index}
use sentinel_brief.Evals.Cases.{CaseResult}

abbrev pub Counter : Type 0
Counter = ℕ → ℕ

-- `dict.fromkeys(…, 0)`
abbrev pub zeros : Counter
zeros k = 0

-- `counter[key] += 1`
unfoldable pub bump : ℕ → Counter → Counter
bump key counter k = if k == key then counter k + 1 else counter k

-- A rate of two counts, 0 where the second is 0.
pub record Rate : Type 0 where
  pub numerator : ℕ
  pub denominator : ℕ

unfoldable pub rate : ℕ → ℕ → Rate
rate n d =
    if d == 0
    then record { numerator = 0; denominator = 1 }
    else record { numerator = n; denominator = d }

-- `PR`
pub record Precision : Type 0 where
  pub precision : Rate
  pub recall : Rate
  pub support : ℕ

-- The three dicts of `per_severity`.
pub record Counters : Type 0 where
  pub support : Counter
  pub true_positive : Counter
  pub predicted : Counter

abbrev pub count_verdict : CaseResult → Option Verdict → Counters → Counters
count_verdict r none c = c
count_verdict r (some v) c = record c {
  predicted = bump v.severity c.predicted;
  true_positive =
      if v.severity == r.label.severity
      then bump r.label.severity c.true_positive
      else c.true_positive;
}

-- The body of its loop, and the loop.
unfoldable pub count_case : CaseResult → Counters → Counters
unfolding bump
count_case r c = count_verdict r r.verdict (record c { support = bump r.label.severity c.support })

unfoldable pub count_cases : Counters → List CaseResult → Counters
unfolding count_case
count_cases c [] = c
count_cases c (r ∷ rs) = count_cases (count_case r c) rs

unfoldable pub per_severity : List CaseResult → ℕ → Precision
unfolding count_cases rate
per_severity results band =
    let c =
      count_cases (record { support = zeros; true_positive = zeros; predicted = zeros }) results in
    record {
      precision = rate (c.true_positive band) (c.predicted band);
      recall = rate (c.true_positive band) (c.support band);
      support = c.support band;
    }

abbrev pub Grid : Type 0
Grid = ℕ → ℕ → ℕ

-- `matrix[row][column] += 1`
unfoldable pub mark : ℕ → ℕ → Grid → Grid
mark row column grid i j = if i == row && j == column then grid i j + 1 else grid i j

module _ (row column : CaseResult → ℕ) where
  unfoldable pub fill : Grid → List CaseResult → Grid
  unfolding mark
  fill grid [] = grid
  fill grid (r ∷ rs) = fill (mark (row r) (column r) grid) rs

abbrev pub empty_grid : Grid
empty_grid i j = 0

-- The row of a case in `confusion`, and its column: the last is "failed".
abbrev pub severity_row : CaseResult → ℕ
severity_row r = r.label.severity - 1

abbrev pub column_of : Option Verdict → ℕ
column_of none = 5
column_of (some v) = v.severity - 1

abbrev pub severity_column : CaseResult → ℕ
severity_column r = column_of r.verdict

unfoldable pub confusion : List CaseResult → Grid
unfolding fill
confusion = fill severity_row severity_column empty_grid

abbrev pub category_row : CaseResult → ℕ
category_row r = category_index r.label.category

abbrev pub category_column_of : Option Verdict → ℕ
category_column_of none = 7
category_column_of (some v) = category_index v.category

abbrev pub category_column : CaseResult → ℕ
category_column r = category_column_of r.verdict

unfoldable pub category_confusion : List CaseResult → Grid
unfolding fill
category_confusion = fill category_row category_column empty_grid
