-- ===== src/Evals/Tables/Rows.antt =====
-- What the rows and the columns of the matrices add up to.
use sentinel_brief.Prelude.{
  arith, sum_to, ℕ, zero, suc, ◌+◌, ◌≤◌, ◌<◌, ◌≡◌, refl, ◌&&◌, ◌==◌, List, [], ◌∷◌, All,
  if◌then◌else◌,
}
use sentinel_brief.Evals.Cases.{CaseResult}
use sentinel_brief.Evals.Tables.{Grid, mark, fill}

-- How many cases stand in a cell.
module _ (key : CaseResult → ℕ) where
  abbrev pub count_key : ℕ → List CaseResult → ℕ
  count_key k [] = 0
  count_key k (r ∷ rs) = if k == key r then suc (count_key k rs) else count_key k rs

mark_row_out :
    (n row column : ℕ) (grid : Grid) (i : ℕ)
    → n ≤ column
    → sum_to n (mark row column grid i) ≡ sum_to n (grid i)
unfolding mark
mark_row_out zero row column grid i h = refl
mark_row_out (suc n) row column grid i h =
    ground (arith, mark_row_out n row column grid i (omega arith))

pub mark_row :
    (n row column : ℕ) (grid : Grid) (i : ℕ)
    → column < n
    → sum_to n (mark row column grid i)
      ≡ (if i == row then suc (sum_to n (grid i)) else sum_to n (grid i))
unfolding mark
mark_row zero row column grid i h = absurd (omega arith)
mark_row (suc n) row column grid i h =
    ground (arith, mark_row n row column grid i, mark_row_out n row column grid i)

-- The same of a column.
mark_column_out :
    (n row column : ℕ) (grid : Grid) (j : ℕ)
    → n ≤ row
    → sum_to n (λ i. mark row column grid i j) ≡ sum_to n (λ i. grid i j)
unfolding mark
mark_column_out zero row column grid j h = refl
mark_column_out (suc n) row column grid j h =
    ground (arith, mark_column_out n row column grid j (omega arith))

pub mark_column :
    (n row column : ℕ) (grid : Grid) (j : ℕ)
    → row < n
    → sum_to n (λ i. mark row column grid i j)
      ≡ (if j == column then suc (sum_to n (λ i. grid i j)) else sum_to n (λ i. grid i j))
unfolding mark
mark_column zero row column grid j h = absurd (omega arith)
mark_column (suc n) row column grid j h =
    ground (arith, mark_column n row column grid j, mark_column_out n row column grid j)

module _ (row column : CaseResult → ℕ) where
  -- Every case falls into one cell of its own row.
  pub fill-row :
      (n : ℕ) (grid : Grid) (rs : List CaseResult) (i : ℕ)
      → All (λ r. column r < n) rs
      → sum_to n (fill row column grid rs i) ≡ sum_to n (grid i) + count_key row i rs
  unfolding fill
  fill-row n grid [] i h = omega arith
  fill-row n grid (r ∷ rs) i h = ground (
    arith,
    fill-row n (mark (row r) (column r) grid) rs i h.1,
    mark_row n (row r) (column r) grid i h.0,
  )

  pub fill_column :
      (n : ℕ) (grid : Grid) (rs : List CaseResult) (j : ℕ)
      → All (λ r. row r < n) rs
      → sum_to n (λ i. fill row column grid rs i j)
        ≡ sum_to n (λ i. grid i j) + count_key column j rs
  unfolding fill
  fill_column n grid [] j h = omega arith
  fill_column n grid (r ∷ rs) j h = ground (
    arith,
    fill_column n (mark (row r) (column r) grid) rs j h.1,
    mark_column n (row r) (column r) grid j h.0,
  )

  abbrev pub count_cell : ℕ → ℕ → List CaseResult → ℕ
  count_cell i j [] = 0
  count_cell i j (r ∷ rs) =
      if i == row r && j == column r then suc (count_cell i j rs) else count_cell i j rs

  pub fill_cell :
      (grid : Grid) (rs : List CaseResult) (i j : ℕ)
      → fill row column grid rs i j ≡ grid i j + count_cell i j rs
  unfolding fill mark
  fill_cell grid [] i j = omega arith
  fill_cell grid (r ∷ rs) i j = ground (arith, fill_cell (mark (row r) (column r) grid) rs i j)
