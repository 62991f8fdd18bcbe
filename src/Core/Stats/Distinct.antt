-- ===== src/Core/Stats/Distinct.antt =====
-- `count(DISTINCT alerts.id)` counts an alert once, however many verdicts the join gives it.
use sentinel_brief.Prelude.{
  arith, ℕ, suc, ◌+◌, ◌≡◌, ◌≢◌, refl, ap, sym, ◌∙◌, inl, inr, Bool, true, false, not, ◌&&◌, ◌||◌,
  ◌==◌, ==_iff, some, List, [], ◌∷◌, ◌++◌, All, Bool-cases, if◌then◌else◌,
}
use sentinel_brief.Core.Database.{AlertRow, VerdictRow}
use sentinel_brief.Core.Database.Sound.{Unique}
use sentinel_brief.Core.Stats.{
  sum_if, CostRow, costs_of, joined_with, outer_joined, cost_rows, occurs, count_distinct,
}

repeated : (a b o : Bool) → b ≡ true → (a && not ((a && b) || o)) ≡ false
repeated true true o h = refl
repeated true false o h = absurd (ground (arith, h))
repeated false b o h = refl

module _ (p : AlertRow → Bool) where
  abbrev of_alert : CostRow → Bool
  of_alert r = p r.alert

  occurs-joined_with :
      (id : ℕ) (row : AlertRow) (cs : List ℕ) (rest : List CostRow)
      → id ≢ row.id
      → occurs of_alert id rest ≡ false
      → occurs of_alert id (joined_with row cs ++ rest) ≡ false
  unfolding occurs joined_with
  occurs-joined_with id row [] rest n h = h
  occurs-joined_with id row (c ∷ cs) rest n h = elim (Bool-cases (row.id == id)) [
    | inl e ↦ absurd (n (sym ((==_iff row.id id).0 e)))
    | inr e ↦
        rw (e, occurs-joined_with id row cs rest n h)
          (elim (Bool-cases (p row)) [ inl q ↦ rw q refl | inr q ↦ rw q refl ])
  ]

  occurs-outer_joined :
      (id : ℕ) (row : AlertRow) (cs : List ℕ) (rest : List CostRow)
      → id ≢ row.id
      → occurs of_alert id rest ≡ false
      → occurs of_alert id (outer_joined row cs ++ rest) ≡ false
  unfolding occurs
  occurs-outer_joined id row [] rest n h = elim (Bool-cases (row.id == id)) [
    | inl e ↦ absurd (n (sym ((==_iff row.id id).0 e)))
    | inr e ↦ rw (e, h) (elim (Bool-cases (p row)) [ inl q ↦ rw q refl | inr q ↦ rw q refl ])
  ]
  occurs-outer_joined id row (c ∷ cs) rest n h = occurs-joined_with id row (c ∷ cs) rest n h

  occurs-cost_rows :
      (id : ℕ) (vs : List VerdictRow) (rs : List AlertRow)
      → All (λ x. x.id ≢ id) rs
      → occurs of_alert id (cost_rows vs rs) ≡ false
  unfolding cost_rows occurs
  occurs-cost_rows id vs [] h = refl
  occurs-cost_rows id vs (r ∷ rs) h =
      occurs-outer_joined id r (costs_of r.id vs) (cost_rows vs rs) (λ e. h.0 (sym e))
        (occurs-cost_rows id vs rs h.1)

  -- One more alert, if it is selected.
  abbrev counted : AlertRow → ℕ → ℕ
  counted row n = if p row then 1 + n else n

  count_distinct-first :
      (row : AlertRow) (r : CostRow) (rest : List CostRow)
      → r.alert ≡ row
      → occurs of_alert row.id rest ≡ false
      → count_distinct of_alert (r ∷ rest) ≡ counted row (count_distinct of_alert rest)
  unfolding count_distinct
  count_distinct-first row r rest e h =
      rw (e, h) (elim (Bool-cases (p row)) [ inl q ↦ rw q (omega arith) | inr q ↦ rw q refl ])

  -- A row whose alert comes again is not counted.
  count_distinct-repeated :
      (row : AlertRow) (c d : ℕ) (later : List CostRow)
      → count_distinct of_alert (
          record { alert = row; cost_usd = some c }
          ∷ record { alert = row; cost_usd = some d }
          ∷ later)
        ≡ count_distinct of_alert (record { alert = row; cost_usd = some d } ∷ later)
  unfolding count_distinct occurs
  count_distinct-repeated row c d later =
      ap
        (λ t.
          if t
          then suc (count_distinct of_alert (record { alert = row; cost_usd = some d } ∷ later))
          else count_distinct of_alert (record { alert = row; cost_usd = some d } ∷ later))
        (repeated (p row) (row.id == row.id) (occurs of_alert row.id later)
          ((==_iff row.id row.id).1 refl))

  count_distinct-again :
      (row : AlertRow) (c : ℕ) (cs : List ℕ) (rest : List CostRow)
      → occurs of_alert row.id rest ≡ false
      → count_distinct of_alert (joined_with row (c ∷ cs) ++ rest)
        ≡ counted row (count_distinct of_alert rest)
  unfolding joined_with
  count_distinct-again row c [] rest h = count_distinct-first row _ rest refl h
  count_distinct-again row c (d ∷ cs) rest h =
      count_distinct-repeated row c d (joined_with row cs ++ rest)
      ∙ count_distinct-again row d cs rest h

  count_distinct-outer_joined :
      (row : AlertRow) (cs : List ℕ) (rest : List CostRow)
      → occurs of_alert row.id rest ≡ false
      → count_distinct of_alert (outer_joined row cs ++ rest)
        ≡ counted row (count_distinct of_alert rest)
  count_distinct-outer_joined row [] rest h = count_distinct-first row _ rest refl h
  count_distinct-outer_joined row (c ∷ cs) rest h = count_distinct-again row c cs rest h

  pub count_distinct-cost_rows :
      (vs : List VerdictRow) (rs : List AlertRow)
      → Unique rs
      → count_distinct of_alert (cost_rows vs rs) ≡ sum_if p (λ _. 1) rs
  unfolding cost_rows count_distinct sum_if
  count_distinct-cost_rows vs [] u = refl
  count_distinct-cost_rows vs (r ∷ rs) u =
      count_distinct-outer_joined r (costs_of r.id vs) (cost_rows vs rs)
        (occurs-cost_rows r.id vs rs u.0)
      ∙ ap (counted r) (count_distinct-cost_rows vs rs u.1)
