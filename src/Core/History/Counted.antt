-- ===== src/Core/History/Counted.antt =====
-- What a history counts.
use mathlib.Core.Path.{subst}
use sentinel_brief.Prelude.{
  min, leb, ◌⊎◌, arith, sum_to, ℕ, zero, suc, ◌+◌, ◌≤◌, ◌≡◌, refl, String, true, ◌==◌, Option, none,
  some, List, [], ◌∷◌, length, All, All-map, Bool-cases, sym, inl, inr, ok, if◌then◌else◌,
}
use sentinel_brief.Core.Verdict.{VerdictCategory, category_index}
use sentinel_brief.Core.Database.{AlertRow, VerdictRow, Db}
use sentinel_brief.Core.Reads.{Columns, latest_verdict}
use sentinel_brief.Core.History.{
  AlertHistory, Since, select_alerts, earliest, first_received, is_category, count_category,
  get_alert_history,
}
use sentinel_brief.Core.History.Picked.{
  Selected, Picked, select_alerts-Selected, select_alerts-Picked,
}

module _ (columns : Columns) where
  -- How many of the alerts have a verdict.
  pub count_judged : List VerdictRow → List AlertRow → ℕ
  count_judged verdicts [] = 0
  count_judged verdicts (row ∷ rows) = elim (latest_verdict columns row.id verdicts) [
    | none ↦ count_judged verdicts rows
    | some v ↦ suc (count_judged verdicts rows)
  ]

  -- The time at which one of the alerts was received.
  abbrev pub IsTimeOf : ℕ → List AlertRow → Type 0
  IsTimeOf t [] = ⊥
  IsTimeOf t (row ∷ rows) = (columns.received_at row.id ≡ t) ⊎ IsTimeOf t rows

  -- The time that is reported as the first: none of no alerts, else that of one of them, and no
  -- later than any.
  abbrev pub IsFirst : Option ℕ → List AlertRow → Type 0
  IsFirst none rows = length rows ≡ 0
  IsFirst (some t) rows = IsTimeOf t rows × All (λ row. t ≤ columns.received_at row.id) rows

  earliest-IsFirst :
      (row : AlertRow) (rows : List AlertRow) (o : Option ℕ)
      → IsFirst o rows
      → IsFirst (earliest columns (columns.received_at row.id) o) (row ∷ rows)
  earliest-IsFirst row [] none h = (inl refl, (omega arith, tt))
  earliest-IsFirst row (x ∷ xs) none h = absurd (omega arith)
  earliest-IsFirst row rows (some t) h = elim (Bool-cases (leb (columns.received_at row.id) t)) [
    | inl e ↦
        let m : min (columns.received_at row.id) t ≡ columns.received_at row.id =
          ground (arith, e) in
        (inl (sym m), (omega arith, All-map rows (λ x k. omega arith) h.1))
    | inr e ↦
        let m : min (columns.received_at row.id) t ≡ t = ground (arith, e) in
        (
          inr (subst (λ u. IsTimeOf u rows) (sym m) h.0),
          (omega arith, All-map rows (λ x k. omega arith) h.1),
        )
  ]

  first_received-IsFirst : (rows : List AlertRow) → IsFirst (first_received columns rows) rows
  unfolding first_received
  first_received-IsFirst [] = refl
  first_received-IsFirst (row ∷ rows) =
      earliest-IsFirst row rows (first_received columns rows) (first_received-IsFirst rows)

  sum-category :
      (n : ℕ) (verdicts : List VerdictRow) (row : AlertRow) (rows : List AlertRow)
      → sum_to n (λ k. count_category columns verdicts k (row ∷ rows))
        ≡ sum_to n (λ k. count_category columns verdicts k rows)
          + sum_to n
              (λ k. if is_category columns k (latest_verdict columns row.id verdicts) then 1 else 0)
  unfolding count_category
  sum-category zero verdicts row rows = omega arith
  sum-category (suc n) verdicts row rows = ground (arith, sum-category n verdicts row rows)

  one_category :
      (o : Option VerdictRow)
      → sum_to 7 (λ k. if is_category columns k o then 1 else 0)
        ≡ (elim o [ none ↦ 0 | some v ↦ 1 ])
  one_category none = omega arith
  one_category (some v) = of_category v.category
    where
      of_category :
          (c : VerdictCategory) → sum_to 7 (λ k. if category_index c == k then 1 else 0) ≡ 1
      of_category VerdictCategory.scanning = omega arith
      of_category VerdictCategory.brute_force = omega arith
      of_category VerdictCategory.successful_intrusion = omega arith
      of_category VerdictCategory.malware_delivery = omega arith
      of_category VerdictCategory.persistence_attempt = omega arith
      of_category VerdictCategory.reconnaissance = omega arith
      of_category VerdictCategory.other = omega arith

  count_judged-step :
      (verdicts : List VerdictRow) (row : AlertRow) (rows : List AlertRow)
      → count_judged verdicts (row ∷ rows)
        ≡ count_judged verdicts rows
          + (elim (latest_verdict columns row.id verdicts) [ none ↦ 0 | some v ↦ 1 ])
  unfolding count_judged
  count_judged-step verdicts row rows = by_verdict (latest_verdict columns row.id verdicts)
    where
      by_verdict :
          (o : Option VerdictRow)
          → (elim o [
            | none ↦ count_judged verdicts rows
            | some v ↦ suc (count_judged verdicts rows)
          ])
            ≡ count_judged verdicts rows + (elim o [ none ↦ 0 | some v ↦ 1 ])
      by_verdict none = omega arith
      by_verdict (some v) = omega arith

  sum-count_category :
      (verdicts : List VerdictRow) (rows : List AlertRow)
      → sum_to 7 (λ k. count_category columns verdicts k rows) ≡ count_judged verdicts rows
  unfolding count_category count_judged
  sum-count_category verdicts [] = omega arith
  sum-count_category verdicts (row ∷ rows) =
      let o = latest_verdict columns row.id verdicts in
      omega (
        arith,
        sum-category 7 verdicts row rows,
        one_category o,
        sum-count_category verdicts rows,
        count_judged-step verdicts row rows,
      )

  -- A history with a bound that knows its time zone. It is over exactly the alerts of the address
  -- that were received at the bound or after it, without the one excluded: it counts them, its
  -- categories add up to those that have a verdict, and its first time is none if there are none,
  -- else the time at which one of them was received, and no later than any.
  pub get_alert_history-Selected :
      (src_ip : String) (since : Since) (exclude : Option String) (db : Db)
      → since.aware ≡ true
      → let rows = select_alerts columns src_ip since.time exclude db.alerts in
        (h : AlertHistory) × (get_alert_history columns src_ip since exclude db ≡ ok h)
        × All (Selected columns src_ip since.time exclude) rows
        × Picked columns (Selected columns src_ip since.time exclude) db.alerts rows
        × (h.count ≡ length rows)
        × (sum_to 7 h.categories ≡ count_judged db.verdicts rows)
        × IsFirst h.first_seen rows
  unfolding get_alert_history
  get_alert_history-Selected src_ip since exclude db aware =
      let rows = select_alerts columns src_ip since.time exclude db.alerts in
      (
        record {
          count = length rows;
          first_seen = first_received columns rows;
          categories = λ k. count_category columns db.verdicts k rows;
        },
        rw aware refl,
        select_alerts-Selected columns src_ip since.time exclude db.alerts,
        select_alerts-Picked columns src_ip since.time exclude db.alerts,
        refl,
        sum-count_category db.verdicts rows,
        first_received-IsFirst rows,
      )
