-- ===== src/Core/History/Picked.antt =====
-- Which alerts a history is over.
use sentinel_brief.Prelude.{
  arith, ℕ, ◌≤◌, ◌≡◌, ◌≢◌, String, true, ◌==ₛ◌, Option, none, some, List, [], ◌∷◌, All, Bool-cases,
  eq_iff, ap, sym, inl, inr,
}
use sentinel_brief.Core.Database.{AlertRow}
use sentinel_brief.Core.Reads.{Columns}
use sentinel_brief.Core.History.{selects, select_alerts}

module _ (columns : Columns) where
  -- An alert that the statements select.
  pub record Selected (src_ip : String) (since : ℕ) (exclude : Option String) (row : AlertRow)
      : Type 0 where
    pub from_ip : row.raw.src_ip ≡ src_ip
    pub in_window : since ≤ columns.received_at row.id
    pub not_excluded : exclude ≢ some row.fingerprint

  some_injective : {a b : String} → some a ≡ some b → a ≡ b
  some_injective e = cc

  selects-Selected :
      (src_ip : String) (since : ℕ) (exclude : Option String) (row : AlertRow)
      → selects columns src_ip since exclude row ≡ true
      → Selected src_ip since exclude row
  unfolding selects
  selects-Selected src_ip since none row h = record {
    from_ip = (eq_iff row.raw.src_ip src_ip).0 (ground (arith, h));
    in_window = ground (arith, h);
    not_excluded = λ e. cc;
  }
  selects-Selected src_ip since (some f) row h = record {
    from_ip = (eq_iff row.raw.src_ip src_ip).0 (ground (arith, h));
    in_window = ground (arith, h);
    not_excluded = λ e.
        let same : row.fingerprint ≡ f = sym (some_injective e) in
        let test : (row.fingerprint ==ₛ f) ≡ true = (eq_iff row.fingerprint f).1 same in
        absurd (ground (arith, h, test));
  }

  pub select_alerts-Selected :
      (src_ip : String) (since : ℕ) (exclude : Option String) (rows : List AlertRow)
      → All (Selected src_ip since exclude) (select_alerts columns src_ip since exclude rows)
  unfolding select_alerts
  select_alerts-Selected src_ip since exclude [] = tt
  select_alerts-Selected src_ip since exclude (row ∷ rows) =
      let rest = select_alerts-Selected src_ip since exclude rows in
      elim (Bool-cases (selects columns src_ip since exclude row)) [
        | inl e ↦ rw e (selects-Selected src_ip since exclude row e, rest)
        | inr e ↦ rw e rest
      ]

  Selected-selects :
      (src_ip : String) (since : ℕ) (exclude : Option String) (row : AlertRow)
      → Selected src_ip since exclude row
      → selects columns src_ip since exclude row ≡ true
  unfolding selects
  Selected-selects src_ip since none row h =
      ground (arith, (eq_iff row.raw.src_ip src_ip).1 h.from_ip, h.in_window)
  Selected-selects src_ip since (some f) row h = elim (Bool-cases (row.fingerprint ==ₛ f)) [
    | inl e ↦ absurd (h.not_excluded (ap some (sym ((eq_iff row.fingerprint f).0 e))))
    | inr e ↦ ground (arith, (eq_iff row.raw.src_ip src_ip).1 h.from_ip, h.in_window, e)
  ]

  -- The rows are those of a list that have a property, in order: none is missing.
  pub data Picked (P : AlertRow → Type 0) : List AlertRow → List AlertRow → Type 0 where
    picked_none : Picked P [] []
    picked :
        {row : AlertRow} {rows out : List AlertRow}
        → P row
        → Picked P rows out
        → Picked P (row ∷ rows) (row ∷ out)
    passed :
        {row : AlertRow} {rows out : List AlertRow}
        → ¬ P row
        → Picked P rows out
        → Picked P (row ∷ rows) out

  pub select_alerts-Picked :
      (src_ip : String) (since : ℕ) (exclude : Option String) (rows : List AlertRow)
      → Picked
          (Selected src_ip since exclude)
          rows
          (select_alerts columns src_ip since exclude rows)
  unfolding select_alerts
  select_alerts-Picked src_ip since exclude [] = Picked.picked_none
  select_alerts-Picked src_ip since exclude (row ∷ rows) =
      let rest = select_alerts-Picked src_ip since exclude rows in
      elim (Bool-cases (selects columns src_ip since exclude row)) [
        | inl e ↦ rw e (Picked.picked (selects-Selected src_ip since exclude row e) rest)
        | inr e ↦ rw e (
            Picked.passed
              (λ s. absurd (ground (arith, e, Selected-selects src_ip since exclude row s))) rest)
      ]
