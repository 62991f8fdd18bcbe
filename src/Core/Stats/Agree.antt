-- ===== src/Core/Stats/Agree.antt =====
-- The numbers of the stats view agree with each other.
use sentinel_brief.Prelude.{
  arith, ℕ, suc, ◌+◌, ◌≡◌, ◌≢◌, refl, ap, sym, ◌∙◌, ◌⊎◌, inl, inr, false, ◌==◌, ==_iff, Option,
  List, [], ◌∷◌, map, length, All, All-map, All-append, Bool-cases, if◌then◌else◌,
}
use sentinel_brief.Core.Database.{AlertStatus, AlertRow, VerdictRow, Db}
use sentinel_brief.Core.Database.Sound.{Sound, Unique, HasAlert}
use sentinel_brief.Core.Reads.{Columns}
use sentinel_brief.Core.Stats.{
  DayVolume, DayCost, sum_of, sum_if, same_status, value_or_0, CostRow, costs_of, joined_with,
  outer_joined, cost_rows, day_of, days, volume, day_cost, get_stats,
}
use sentinel_brief.Core.Stats.Distinct.{count_distinct-cost_rows}
use sentinel_brief.Core.Stats.Days.{days-once}
use sentinel_brief.Core.Stats.Grouped.{
  occurrences, sum_of-grouped, sum_of-append, sum_of-map, sum_of-ones,
}

-- A row counts for one status.
status_parts :
    (s : AlertStatus) (a b c n : ℕ)
    → a + b + c ≡ n
    → (if same_status s AlertStatus.pending then 1 + a else a)
        + (if same_status s AlertStatus.triaged then 1 + b else b)
        + (if same_status s AlertStatus.failed then 1 + c else c)
      ≡ suc n
unfolding same_status
status_parts AlertStatus.pending a b c n h = omega (arith, h)
status_parts AlertStatus.triaged a b c n h = omega (arith, h)
status_parts AlertStatus.failed a b c n h = omega (arith, h)

sum_of-statuses :
    (rs : List AlertRow)
    → sum_if (λ r. same_status r.status AlertStatus.pending) (λ _. 1) rs
        + sum_if (λ r. same_status r.status AlertStatus.triaged) (λ _. 1) rs
        + sum_if (λ r. same_status r.status AlertStatus.failed) (λ _. 1) rs
      ≡ length rs
unfolding sum_if same_status
sum_of-statuses [] = omega arith
sum_of-statuses (r ∷ rs) = status_parts r.status _ _ _ (length rs) (sum_of-statuses rs)

-- The keys of the alerts, each once.
abbrev ids : List AlertRow → List ℕ
ids = map (λ r. r.id)

occurrences-absent :
    (id : ℕ) (rs : List AlertRow) → All (λ x. x.id ≢ id) rs → occurrences id (ids rs) ≡ 0
unfolding occurrences
occurrences-absent id [] h = refl
occurrences-absent id (r ∷ rs) h = elim (Bool-cases (id == r.id)) [
  | inl e ↦ absurd (h.0 (sym ((==_iff id r.id).0 e)))
  | inr e ↦ rw e (occurrences-absent id rs h.1)
]

occurrences-ids :
    (id : ℕ) (rs : List AlertRow) → Unique rs → HasAlert id rs → occurrences id (ids rs) ≡ 1
unfolding occurrences
occurrences-ids id [] u h = absurd h
occurrences-ids id (r ∷ rs) u h = elim (Bool-cases (id == r.id)) [
  | inl e ↦
      let same : id ≡ r.id = (==_iff id r.id).0 e in
      rw e (ap suc (ap (λ k. occurrences k (ids rs)) same ∙ occurrences-absent r.id rs u.0))
  | inr e ↦ rw e (occurrences-ids id rs u.1 (elsewhere h e))
]
  where
    elsewhere : (r.id ≡ id) ⊎ HasAlert id rs → (id == r.id) ≡ false → HasAlert id rs
    elsewhere (inl s) e = absurd (ground (arith, s, e))
    elsewhere (inr t) e = t

-- What the join keeps of the costs of an alert.
abbrev row_cost : CostRow → ℕ
row_cost r = value_or_0 r.cost_usd

sum_of-joined_with :
    (row : AlertRow) (cs : List ℕ) → sum_of row_cost (joined_with row cs) ≡ sum_of (λ c. c) cs
unfolding sum_of joined_with
sum_of-joined_with row [] = refl
sum_of-joined_with row (c ∷ cs) = omega (arith, sum_of-joined_with row cs)

sum_of-outer_joined :
    (row : AlertRow) (cs : List ℕ) → sum_of row_cost (outer_joined row cs) ≡ sum_of (λ c. c) cs
unfolding sum_of
sum_of-outer_joined row [] = omega arith
sum_of-outer_joined row (c ∷ cs) = sum_of-joined_with row (c ∷ cs)

sum_of-costs_of :
    (id : ℕ) (vs : List VerdictRow)
    → sum_of (λ c. c) (costs_of id vs) ≡ sum_if (λ v. v.alert_id == id) (λ v. v.cost_usd) vs
unfolding sum_of sum_if costs_of
sum_of-costs_of id [] = refl
sum_of-costs_of id (v ∷ vs) = elim (Bool-cases (v.alert_id == id)) [
  | inl e ↦ rw e (omega (arith, sum_of-costs_of id vs))
  | inr e ↦ rw e (sum_of-costs_of id vs)
]

sum_of-cost_rows :
    (vs : List VerdictRow) (rs : List AlertRow)
    → sum_of row_cost (cost_rows vs rs)
      ≡ sum_of (λ r. sum_if (λ v. v.alert_id == r.id) (λ v. v.cost_usd) vs) rs
unfolding cost_rows sum_of
sum_of-cost_rows vs [] = refl
sum_of-cost_rows vs (r ∷ rs) =
    let here = sum_of-outer_joined r (costs_of r.id vs) ∙ sum_of-costs_of r.id vs in
    sum_of-append row_cost (outer_joined r (costs_of r.id vs)) (cost_rows vs rs)
    ∙ omega (arith, here, sum_of-cost_rows vs rs)

joined_with-All :
    (P : AlertRow → Type 0) (row : AlertRow) (cs : List ℕ)
    → P row
    → All (λ r. P r.alert) (joined_with row cs)
unfolding joined_with
joined_with-All P row [] h = tt
joined_with-All P row (c ∷ cs) h = (h, joined_with-All P row cs h)

outer_joined-All :
    (P : AlertRow → Type 0) (row : AlertRow) (cs : List ℕ)
    → P row
    → All (λ r. P r.alert) (outer_joined row cs)
outer_joined-All P row [] h = (h, tt)
outer_joined-All P row (c ∷ cs) h = joined_with-All P row (c ∷ cs) h

cost_rows-All :
    (P : AlertRow → Type 0) (vs : List VerdictRow) (rs : List AlertRow)
    → All P rs
    → All (λ r. P r.alert) (cost_rows vs rs)
unfolding cost_rows
cost_rows-All P vs [] h = tt
cost_rows-All P vs (r ∷ rs) h =
    All-append (λ x. P x.alert) (outer_joined r (costs_of r.id vs)) (cost_rows vs rs)
      (outer_joined-All P r (costs_of r.id vs) h.0) (cost_rows-All P vs rs h.1)

abbrev pub volume_of : DayCost → DayVolume
volume_of d = record { day = d.day; count = d.alerts }

module _ (columns : Columns) where
  volumes-add_up :
      (rs : List AlertRow)
      → sum_of (λ v. v.count) (map (volume columns rs) (days columns rs)) ≡ length rs
  volumes-add_up rs =
      sum_of-map (λ v. v.count) (volume columns rs) (days columns rs)
      ∙ sum_of-grouped (day_of columns) (λ _. 1) rs (days columns rs) (days-once columns rs)
      ∙ sum_of-ones rs

  costs-add_up :
      (vs : List VerdictRow) (rs : List AlertRow)
      → Unique rs
      → All (λ v. HasAlert v.alert_id rs) vs
      → sum_of (λ d. d.cost_usd) (map (day_cost columns (cost_rows vs rs)) (days columns rs))
        ≡ sum_of (λ v. v.cost_usd) vs
  costs-add_up vs rs u h =
      sum_of-map (λ d. d.cost_usd) (day_cost columns (cost_rows vs rs)) (days columns rs)
      ∙ sum_of-grouped (λ r. day_of columns r.alert) row_cost (cost_rows vs rs) (days columns rs)
          (cost_rows-All (λ r. occurrences (day_of columns r) (days columns rs) ≡ 1) vs rs
            (days-once columns rs))
      ∙ sum_of-cost_rows vs rs
      ∙ sym (sum_of-map (λ id. sum_if (λ v. v.alert_id == id) (λ v. v.cost_usd) vs) (λ r. r.id) rs)
      ∙ sum_of-grouped (λ v. v.alert_id) (λ v. v.cost_usd) vs (ids rs)
          (All-map vs (λ v x. occurrences-ids v.alert_id rs u x) h)

  -- Each day's alerts are counted once in both series.
  alerts_agree :
      (vs : List VerdictRow) (rs : List AlertRow) (ds : List ℕ)
      → Unique rs
      → map volume_of (map (day_cost columns (cost_rows vs rs)) ds) ≡ map (volume columns rs) ds
  alerts_agree vs rs [] u = refl
  alerts_agree vs rs (d ∷ ds) u =
      ap
        (λ n.
          record { day = d; count = n }
          ∷ map volume_of (map (day_cost columns (cost_rows vs rs)) ds))
        (count_distinct-cost_rows (λ r. day_of columns r == d) vs rs u)
      ∙ ap (λ vols. volume columns rs d ∷ vols) (alerts_agree vs rs ds u)

  -- On sound tables the stats view agrees with itself: the alerts of the days add up to the total
  -- of alerts, and so do those of the three statuses; the series of costs has the same days with the
  -- same numbers of alerts, each alert once although the join repeats a reopened one; the costs of the days add up to the total
  -- cost, that of a reopened alert's earlier verdicts included.
  pub get_stats-agrees :
      (raw : Option (Option ℕ)) (budget : ℕ) (db : Db)
      → Sound db
      → let stats = get_stats columns raw budget db in
        (sum_of (λ v. v.count) stats.volume_by_day ≡ stats.total_alerts)
        × (stats.by_status AlertStatus.pending
              + stats.by_status AlertStatus.triaged
              + stats.by_status AlertStatus.failed
            ≡ stats.total_alerts)
        × (map volume_of stats.cost_by_day ≡ stats.volume_by_day)
        × (sum_of (λ d. d.cost_usd) stats.cost_by_day ≡ stats.cost_total_usd)
  unfolding get_stats
  get_stats-agrees raw budget db sound = (
    volumes-add_up db.alerts,
    sum_of-statuses db.alerts,
    alerts_agree db.verdicts db.alerts (days columns db.alerts) sound.unique,
    costs-add_up db.verdicts db.alerts sound.unique sound.verdicts,
  )
