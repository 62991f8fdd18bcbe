-- ===== src/Core/Stats.antt =====
-- core/services/alerts_read.py: `get_stats`. A GROUP BY with its ORDER BY gives one row for each of
-- the values, in their order; a cost is counted in millionths of a dollar.
pub mod Grouped
pub mod Days
pub mod Distinct
pub mod Agree
pub mod Disc
use sentinel_brief.Prelude.{
  ℕ, suc, ◌+◌, ◌*◌, ◌/◌, Bool, true, false, ◌&&◌, ◌||◌, not, ◌==◌, leb, ltb, Option, none, some,
  List, [], ◌∷◌, ◌++◌, length, map, if◌then◌else◌,
}
use sentinel_brief.Core.Verdict.{VerdictCategory, category_index}
use sentinel_brief.Core.Database.{AlertStatus, AlertRow, VerdictRow, Db}
use sentinel_brief.Core.Reads.{Columns, latest_verdict, verdict_is}
use sentinel_brief.Evals.Percentile.{sort_values}
use sentinel_brief.Pipeline.Budget.{tokens_of}

pub record DayVolume : Type 0 where
  pub day : ℕ
  pub count : ℕ

pub record DayCost : Type 0 where
  pub day : ℕ
  pub alerts : ℕ
  pub cost_usd : ℕ
  pub mean_cost_usd : ℕ

pub record StatsOut : Type 0 where
  pub total_alerts : ℕ
  pub by_status : AlertStatus → ℕ
  pub by_severity : ℕ → ℕ
  -- by the index of the category
  pub by_category : ℕ → ℕ
  pub escalated_count : ℕ
  pub volume_by_day : List DayVolume
  pub cost_total_usd : ℕ
  pub cost_mean_usd : ℕ
  pub latency_p50_ms : ℕ
  pub latency_p95_ms : ℕ
  pub last_alert_at : Option ℕ
  pub cost_by_day : List DayCost
  pub budget_exhausted : Bool
  pub tokens_today : ℕ
  pub daily_token_budget : ℕ

-- A sum, and a sum under a WHERE; `count(*)` sums ones.
unfoldable pub sum_of {ℓ} : {A : Type ℓ} → (A → ℕ) → List A → ℕ
sum_of f [] = 0
sum_of f (x ∷ xs) = f x + sum_of f xs

unfoldable pub sum_if {ℓ} : {A : Type ℓ} → (A → Bool) → (A → ℕ) → List A → ℕ
sum_if p f [] = 0
sum_if p f (x ∷ xs) = if p x then f x + sum_if p f xs else sum_if p f xs

abbrev pub count_where {ℓ} : {A : Type ℓ} → (A → Bool) → List A → ℕ
count_where p = sum_if p (λ _. 1)

unfoldable pub same_status : AlertStatus → AlertStatus → Bool
same_status AlertStatus.pending AlertStatus.pending = true
same_status AlertStatus.triaged AlertStatus.triaged = true
same_status AlertStatus.failed AlertStatus.failed = true
same_status _ _ = false

-- `(cost / n).quantize(…, ROUND_HALF_UP)`
unfoldable pub mean_cost : ℕ → ℕ → ℕ
mean_cost cost n = if n == 0 then 0 else (2 * cost + n) / (2 * n)

-- `percentile_disc(p / 100)`: the first value whose share of the sorted values, itself included, is
-- at least that; `seen` values came before.
unfoldable pub first_reaching : ℕ → ℕ → ℕ → List ℕ → Option ℕ
first_reaching p n seen [] = none
first_reaching p n seen (v ∷ vs) =
    if leb (p * n) (100 * (seen + 1)) then some v else first_reaching p n (seen + 1) vs

unfoldable pub percentile_disc : ℕ → List ℕ → Option ℕ
unfolding first_reaching sort_values
percentile_disc p values = first_reaching p (length values) 0 (sort_values values)

abbrev pub value_or_0 : Option ℕ → ℕ
value_or_0 none = 0
value_or_0 (some v) = v

unfoldable pub latencies : List VerdictRow → List ℕ
latencies [] = []
latencies (v ∷ vs) = v.latency_ms ∷ latencies vs

-- The days, each once and in order.
unfoldable pub insert_day : ℕ → List ℕ → List ℕ
insert_day d [] = d ∷ []
insert_day d (x ∷ xs) =
    if ltb d x then d ∷ x ∷ xs else if d == x then x ∷ xs else x ∷ insert_day d xs

-- A row of the outer join of an alert with its verdicts.
pub record CostRow : Type 0 where
  pub alert : AlertRow
  pub cost_usd : Option ℕ

unfoldable pub costs_of : ℕ → List VerdictRow → List ℕ
costs_of alert_id [] = []
costs_of alert_id (v ∷ vs) =
    if v.alert_id == alert_id then v.cost_usd ∷ costs_of alert_id vs else costs_of alert_id vs

unfoldable pub joined_with : AlertRow → List ℕ → List CostRow
joined_with row [] = []
joined_with row (c ∷ cs) = record { alert = row; cost_usd = some c } ∷ joined_with row cs

abbrev pub outer_joined : AlertRow → List ℕ → List CostRow
outer_joined row [] = record { alert = row; cost_usd = none } ∷ []
outer_joined row (c ∷ cs) = joined_with row (c ∷ cs)

unfoldable pub cost_rows : List VerdictRow → List AlertRow → List CostRow
unfolding costs_of joined_with
cost_rows vs [] = []
cost_rows vs (r ∷ rs) = outer_joined r (costs_of r.id vs) ++ cost_rows vs rs

-- `count(DISTINCT alerts.id)` of the rows that `p` selects.
unfoldable pub occurs : (CostRow → Bool) → ℕ → List CostRow → Bool
occurs p id [] = false
occurs p id (r ∷ rs) = (p r && r.alert.id == id) || occurs p id rs

unfoldable pub count_distinct : (CostRow → Bool) → List CostRow → ℕ
unfolding occurs
count_distinct p [] = 0
count_distinct p (r ∷ rs) =
    if p r && not (occurs p r.alert.id rs) then suc (count_distinct p rs) else count_distinct p rs

abbrev pub latest_of : ℕ → Option ℕ → Option ℕ
latest_of t none = some t
latest_of t (some u) = some (if ltb u t then t else u)

module _ (columns : Columns) where
  abbrev pub day_of : AlertRow → ℕ
  day_of row = columns.received_at row.id / 86400000000

  unfoldable pub days : List AlertRow → List ℕ
  unfolding insert_day
  days [] = []
  days (r ∷ rs) = insert_day (day_of r) (days rs)

  abbrev pub volume : List AlertRow → ℕ → DayVolume
  volume alerts d = record { day = d; count = count_where (λ r. day_of r == d) alerts }

  abbrev pub cost_on : List CostRow → ℕ → ℕ
  cost_on rows d = sum_if (λ r. day_of r.alert == d) (λ r. value_or_0 r.cost_usd) rows

  abbrev pub day_cost : List CostRow → ℕ → DayCost
  day_cost rows d =
      let alerts = count_distinct (λ r. day_of r.alert == d) rows in
      record {
        day = d;
        alerts = alerts;
        cost_usd = cost_on rows d;
        mean_cost_usd = mean_cost (cost_on rows d) alerts;
      }

  unfoldable pub last_received : List AlertRow → Option ℕ
  last_received [] = none
  last_received (r ∷ rs) = latest_of (columns.received_at r.id) (last_received rs)

  -- The rows of `latest_verdicts_subquery`.
  unfoldable pub is_latest : List VerdictRow → VerdictRow → Bool
  unfolding latest_verdict
  is_latest vs v = verdict_is (latest_verdict columns v.alert_id vs) (λ w. w.id == v.id)

  -- `raw` is what Redis answers to the read of the counter.
  unfoldable pub get_stats : Option (Option ℕ) → ℕ → Db → StatsOut
  unfolding sum_of sum_if same_status mean_cost percentile_disc latencies days cost_rows
      count_distinct last_received is_latest
  get_stats raw daily_token_budget db =
      let latest = is_latest db.verdicts in
      let rows = cost_rows db.verdicts db.alerts in
      let total = sum_of (λ v. v.cost_usd) db.verdicts in
      record {
        total_alerts = length db.alerts;
        by_status = λ status. count_where (λ r. same_status r.status status) db.alerts;
        by_severity = λ i. count_where (λ v. latest v && v.severity == i) db.verdicts;
        by_category =
            λ i. count_where (λ v. latest v && category_index v.category == i) db.verdicts;
        escalated_count = count_where (λ v. latest v && v.escalate) db.verdicts;
        volume_by_day = map (volume db.alerts) (days db.alerts);
        cost_total_usd = total;
        cost_mean_usd = mean_cost total (length db.verdicts);
        latency_p50_ms = value_or_0 (percentile_disc 50 (latencies db.verdicts));
        latency_p95_ms = value_or_0 (percentile_disc 95 (latencies db.verdicts));
        last_alert_at = last_received db.alerts;
        cost_by_day = map (day_cost rows) (days db.alerts);
        budget_exhausted = ltb 0 daily_token_budget && leb daily_token_budget (tokens_of raw);
        tokens_today = tokens_of raw;
        daily_token_budget = daily_token_budget;
      }
