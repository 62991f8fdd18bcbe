-- ===== src/Tests/Reads.antt =====
-- What the dashboard and the history tool read from small tables.
use sentinel_brief.Prelude.{
  ◌+◌, inl, inr, arith, sum_to, ℕ, ◌≤◌, ◌≡◌, refl, true, false, none, some, List, [], ◌∷◌, length,
  map, All, ok,
}
use sentinel_brief.Core.Verdict.{VerdictCategory}
use sentinel_brief.Core.Database.{AlertStatus, AlertRow, VerdictRow, Db}
use sentinel_brief.Core.History.{AlertHistory, Since, select_alerts, get_alert_history}
use sentinel_brief.Core.History.Picked.{Selected, Picked}
use sentinel_brief.Core.History.Counted.{count_judged, IsFirst, get_alert_history-Selected}
use sentinel_brief.Core.Reads.{
  Columns, ListFilters, Joined, base_rows, order_rows, alert_summary, list_alerts, latest_verdict,
  matches,
}
use sentinel_brief.Core.Reads.Latest.{IsLatest, latest_verdict-IsLatest}
use sentinel_brief.Core.Reads.Matched.{Joins}
use sentinel_brief.Core.Reads.Paged.{list_pages, Ordered, count_rows, list_alerts-pages}
use sentinel_brief.Core.Database.Sound.{Sound}
use sentinel_brief.Core.Stats.{StatsOut, sum_of, get_stats, percentile_disc, value_or_0}
use sentinel_brief.Core.Stats.Agree.{volume_of, get_stats-agrees}
use sentinel_brief.Core.Stats.Disc.{percentile_disc-percentile}
use sentinel_brief.Evals.Percentile.{Percent, percentile}
use sentinel_brief.Tests.{pending_row}

-- An alert is received at its key, a verdict is made at its key.
abbrev columns : Columns
columns = record { received_at = λ k. k; created_at = λ k. k; country_of = λ t. none }

abbrev verdict : ℕ → ℕ → VerdictRow
verdict id alert_id = record {
  id = id;
  alert_id = alert_id;
  severity = 4;
  category = VerdictCategory.brute_force;
  confidence = 9000;
  reasoning = "ssh logins";
  recommended_action = "block";
  escalate = true;
  model_primary = "cheap";
  model_final = "cheap";
  escalated_model = false;
  prompt_version = "triage-v1";
  input_tokens = 100;
  output_tokens = 20;
  cost_usd = 30;
  latency_ms = 900;
}

-- The second alert has two verdicts, the others have none.
abbrev verdicts : List VerdictRow
verdicts = verdict 11 1 ∷ verdict 12 1 ∷ []

abbrev db : Db
db = record {
  alerts =
      pending_row
      ∷ record pending_row { id = 1; fingerprint = "abd"; status = AlertStatus.triaged }
      ∷ record pending_row { id = 2; fingerprint = "abe" }
      ∷ [];
  verdicts = verdicts;
  tool_calls = [];
  next_id = 13;
}

latest_verdict-IsLatest_example : IsLatest columns 1 verdicts (latest_verdict columns 1 verdicts)
latest_verdict-IsLatest_example = latest_verdict-IsLatest columns 1 verdicts

abbrev filters : ListFilters
filters = record { severity_gte = none; category = none; escalate = none; since = some 1 }

-- Two alerts are received in time.
total : (list_alerts columns filters 1 1 db).1 ≤ 2
unfolding list_alerts base_rows matches latest_verdict
total = omega arith

abbrev base : List Joined
base = base_rows columns filters verdicts db.alerts

abbrev ordered : List Joined
ordered = order_rows columns base

list_alerts-pages_example :
    (list_pages columns filters 2 1 db ≡ map (alert_summary columns []) ordered)
    × Joins columns filters verdicts db.alerts base
    × Ordered columns ordered
    × (count_rows (λ j. true) ordered ≡ count_rows (λ j. true) base)
    × (length (list_alerts columns filters 1 1 db).0 ≤ 1)
list_alerts-pages_example = list_alerts-pages columns filters 2 1 db 1 (λ j. true) total

abbrev since : Since
since = record { aware = true; time = 0 }

-- The first alert is the one that asks.
abbrev others : List AlertRow
others = select_alerts columns "203.0.113.7" 0 (some "abc") db.alerts

get_alert_history-Selected_example :
    (h : AlertHistory) × (get_alert_history columns "203.0.113.7" since (some "abc") db ≡ ok h)
    × All (Selected columns "203.0.113.7" 0 (some "abc")) others
    × Picked columns (Selected columns "203.0.113.7" 0 (some "abc")) db.alerts others
    × (h.count ≡ length others)
    × (sum_to 7 h.categories ≡ count_judged columns verdicts others)
    × IsFirst columns h.first_seen others
get_alert_history-Selected_example =
    get_alert_history-Selected columns "203.0.113.7" since (some "abc") db refl

db-Sound : Sound db
db-Sound = record {
  fresh = (omega arith, (omega arith, (omega arith, tt)));
  unique = (
    ((λ e. absurd (omega (arith, e))), ((λ e. absurd (omega (arith, e))), tt)),
    (((λ e. absurd (omega (arith, e))), tt), (tt, tt)),
  );
  fresh_verdicts = (omega arith, (omega arith, tt));
  unique_verdicts = (((λ e. absurd (omega (arith, e))), tt), (tt, tt));
  triaged = (tt, (inl refl, (tt, tt)));
  verdicts = (inr (inl refl), (inr (inl refl), tt));
  tool_calls = tt;
}

abbrev stats : StatsOut
stats = get_stats columns none 1000 db

get_stats-agrees_example :
    (sum_of (λ v. v.count) stats.volume_by_day ≡ stats.total_alerts)
    × (stats.by_status AlertStatus.pending
          + stats.by_status AlertStatus.triaged
          + stats.by_status AlertStatus.failed
        ≡ stats.total_alerts)
    × (map volume_of stats.cost_by_day ≡ stats.volume_by_day)
    × (sum_of (λ d. d.cost_usd) stats.cost_by_day ≡ stats.cost_total_usd)
get_stats-agrees_example = get_stats-agrees columns none 1000 db db-Sound

percentile_disc-percentile_example :
    value_or_0 (percentile_disc 95 (900 ∷ 30 ∷ 400 ∷ []))
    ≡ value_or_0 (percentile (900 ∷ 30 ∷ 400 ∷ []) Percent.p95)
percentile_disc-percentile_example = percentile_disc-percentile Percent.p95 (900 ∷ 30 ∷ 400 ∷ [])
