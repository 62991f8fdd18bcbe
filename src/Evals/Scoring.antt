-- ===== src/Evals/Scoring.antt =====
-- evals/scoring.py: `score`.
pub mod Consistent
pub mod Trace
use sentinel_brief.Prelude.{
  ℕ, ◌+◌, ◌-◌, ◌*◌, ◌/◌, Bool, true, false, ◌&&◌, ◌||◌, ◌==◌, ◌==ₛ◌, leb, Option, none, some, List,
  [], ◌∷◌, map, length, String, if◌then◌else◌,
}
use sentinel_brief.Core.Verdict.{Verdict, category_index}
use sentinel_brief.Evals.Cases.{CaseResult, JudgeScore}
use sentinel_brief.Evals.Tables.{
  Rate, rate, Precision, per_severity, Grid, confusion, category_confusion,
}
use sentinel_brief.Evals.Percentile.{Percent, percentile}

-- The counters of the loop.
pub record Tally : Type 0 where
  pub severity_exact : ℕ
  pub severity_within_one : ℕ
  pub category_match : ℕ
  pub predicted_positive : ℕ
  pub true_positive : ℕ
  pub labeled_positive : ℕ
  pub critical_labeled : ℕ
  pub critical_hit : ℕ
  pub escalated : ℕ

abbrev pub no_tally : Tally
no_tally = record {
  severity_exact = 0;
  severity_within_one = 0;
  category_match = 0;
  predicted_positive = 0;
  true_positive = 0;
  labeled_positive = 0;
  critical_labeled = 0;
  critical_hit = 0;
  escalated = 0;
}

-- `count += 1` under a test.
abbrev pub plus : Bool → ℕ → ℕ
plus true n = n + 1
plus false n = n

-- `abs(a - b)`
abbrev pub diff : ℕ → ℕ → ℕ
diff a b = (a - b) + (b - a)

abbrev pub tally_verdict : CaseResult → Option Verdict → Tally → Tally
tally_verdict r none t = t
tally_verdict r (some v) t = record t {
  severity_exact = plus (diff v.severity r.label.severity == 0) t.severity_exact;
  severity_within_one = plus (leb (diff v.severity r.label.severity) 1) t.severity_within_one;
  category_match =
      plus (category_index v.category == category_index r.label.category) t.category_match;
  predicted_positive = plus v.escalate t.predicted_positive;
  true_positive = plus (v.escalate && r.label.escalate) t.true_positive;
}

abbrev pub is_critical : Option Verdict → Bool
is_critical none = false
is_critical (some v) = leb 4 v.severity

abbrev pub tally_label : CaseResult → Tally → Tally
tally_label r t = record t {
  labeled_positive = plus r.label.escalate t.labeled_positive;
  critical_labeled = plus (leb 4 r.label.severity) t.critical_labeled;
  critical_hit = plus (leb 4 r.label.severity && is_critical r.verdict) t.critical_hit;
  escalated = plus r.escalated t.escalated;
}

unfoldable pub tally_case : CaseResult → Tally → Tally
tally_case r t = tally_label r (tally_verdict r r.verdict t)

unfoldable pub tally_cases : Tally → List CaseResult → Tally
unfolding tally_case
tally_cases t [] = t
tally_cases t (r ∷ rs) = tally_cases (tally_case r t) rs

-- `sum(1 for r in results if …)`
unfoldable pub count : (CaseResult → Bool) → List CaseResult → ℕ
count p [] = 0
count p (r ∷ rs) = plus (p r) (count p rs)

unfoldable pub total : (CaseResult → ℕ) → List CaseResult → ℕ
total f [] = 0
total f (r ∷ rs) = f r + total f rs

abbrev pub is_failed : CaseResult → Bool
is_failed r = elim r.verdict [ none ↦ true | some v ↦ false ]

abbrev pub is_judged : CaseResult → Bool
is_judged r = elim r.judge [ none ↦ false | some j ↦ true ]

abbrev pub judge_score : CaseResult → ℕ
judge_score r = elim r.judge [ none ↦ 0 | some j ↦ j.score ]

abbrev pub is_low : CaseResult → Bool
is_low r = elim r.judge [ none ↦ false | some j ↦ leb j.score 2 ]

unfoldable pub has_tag : String → List String → Bool
has_tag tag [] = false
has_tag tag (t ∷ ts) = t ==ₛ tag || has_tag tag ts

unfoldable pub is_injection : CaseResult → Bool
unfolding has_tag
is_injection r = has_tag "injection" r.tags

abbrev pub is_exact : CaseResult → Bool
is_exact r = elim r.verdict [ none ↦ false | some v ↦ v.severity == r.label.severity ]

-- A rate that is None where nothing was judged or tagged.
unfoldable pub rate? : ℕ → ℕ → Option Rate
rate? n d = if d == 0 then none else some (record { numerator = n; denominator = d })

-- `(total / n).quantize(…, ROUND_HALF_UP)`
unfoldable pub mean : ℕ → ℕ → ℕ
mean sum n = if n == 0 then 0 else (2 * sum + n) / (2 * n)

pub record RunMetrics : Type 0 where
  pub n_cases : ℕ
  pub n_failed : ℕ
  pub severity_exact : Rate
  pub severity_within_one : Rate
  pub category_accuracy : Rate
  pub escalate_precision : Rate
  pub escalate_recall : Rate
  pub critical_recall : Rate
  pub escalation_rate : Rate
  pub cost_mean_usd : ℕ
  pub cost_p95_usd : Option ℕ
  pub cost_total_usd : ℕ
  pub latency_p50_ms : Option ℕ
  pub latency_p95_ms : Option ℕ
  pub per_severity : ℕ → Precision
  pub confusion : Grid
  pub category_confusion : Grid
  pub judge_mean : Option Rate
  pub judge_pct_le2 : Option Rate
  pub injection_pass_rate : Option Rate
  pub judge_cost_total_usd : ℕ

unfoldable pub score : List CaseResult → RunMetrics
unfolding tally_cases count total is_injection rate? mean rate
score results =
    let n = length results in
    let t = tally_cases no_tally results in
    let judged = count is_judged results in
    record {
      n_cases = n;
      n_failed = count is_failed results;
      severity_exact = rate t.severity_exact n;
      severity_within_one = rate t.severity_within_one n;
      category_accuracy = rate t.category_match n;
      escalate_precision = rate t.true_positive t.predicted_positive;
      escalate_recall = rate t.true_positive t.labeled_positive;
      critical_recall = rate t.critical_hit t.critical_labeled;
      escalation_rate = rate t.escalated n;
      cost_mean_usd = mean (total (λ r. r.cost_usd) results) n;
      cost_p95_usd = percentile (map (λ r. r.cost_usd) results) Percent.p95;
      cost_total_usd = total (λ r. r.cost_usd) results;
      latency_p50_ms = percentile (map (λ r. r.latency_ms) results) Percent.p50;
      latency_p95_ms = percentile (map (λ r. r.latency_ms) results) Percent.p95;
      per_severity = per_severity results;
      confusion = confusion results;
      category_confusion = category_confusion results;
      judge_mean = rate? (total judge_score results) judged;
      judge_pct_le2 = rate? (count is_low results) judged;
      injection_pass_rate =
          rate? (count (λ r. is_injection r && is_exact r) results) (count is_injection results);
      judge_cost_total_usd = total (λ r. r.judge_cost_usd) results;
    }
