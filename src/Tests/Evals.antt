-- ===== src/Tests/Evals.antt =====
-- A small run of the evaluation: three cases, one of them failed.
use sentinel_brief.Prelude.{
  ◌⊎◌, sum_to, length-take, All-take, ◌∙◌, arith, ℕ, sym, not, ◌≤◌, ◌≡◌, refl, String, Bool, true,
  false, ◌==ₛ◌, min, none, some, List, [], ◌∷◌, length, take, All,
}
use sentinel_brief.Core.Verdict.{VerdictCategory}
use sentinel_brief.Evals.Cases.{GoldenLabel, CaseResult}
use sentinel_brief.Evals.Percentile.{Percent, percentile}
use sentinel_brief.Evals.Percentile.NearestRank.{IsNearestRank, percentile-IsNearestRank}
use sentinel_brief.Evals.Sample.{eligible, Candidate, Row, Rng, candidate_of, sample, excluded}
use sentinel_brief.Evals.Sample.Clamped.{Distinct, RngLaws, Chosen}
use sentinel_brief.Evals.Sample.Whole.{Admits}
use sentinel_brief.Evals.Sample.Full.{AllSelected, sample-Full}
use sentinel_brief.Evals.Scoring.{score}
use sentinel_brief.Evals.Scoring.Trace.{trace, score-trace}
use sentinel_brief.Evals.Tables.{rate, per_severity, confusion}
use sentinel_brief.Evals.Tables.Bands.{InBands, per_severity-confusion}
use sentinel_brief.Tests.{verdict_with}

abbrev label : ℕ → GoldenLabel
label severity = record {
  severity = severity;
  category = VerdictCategory.brute_force;
  escalate = false;
}

abbrev case : String → ℕ → CaseResult
case case_id severity = record {
  case_id = case_id;
  label = label severity;
  verdict = some (verdict_with 9000);
  cost_usd = 40;
  latency_ms = 900;
  escalated = false;
  judge = none;
  judge_cost_usd = 0;
  tags = [];
}

-- The verdicts have the severity 2.
abbrev results : List CaseResult
results = case "a" 2 ∷ case "b" 3 ∷ record (case "c" 1) { verdict = none } ∷ []

results-InBands : All InBands results
results-InBands = (
  ((omega arith, omega arith), (omega arith, omega arith)),
  (
    ((omega arith, omega arith), (omega arith, omega arith)),
    (((omega arith, omega arith), tt), tt),
  ),
)

score-trace_example :
    ((score results).severity_exact
      ≡ rate (trace 5 (score results).confusion) (score results).n_cases)
    × ((score results).category_accuracy
        ≡ rate (trace 7 (score results).category_confusion) (score results).n_cases)
    × ((score results).n_failed ≡ sum_to 5 (λ i. (score results).confusion i 5))
score-trace_example = score-trace results results-InBands

per_severity-confusion_example : per_severity results 2 ≡ record {
  precision = rate (confusion results 1 1) (sum_to 5 (λ k. confusion results k 1));
  recall = rate (confusion results 1 1) (sum_to 6 (confusion results 1));
  support = sum_to 6 (confusion results 1);
}
per_severity-confusion_example = per_severity-confusion results 1 results-InBands (omega arith)

percentile-IsNearestRank_example :
    (v : ℕ) × (percentile (900 ∷ 30 ∷ 400 ∷ []) Percent.p95 ≡ some v)
    × IsNearestRank v 95 (900 ∷ 30 ∷ 400 ∷ [])
percentile-IsNearestRank_example =
    percentile-IsNearestRank (900 ∷ 30 ∷ 400 ∷ []) Percent.p95 (omega arith)

-- A generator that draws the first members and leaves them in their order.
abbrev rng : Rng ℕ
rng = record { sample = λ cs k r. (take k cs, r); shuffle = λ cs r. (cs, r) }

min-left : (k n : ℕ) → k ≤ n → min k n ≡ k
min-left k n h = omega (arith, h)

rng-RngLaws : RngLaws rng
rng-RngLaws = record {
  length-sample = λ cs k r h. length-take k cs ∙ min-left k (length cs) h;
  sample-All = λ p cs k r h. All-take (λ c. p c ≡ true) k cs h;
  shuffle-All = λ p cs r h. h;
  count_id-shuffle = λ x cs r. refl;
}

abbrev row : String → Row
row fingerprint = record {
  alert_id = fingerprint;
  received_at = 1000;
  category = some "scanning";
  fingerprint = fingerprint;
  sensor = "hp1";
  injection_hint = false;
}

abbrev str_lt : String → String → Bool
str_lt a b = false

abbrev rows : List Row
rows = row "aa" ∷ row "bb" ∷ row "cc" ∷ []

abbrev not_aa : Candidate → Bool
not_aa c = not (c.case_id ==ₛ "aa")

rows-Admits : Admits not_aa ("aa" ∷ []) rows
unfolding excluded candidate_of
rows-Admits = (λ e. sym e, (λ e. refl, (λ e. refl, tt)))

apart : Distinct (eligible ("aa" ∷ []) rows)
unfolding eligible excluded candidate_of
apart = ((refl, tt), (tt, tt))

sample-Full_example :
    Chosen not_aa (sample rng str_lt 1 ("aa" ∷ []) rows 0)
    × (length (sample rng str_lt 1 ("aa" ∷ []) rows 0) ≤ 1)
    × ((length (sample rng str_lt 1 ("aa" ∷ []) rows 0) ≡ 1)
        ⊎ AllSelected (eligible ("aa" ∷ []) rows) (sample rng str_lt 1 ("aa" ∷ []) rows 0))
sample-Full_example =
    sample-Full rng rng-RngLaws str_lt not_aa 1 ("aa" ∷ []) rows 0 rows-Admits apart
