-- ===== src/Evals/Cases.antt =====
-- evals/golden and the case of evals/scoring.py: a golden label and what the run made of it. A
-- digest or a note that no score reads is left out.
use sentinel_brief.Prelude.{ℕ, String, Bool, Option, List, not, ◌&&◌, leb}
use sentinel_brief.Core.Verdict.{VerdictCategory, Verdict}

pub record GoldenLabel : Type 0 where
  pub severity : ℕ
  pub category : VerdictCategory
  pub escalate : Bool

-- The field constraint and the model validator of a label.
unfoldable pub is_valid_label : GoldenLabel → Bool
is_valid_label l = leb 1 l.severity && leb l.severity 5 && not (leb 4 l.severity && not l.escalate)

pub record JudgeScore : Type 0 where
  pub score : ℕ
  pub cites_evidence : Bool
  pub fabrication : Bool

-- A cost is counted in millionths of a dollar.
pub record CaseResult : Type 0 where
  pub case_id : String
  pub label : GoldenLabel
  pub verdict : Option Verdict
  pub cost_usd : ℕ
  pub latency_ms : ℕ
  pub escalated : Bool
  pub judge : Option JudgeScore
  pub judge_cost_usd : ℕ
  pub tags : List String
