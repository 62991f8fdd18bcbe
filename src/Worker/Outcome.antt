-- ===== src/Worker/Outcome.antt =====
-- worker/outcome.py: the result of one run, with its billing and its trace of tool calls.
use Prim.Native.String.{String}
use sentinel_brief.Prelude.{Text, ℕ, Bool, Option, none, some, List, ◌==ₛ◌, if◌then◌else◌}
use sentinel_brief.Core.Verdict.{Verdict}

pub record ToolCallRecord : Type 0 where
  pub seq : ℕ
  pub tool_name : String
  pub arguments : Text
  pub result : Text
  pub latency_ms : ℕ

pub record TriageOutcome : Type 0 where
  pub verdict : Verdict
  pub model : String
  pub prompt_version : String
  pub input_tokens : ℕ
  pub output_tokens : ℕ
  pub cost_usd : ℕ
  pub latency_ms : ℕ
  pub retried : Bool
  pub tool_calls : List ToolCallRecord
  pub model_primary : Option String
  pub escalated_model : Bool

-- `self.model_primary or self.model`: an empty text counts as none.
abbrev primary_or : Option String → String → String
primary_or none model = model
primary_or (some primary) model = if primary ==ₛ "" then model else primary

unfoldable pub effective_model_primary : TriageOutcome → String
effective_model_primary o = primary_or o.model_primary o.model
