-- ===== src/Pipeline/Seams.antt =====
-- worker/triage.py: what a pipeline is built from, and the state of one `run`.
use sentinel_brief.Prelude.{Text, ℕ, ◌+◌, String, Bool, Option, List, Result}
use sentinel_brief.Core.Errors.{Exn}
use sentinel_brief.Core.Llm.{
  ChatMessage, LlmResult, LlmError, ToolReply, ToolCallTurn, StructuredOutputError,
}
use sentinel_brief.Worker.Outcome.{ToolCallRecord}

pub record ToolExecution : Type 0 where
  pub result : Text
  pub latency_ms : ℕ

-- What lies outside the pipeline, over the states `W` of the outside world: the LLMClient of
-- core/llm.py, the Redis counter (`none` is a RedisError or an OSError; inside, `none` is a miss)
-- and `ToolRegistry.execute` of worker/tools/registry.py, whose only exceptions are those that it
-- lets through.
pub record Seams (W : Type 0) : Type 0 where
  pub complete_structured : List ChatMessage → String → W → Result LlmError LlmResult × W
  pub complete_with_tools : List ChatMessage → String → W → Result LlmError ToolReply × W
  pub redis_get : W → Option (Option ℕ) × W
  pub redis_incrby : ℕ → W → Option ℕ × W
  pub execute_tool : String → Text → W → Result Exn ToolExecution × W

-- The attributes of a `TriagePipeline`. `tools` holds the names of a registry, if there is one.
pub record Pipeline : Type 0 where
  pub model : String
  pub prompt_version : String
  pub tools : Option (List String)
  pub tool_loop_max_iter : ℕ
  pub strong_model : Option String
  pub escalate_severity_gte : ℕ
  pub escalate_confidence_lt : ℕ
  pub redis_wired : Bool
  pub daily_token_budget : ℕ

-- `Totals` of worker/triage.py.
pub record Totals : Type 0 where
  pub input_tokens : ℕ
  pub output_tokens : ℕ
  pub cost_usd : ℕ
  pub latency_ms : ℕ

abbrev pub zero_totals : Totals
zero_totals = record { input_tokens = 0; output_tokens = 0; cost_usd = 0; latency_ms = 0 }

unfoldable pub add_result : Totals → LlmResult → Totals
add_result t r = record {
  input_tokens = t.input_tokens + r.usage.input_tokens;
  output_tokens = t.output_tokens + r.usage.output_tokens;
  cost_usd = t.cost_usd + r.cost_usd;
  latency_ms = t.latency_ms + r.latency_ms;
}

unfoldable pub add_turn : Totals → ToolCallTurn → Totals
add_turn t r = record {
  input_tokens = t.input_tokens + r.usage.input_tokens;
  output_tokens = t.output_tokens + r.usage.output_tokens;
  cost_usd = t.cost_usd + r.cost_usd;
  latency_ms = t.latency_ms + r.latency_ms;
}

unfoldable pub add_error : Totals → StructuredOutputError → Totals
add_error t e = record {
  input_tokens = t.input_tokens + e.input_tokens;
  output_tokens = t.output_tokens + e.output_tokens;
  cost_usd = t.cost_usd + e.cost_usd;
  latency_ms = t.latency_ms + e.latency_ms;
}

-- The variables that the closures of `run` share, and the world.
pub record RunState (W : Type 0) : Type 0 where
  pub messages : List ChatMessage
  pub records : List ToolCallRecord
  pub totals : Totals
  pub world : W
