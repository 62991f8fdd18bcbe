-- ===== src/Core/Llm.antt =====
-- core/llm.py: the values that cross the seam to the LLM. `ℕ` stands for the integers; `cost_usd`
-- is a Decimal that `compute_cost_usd` rounds to six places, and is counted in millionths.
pub mod Cost
use sentinel_brief.Prelude.{ℕ, String, List, Text}
use sentinel_brief.Core.Errors.{Exn}
use sentinel_brief.Core.Verdict.{Verdict}

pub record LlmUsage : Type 0 where
  pub input_tokens : ℕ
  pub output_tokens : ℕ

pub record LlmResult : Type 0 where
  pub parsed : Verdict
  pub raw_text : Text
  pub model : String
  pub usage : LlmUsage
  pub cost_usd : ℕ
  pub latency_ms : ℕ

-- `arguments` is a JSON object that the pipeline only passes on, here by its serialization.
pub record ToolCallRequest : Type 0 where
  pub id : Text
  pub name : String
  pub arguments : Text

pub record ToolCallTurn : Type 0 where
  pub calls : List ToolCallRequest
  pub model : String
  pub usage : LlmUsage
  pub cost_usd : ℕ
  pub latency_ms : ℕ

-- The four roles of a `ChatMessage`; an assistant turn has content or tool calls.
pub data ChatMessage : Type 0 where
  system user assistant : Text → ChatMessage
  assistant_calls : List ToolCallRequest → ChatMessage
  tool : Text → Text → ChatMessage

unfoldable pub tool_calls_message : List ToolCallRequest → ChatMessage
tool_calls_message calls = ChatMessage.assistant_calls calls

-- The `StructuredOutputError` of core/errors.py, with what its handler reads.
pub record StructuredOutputError : Type 0 where
  pub raw_text : Text
  pub validation_error : Text
  pub input_tokens : ℕ
  pub output_tokens : ℕ
  pub cost_usd : ℕ
  pub latency_ms : ℕ

-- How a call of `LLMClient` fails.
pub data LlmError : Type 0 where
  structured_output : StructuredOutputError → LlmError
  raised : Exn → LlmError

-- What `complete_with_tools` returns.
pub data ToolReply : Type 0 where
  answer : LlmResult → ToolReply
  tool_turn : ToolCallTurn → ToolReply
