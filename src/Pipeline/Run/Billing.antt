-- ===== src/Pipeline/Run/Billing.antt =====
-- worker/triage.py: the totals of an outcome are what its LLM calls were billed.
pub mod Kept
pub mod Total
use sentinel_brief.Prelude.{
  Text, not, ◌||◌, ◌==◌, ℕ, zero, suc, ◌+◌, ◌≡◌, refl, String, Bool, true, false, Option, none,
  some, List, [], ◌∷◌, Result, ok, err, arith, if◌then◌else◌,
}
use sentinel_brief.Core.Errors.{Exn}
use sentinel_brief.Core.Llm.{
  ChatMessage, LlmUsage, LlmResult, LlmError, ToolReply, ToolCallTurn, ToolCallRequest,
  StructuredOutputError,
}
use sentinel_brief.Action.{Action, pure, raise, gets, modify, ◌>>=◌, ◌>>◌}
use sentinel_brief.Action.Meets.{
  Meets, meets_rules, Returns, pure-Meets, raise-Meets, gets-Meets, if-Meets, modify-Meets,
  bind-Meets, Meets-returns,
}
use sentinel_brief.Worker.Outcome.{ToolCallRecord, TriageOutcome}
use sentinel_brief.Worker.Routing.{should_escalate}
use sentinel_brief.Pipeline.Seams.{
  Seams, Pipeline, RunState, ToolExecution, Totals, zero_totals, add_result, add_turn, add_error,
}
use sentinel_brief.Pipeline.Budget.{
  read_tokens_today, check_and_would_exceed, check_budget, recorded, record_tokens, record_usage,
}
use sentinel_brief.Pipeline.Run.{
  caught, ask, ask_with_tools, second_reply, first_reply, loop_reply, append_message, has_tools,
  route, seeded, outcome, answered, retry_once, final, execute, run_calls, tool_calls_turn,
  tool_loop, cheap_pass, strong_pass, run,
}

-- A bill with these tokens, this cost and this latency more.
abbrev pub billed_more : ℕ → ℕ → ℕ → ℕ → Totals → Totals
billed_more input_tokens output_tokens cost_usd latency_ms t = record {
  input_tokens = t.input_tokens + input_tokens;
  output_tokens = t.output_tokens + output_tokens;
  cost_usd = t.cost_usd + cost_usd;
  latency_ms = t.latency_ms + latency_ms;
}

abbrev pub charge_result : LlmResult → Totals → Totals
charge_result r = billed_more r.usage.input_tokens r.usage.output_tokens r.cost_usd r.latency_ms

abbrev pub charge_turn : ToolCallTurn → Totals → Totals
charge_turn r = billed_more r.usage.input_tokens r.usage.output_tokens r.cost_usd r.latency_ms

abbrev pub charge_error : StructuredOutputError → Totals → Totals
charge_error e = billed_more e.input_tokens e.output_tokens e.cost_usd e.latency_ms

-- What one call is billed: a reply that fails to validate is billed like one that does.
abbrev pub charge : Result LlmError LlmResult → Totals → Totals
charge (ok r) t = charge_result r t
charge (err (LlmError.structured_output e)) t = charge_error e t
charge (err (LlmError.raised e)) t = t

abbrev pub charge_tools : Result LlmError ToolReply → Totals → Totals
charge_tools (ok (ToolReply.answer r)) t = charge_result r t
charge_tools (ok (ToolReply.tool_turn turn)) t = charge_turn turn t
charge_tools (err (LlmError.structured_output e)) t = charge_error e t
charge_tools (err (LlmError.raised e)) t = t

-- `billed` is the bill of the LLM client in a state of the world.
pub record IsBill {W : Type 0} (seams : Seams W) (billed : W → Totals) : Type 0 where
  pub structured :
      (msgs : List ChatMessage) (model : String) (w : W)
      → let (r, w') = seams.complete_structured msgs model w in billed w' ≡ charge r (billed w)
  pub with_tools :
      (msgs : List ChatMessage) (model : String) (w : W)
      → let (r, w') = seams.complete_with_tools msgs model w in
        billed w' ≡ charge_tools r (billed w)
  pub get : (w : W) → billed (seams.redis_get w).1 ≡ billed w
  pub incrby : (n : ℕ) (w : W) → billed (seams.redis_incrby n w).1 ≡ billed w
  pub tool :
      (name : String) (args : Text) (w : W) → billed (seams.execute_tool name args w).1 ≡ billed w

abbrev pub plus : Totals → Totals → Totals
plus a b = record {
  input_tokens = a.input_tokens + b.input_tokens;
  output_tokens = a.output_tokens + b.output_tokens;
  cost_usd = a.cost_usd + b.cost_usd;
  latency_ms = a.latency_ms + b.latency_ms;
}

pub plus-zero : (a : Totals) → a ≡ plus a zero_totals
plus-zero a = ground arith

pub plus-add_result :
    (a b : Totals) (r : LlmResult) → charge_result r (plus a b) ≡ plus a (add_result b r)
unfolding add_result
plus-add_result a b r = ground arith

pub plus-add_turn :
    (a b : Totals) (r : ToolCallTurn) → charge_turn r (plus a b) ≡ plus a (add_turn b r)
unfolding add_turn
plus-add_turn a b r = ground arith

pub plus-add_error :
    (a b : Totals) (e : StructuredOutputError) → charge_error e (plus a b) ≡ plus a (add_error b e)
unfolding add_error
plus-add_error a b e = ground arith
