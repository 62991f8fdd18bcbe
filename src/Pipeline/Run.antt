-- ===== src/Pipeline/Run.antt =====
-- worker/triage.py: `TriagePipeline.run`, with each of its closures as a function.
pub mod Exhausted
pub mod Calls
pub mod Billing
pub mod Shape
use sentinel_brief.Prelude.{
  Text, codes, ℕ, zero, suc, ◌+◌, String, Bool, true, false, ◌||◌, Option, none, some, List, [],
  ◌∷◌, ◌++◌, Result, ok, err, if◌then◌else◌,
}
use sentinel_brief.Core.Errors.{Exn}
use sentinel_brief.Core.Llm.{
  ChatMessage, LlmResult, LlmError, ToolReply, ToolCallTurn, ToolCallRequest, StructuredOutputError,
  tool_calls_message,
}
use sentinel_brief.Action.{Action, pure, raise, gets, modify, ◌>>=◌, ◌>>◌}
use sentinel_brief.Worker.Outcome.{TriageOutcome}
use sentinel_brief.Worker.Prompts.{build_tool_result_message}
use sentinel_brief.Worker.Routing.{should_escalate}
use sentinel_brief.Pipeline.Budget.{check_budget, record_usage}
use sentinel_brief.Pipeline.Seams.{
  Seams, Pipeline, RunState, ToolExecution, Totals, add_result, add_turn, add_error,
}

-- `RETRY_INSTRUCTION.format(error=…)`
unfoldable pub retry_instruction : Text → Text
retry_instruction error =
    codes "Your previous reply failed validation: "
    ++ (error
        ++ codes "\nReply with ONLY a JSON object that matches the schema in the system message.")

unfoldable pub final_verdict_instruction : Text
final_verdict_instruction =
    codes
      "The tool budget is exhausted. Using only the evidence already gathered, reply with ONLY a JSON object that matches the schema in the system message."

-- An exception passes through; a StructuredOutputError comes back as a value, for the handler.
abbrev pub caught : {A : Type 0} → Result LlmError A → Result Exn (Result StructuredOutputError A)
caught (ok a) = ok (ok a)
caught (err (LlmError.structured_output e)) = ok (err e)
caught (err (LlmError.raised e)) = err e

abbrev pub retry_messages : List ChatMessage → StructuredOutputError → List ChatMessage
retry_messages msgs first_err =
    msgs
    ++ (ChatMessage.assistant first_err.raw_text
        ∷ ChatMessage.user (retry_instruction first_err.validation_error)
        ∷ [])

abbrev pub append_message : {W : Type 0} → ChatMessage → Action (RunState W) (Unit {0})
append_message m = modify (λ s. record s { messages = s.messages ++ (m ∷ []) })

abbrev pub has_tools : Option (List String) → Bool
has_tools none = false
has_tools (some []) = false
has_tools (some (name ∷ names)) = true

-- The totals of an outcome, from which the strong pass goes on.
abbrev pub seeded : TriageOutcome → Totals
seeded cheap = record {
  input_tokens = cheap.input_tokens;
  output_tokens = cheap.output_tokens;
  cost_usd = cheap.cost_usd;
  latency_ms = cheap.latency_ms;
}

module _ {W : Type 0} (seams : Seams W) (cfg : Pipeline) where
  unfoldable pub ask :
      List ChatMessage → String → Action (RunState W) (Result StructuredOutputError LlmResult)
  ask msgs model s =
      let (r, w) = seams.complete_structured msgs model s.world in
      (caught r, record s { world = w })

  unfoldable pub ask_with_tools : Action (RunState W) (Result StructuredOutputError ToolReply)
  ask_with_tools s =
      let (r, w) = seams.complete_with_tools s.messages cfg.model s.world in
      (caught r, record s { world = w })

  -- `_outcome`: the result added to the running totals.
  unfoldable pub outcome : LlmResult → String → Bool → Action (RunState W) TriageOutcome
  outcome result model retried s =
      let merged = add_result s.totals result in
      (
        ok (record {
          verdict = result.parsed;
          model = model;
          prompt_version = cfg.prompt_version;
          input_tokens = merged.input_tokens;
          output_tokens = merged.output_tokens;
          cost_usd = merged.cost_usd;
          latency_ms = merged.latency_ms;
          retried = retried;
          tool_calls = s.records;
          model_primary = none;
          escalated_model = false;
        }),
        s,
      )

  -- After a call that returned: record its usage and build the outcome.
  unfoldable pub answered : LlmResult → String → Bool → Action (RunState W) TriageOutcome
  answered result model retried = do
    record_usage seams cfg result.usage
    outcome result model retried

  abbrev second_reply :
      String → Result StructuredOutputError LlmResult → Action (RunState W) TriageOutcome
  second_reply model (ok result) = answered result model true
  second_reply model (err second_err) = raise (Exn.verdict_validation 2 second_err.validation_error)

  -- `_retry_once`: always without tools.
  unfoldable pub retry_once :
      List ChatMessage → StructuredOutputError → String → Action (RunState W) TriageOutcome
  retry_once msgs first_err model = do
    modify (λ s. record s { totals = add_error s.totals first_err })
    check_budget seams cfg
    reply ← ask (retry_messages msgs first_err) model
    second_reply model reply

  abbrev first_reply :
      List ChatMessage
      → String
      → Result StructuredOutputError LlmResult
      → Action (RunState W) TriageOutcome
  first_reply msgs model (ok result) = answered result model false
  first_reply msgs model (err first_err) = retry_once msgs first_err model

  -- `_final`: one call without tools, retried once on a StructuredOutputError.
  unfoldable pub final : List ChatMessage → String → Action (RunState W) TriageOutcome
  final msgs model = do check_budget seams cfg; reply ← ask msgs model; first_reply msgs model reply

  unfoldable pub execute : ToolCallRequest → Action (RunState W) ToolExecution
  execute call s =
      let (r, w) = seams.execute_tool call.name call.arguments s.world in
      (r, record s { world = w })

  -- The loop over the calls of one turn; it returns the next `seq`.
  unfoldable pub run_calls : List ToolCallRequest → ℕ → Action (RunState W) ℕ
  run_calls [] seq = pure seq
  run_calls (call ∷ calls) seq = do
    execution ← execute call
    modify (λ s. record s {
      records =
          s.records
          ++ (record {
            seq = seq;
            tool_name = call.name;
            arguments = call.arguments;
            result = execution.result;
            latency_ms = execution.latency_ms;
          }
              ∷ []);
    })
    append_message (build_tool_result_message call.id execution.result)
    run_calls calls (seq + 1)

  -- One turn that asked for tools.
  unfoldable pub tool_calls_turn : ToolCallTurn → ℕ → Action (RunState W) ℕ
  tool_calls_turn turn seq = do
    modify (λ s. record s { totals = add_turn s.totals turn })
    append_message (tool_calls_message turn.calls)
    run_calls turn.calls seq

  -- What the loop does with a reply; `continue` runs the turns that are left.
  abbrev loop_reply :
      (ℕ → Action (RunState W) TriageOutcome)
      → ℕ
      → Result StructuredOutputError ToolReply
      → Action (RunState W) TriageOutcome
  loop_reply continue seq (err first_err) = do
    msgs ← gets (λ s. s.messages)
    retry_once msgs first_err cfg.model
  loop_reply continue seq (ok (ToolReply.answer result)) = answered result cfg.model false
  loop_reply continue seq (ok (ToolReply.tool_turn turn)) = do
    record_usage seams cfg turn.usage
    seq' ← tool_calls_turn turn seq
    continue seq'

  -- The loop of `_cheap_pass` with the number of turns left, and its end at the cap.
  unfoldable pub tool_loop : ℕ → ℕ → Action (RunState W) TriageOutcome
  tool_loop zero seq = do
    append_message (ChatMessage.user final_verdict_instruction)
    msgs ← gets (λ s. s.messages)
    final msgs cfg.model
  tool_loop (suc turns) seq = do
    check_budget seams cfg
    reply ← ask_with_tools
    loop_reply (tool_loop turns) seq reply

  -- `_cheap_pass`
  unfoldable pub cheap_pass : Action (RunState W) TriageOutcome
  cheap_pass =
      if has_tools cfg.tools
      then tool_loop cfg.tool_loop_max_iter 0
      else do msgs ← gets (λ s. s.messages); final msgs cfg.model

  -- `replace(strong, …)` at the end of `run`.
  abbrev pub escalated_outcome : TriageOutcome → String → TriageOutcome → TriageOutcome
  escalated_outcome cheap strong_model strong = record strong {
    model = strong_model;
    model_primary = some cfg.model;
    escalated_model = true;
    retried = cheap.retried || strong.retried;
    tool_calls = cheap.tool_calls;
  }

  -- The strong pass over the cheap conversation as it stands.
  unfoldable pub strong_pass : TriageOutcome → String → Action (RunState W) TriageOutcome
  strong_pass cheap strong_model = do
    modify (λ s. record s { totals = seeded cheap })
    msgs ← gets (λ s. s.messages)
    strong ← final msgs strong_model
    pure (escalated_outcome cheap strong_model strong)

  abbrev pub route : Option String → TriageOutcome → Action (RunState W) TriageOutcome
  route none cheap = pure cheap
  route (some strong_model) cheap =
      if (should_escalate cheap.verdict cfg.escalate_severity_gte
        cfg.escalate_confidence_lt).escalate
      then strong_pass cheap strong_model
      else pure cheap

  -- `run`, from the state with the first messages, no records and zero totals.
  unfoldable pub run : Action (RunState W) TriageOutcome
  run = do cheap ← cheap_pass; route cfg.strong_model cheap
