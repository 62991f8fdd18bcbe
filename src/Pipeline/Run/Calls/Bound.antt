-- ===== src/Pipeline/Run/Calls/Bound.antt =====
-- worker/triage.py: one run makes a bounded number of LLM calls.
use sentinel_brief.Prelude.{
  ℕ, zero, suc, ◌+◌, ◌≤◌, String, Bool, true, false, Option, none, some, List, [], ◌∷◌, Result, ok,
  err, arith,
}
use sentinel_brief.Core.Llm.{
  ChatMessage, LlmUsage, LlmResult, ToolReply, ToolCallTurn, ToolCallRequest, StructuredOutputError,
}
use sentinel_brief.Action.{Action, modify, ◌>>=◌}
use sentinel_brief.Worker.Outcome.{ToolCallRecord, TriageOutcome}
use sentinel_brief.Pipeline.Run.Calls.{
  IsCallMeter, AtMost, call_rules, pure-AtMost, gets-AtMost, if-AtMost, bind-AtMost, sum-AtMost,
  weaken-AtMost,
}
use sentinel_brief.Pipeline.Seams.{Seams, Pipeline, RunState, Totals}
use sentinel_brief.Pipeline.Budget.{
  read_tokens_today, check_and_would_exceed, check_budget, record_tokens, record_usage,
}
use sentinel_brief.Pipeline.Run.{
  ask, ask_with_tools, second_reply, first_reply, loop_reply, append_message, has_tools, route,
  outcome, answered, retry_once, final, execute, run_calls, tool_calls_turn, tool_loop, cheap_pass,
  strong_pass, run,
}

module _ {W : Type 0} (seams : Seams W) (cfg : Pipeline) (count : W → ℕ)
    (meter : IsCallMeter seams count) where
  read-AtMost : AtMost count 0 (read_tokens_today seams cfg)
  unfolding read_tokens_today
  read-AtMost = record { at = λ s. omega (arith, meter.get s.world) }

  exceed-AtMost : (budget n : ℕ) → AtMost count 0 (check_and_would_exceed seams cfg budget n)
  unfolding check_and_would_exceed
  exceed-AtMost budget n = search (call_rules, read-AtMost)

  check_budget-AtMost : AtMost count 0 (check_budget seams cfg)
  unfolding check_budget
  check_budget-AtMost = search (call_rules, read-AtMost, exceed-AtMost)

  record_tokens-AtMost : (n : ℕ) → AtMost count 0 (record_tokens seams cfg n)
  unfolding record_tokens
  record_tokens-AtMost n = record { at = λ s. ground (arith, meter.incrby n s.world) }

  record_usage-AtMost : (usage : LlmUsage) → AtMost count 0 (record_usage seams cfg usage)
  unfolding record_usage
  record_usage-AtMost usage = search (call_rules, record_tokens-AtMost)

  ask-AtMost :
      (msgs : List ChatMessage) (model : String) → AtMost count 1 (ask seams cfg msgs model)
  unfolding ask
  ask-AtMost msgs model = record { at = λ s. omega (arith, meter.structured msgs model s.world) }

  ask_with_tools-AtMost : AtMost count 1 (ask_with_tools seams cfg)
  unfolding ask_with_tools
  ask_with_tools-AtMost = record {
    at = λ s. omega (arith, meter.with_tools s.messages cfg.model s.world);
  }

  outcome-AtMost :
      (k : ℕ) (r : LlmResult) (model : String) (b : Bool)
      → AtMost count k (outcome seams cfg r model b)
  unfolding outcome
  outcome-AtMost k r model b = record { at = λ s. omega arith }

  modify_totals-AtMost :
      (f : RunState W → Totals) → AtMost count 0 (modify (λ s. record s { totals = f s }))
  unfolding ◌>>=◌
  modify_totals-AtMost f = record { at = λ s. omega arith }

  answered-AtMost :
      (k : ℕ) (r : LlmResult) (model : String) (b : Bool)
      → AtMost count k (answered seams cfg r model b)
  unfolding answered
  answered-AtMost k r model b = search (call_rules, record_usage-AtMost, outcome-AtMost)

  second_reply-AtMost :
      (k : ℕ) (model : String) (r : Result StructuredOutputError LlmResult)
      → AtMost count k (second_reply seams cfg model r)
  second_reply-AtMost k model (ok r) = answered-AtMost k r model true
  second_reply-AtMost k model (err e) = search call_rules

  retry_once-AtMost :
      (msgs : List ChatMessage) (e : StructuredOutputError) (model : String)
      → AtMost count 1 (retry_once seams cfg msgs e model)
  unfolding retry_once
  retry_once-AtMost msgs e model =
      search
        (call_rules, modify_totals-AtMost, check_budget-AtMost, ask-AtMost, second_reply-AtMost)

  first_reply-AtMost :
      (msgs : List ChatMessage) (model : String) (r : Result StructuredOutputError LlmResult)
      → AtMost count 1 (first_reply seams cfg msgs model r)
  first_reply-AtMost msgs model (ok r) = answered-AtMost 1 r model false
  first_reply-AtMost msgs model (err e) = retry_once-AtMost msgs e model

  -- A call without tools and its retry.
  final-AtMost :
      (msgs : List ChatMessage) (model : String) → AtMost count 2 (final seams cfg msgs model)
  unfolding final
  final-AtMost msgs model = search (call_rules, check_budget-AtMost, ask-AtMost, first_reply-AtMost)

  execute-AtMost : (call : ToolCallRequest) → AtMost count 0 (execute seams cfg call)
  unfolding execute
  execute-AtMost call = record {
    at = λ s. omega (arith, meter.tool call.name call.arguments s.world);
  }

  modify_records-AtMost :
      (f : RunState W → List ToolCallRecord)
      → AtMost count 0 (modify (λ s. record s { records = f s }))
  unfolding ◌>>=◌
  modify_records-AtMost f = record { at = λ s. omega arith }

  append_message-AtMost : (m : ChatMessage) → AtMost count 0 (append_message m)
  unfolding ◌>>=◌
  append_message-AtMost m = record { at = λ s. omega arith }

  run_calls-AtMost :
      (calls : List ToolCallRequest) (seq : ℕ) → AtMost count 0 (run_calls seams cfg calls seq)
  unfolding run_calls
  run_calls-AtMost [] seq = search call_rules
  run_calls-AtMost (call ∷ calls) seq = search (
    call_rules,
    execute-AtMost,
    modify_records-AtMost,
    append_message-AtMost,
    run_calls-AtMost calls,
  )

  tool_calls_turn-AtMost :
      (turn : ToolCallTurn) (seq : ℕ) → AtMost count 0 (tool_calls_turn seams cfg turn seq)
  unfolding tool_calls_turn
  tool_calls_turn-AtMost turn seq =
      search (call_rules, modify_totals-AtMost, append_message-AtMost, run_calls-AtMost)

  loop_reply-AtMost :
      (k : ℕ) (go : ℕ → Action (RunState W) TriageOutcome) (seq : ℕ)
      (r : Result StructuredOutputError ToolReply)
      → ((seq' : ℕ) → AtMost count (suc k) (go seq'))
      → AtMost count (suc k) (loop_reply seams cfg go seq r)
  loop_reply-AtMost k go seq (err e) h =
      bind-AtMost (suc k) _ _ (gets-AtMost 0 _)
        (λ msgs. weaken-AtMost 1 (suc k) _ (omega arith) (retry_once-AtMost msgs e cfg.model))
  loop_reply-AtMost k go seq (ok (ToolReply.answer r)) h = answered-AtMost (suc k) r cfg.model false
  loop_reply-AtMost k go seq (ok (ToolReply.tool_turn turn)) h =
      search (call_rules, record_usage-AtMost, tool_calls_turn-AtMost, h)

  -- The turns left, and then the forced call and its retry.
  tool_loop-AtMost :
      (turns seq : ℕ) → AtMost count (suc (suc turns)) (tool_loop seams cfg turns seq)
  unfolding tool_loop
  tool_loop-AtMost zero seq = search (call_rules, append_message-AtMost, final-AtMost)
  tool_loop-AtMost (suc turns) seq = search (
    call_rules,
    check_budget-AtMost,
    ask_with_tools-AtMost,
    loop_reply-AtMost (suc turns) (tool_loop seams cfg turns) seq,
    tool_loop-AtMost turns,
  )

  cheap_pass-AtMost : AtMost count (cfg.tool_loop_max_iter + 2) (cheap_pass seams cfg)
  unfolding cheap_pass
  cheap_pass-AtMost =
      if-AtMost (cfg.tool_loop_max_iter + 2) (has_tools cfg.tools) _ _
        (weaken-AtMost (suc (suc cfg.tool_loop_max_iter)) (cfg.tool_loop_max_iter + 2) _
          (omega arith) (tool_loop-AtMost cfg.tool_loop_max_iter 0))
        (bind-AtMost (cfg.tool_loop_max_iter + 2) _ _ (gets-AtMost 0 _) (λ msgs.
          weaken-AtMost 2 (cfg.tool_loop_max_iter + 2) _ (omega arith)
            (final-AtMost msgs cfg.model)))

  strong_pass-AtMost :
      (cheap : TriageOutcome) (strong : String)
      → AtMost count 2 (strong_pass seams cfg cheap strong)
  unfolding strong_pass
  strong_pass-AtMost cheap strong = bind-AtMost 2 _ _ (modify_totals-AtMost _) (λ _.
      bind-AtMost 2 _ _ (gets-AtMost 0 _)
        (λ msgs. sum-AtMost 2 0 _ _ (final-AtMost msgs strong) (λ o. pure-AtMost 0 _)))

  route-AtMost :
      (strong : Option String) (cheap : TriageOutcome)
      → AtMost count 2 (route seams cfg strong cheap)
  route-AtMost none cheap = pure-AtMost 2 cheap
  route-AtMost (some strong) cheap =
      if-AtMost 2 _ _ _ (strong_pass-AtMost cheap strong) (pure-AtMost 2 cheap)

  -- From every state, one run makes at most `tool_loop_max_iter + 4` LLM calls, however it ends:
  -- the tool turns, the forced verdict, the strong verdict and a retry of each.
  pub run_calls_bound :
      (s : RunState W)
      → count (run seams cfg s).1.world ≤ count s.world + (cfg.tool_loop_max_iter + 4)
  unfolding run
  run_calls_bound s = omega (
    arith,
    (sum-AtMost (cfg.tool_loop_max_iter + 2) 2 _ _ cheap_pass-AtMost
          (route-AtMost cfg.strong_model)).at
        s,
  )
