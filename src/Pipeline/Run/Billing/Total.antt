-- ===== src/Pipeline/Run/Billing/Total.antt =====
-- worker/triage.py: the totals of an outcome are what its LLM calls were billed.
use sentinel_brief.Prelude.{
  ℕ, zero, suc, ◌≡◌, String, Bool, true, false, Option, none, some, List, Result, ok, err,
}
use sentinel_brief.Core.Llm.{
  ChatMessage, LlmResult, LlmError, ToolReply, ToolCallTurn, StructuredOutputError,
}
use sentinel_brief.Action.{Action, pure, gets, modify, ◌>>=◌}
use sentinel_brief.Action.Meets.{
  Meets, Returns, pure-Meets, raise-Meets, gets-Meets, if-Meets, modify-Meets, bind-Meets,
  Meets-returns,
}
use sentinel_brief.Worker.Outcome.{TriageOutcome}
use sentinel_brief.Worker.Routing.{should_escalate}
use sentinel_brief.Pipeline.Seams.{
  Seams, Pipeline, RunState, Totals, zero_totals, add_result, add_turn, add_error,
}
use sentinel_brief.Pipeline.Budget.{check_budget, record_usage}
use sentinel_brief.Pipeline.Run.{
  caught, ask, ask_with_tools, second_reply, first_reply, loop_reply, has_tools, route, seeded,
  outcome, answered, retry_once, final, tool_calls_turn, tool_loop, cheap_pass, strong_pass, run,
}
use sentinel_brief.Pipeline.Run.Billing.{
  charge, charge_tools, IsBill, plus, plus-zero, plus-add_result, plus-add_turn, plus-add_error,
}
use sentinel_brief.Pipeline.Run.Billing.Kept.{
  check_budget-Meets, record_usage-Meets, append_message-Meets, run_calls-Meets,
}

module _ {W : Type 0} (seams : Seams W) (cfg : Pipeline) (billed : W → Totals)
    (bill : IsBill seams billed) (base : Totals) where
  -- The running totals are what has been billed since the bill was `base`.
  abbrev Tracked : RunState W → Type 0
  Tracked s = billed s.world ≡ plus base s.totals

  abbrev Settled : TriageOutcome → RunState W → Type 0
  Settled o s = billed s.world ≡ plus base (seeded o)

  -- A reply that is not in the totals yet.
  abbrev Owed : Result StructuredOutputError LlmResult → RunState W → Type 0
  Owed (ok r) s = billed s.world ≡ plus base (add_result s.totals r)
  Owed (err e) s = billed s.world ≡ plus base (add_error s.totals e)

  abbrev OwedTools : Result StructuredOutputError ToolReply → RunState W → Type 0
  OwedTools (ok (ToolReply.answer r)) s = billed s.world ≡ plus base (add_result s.totals r)
  OwedTools (ok (ToolReply.tool_turn r)) s = billed s.world ≡ plus base (add_turn s.totals r)
  OwedTools (err e) s = billed s.world ≡ plus base (add_error s.totals e)

  outcome-Meets :
      (r : LlmResult) (model : String) (b : Bool)
      → Meets (Owed (ok r)) (outcome seams cfg r model b) Settled
  unfolding outcome
  outcome-Meets r model b = record { at = λ s h. h }

  answered-Meets :
      (r : LlmResult) (model : String) (b : Bool)
      → Meets (Owed (ok r)) (answered seams cfg r model b) Settled
  unfolding answered
  answered-Meets r model b =
      bind-Meets (record_usage seams cfg r.usage) (λ _. outcome seams cfg r model b)
        (record_usage-Meets seams cfg billed bill (λ x t. x ≡ plus base (add_result t r)) r.usage)
        (λ _. outcome-Meets r model b)

  second_reply-Meets :
      (model : String) (r : Result StructuredOutputError LlmResult)
      → Meets (Owed r) (second_reply seams cfg model r) Settled
  second_reply-Meets model (ok r) = answered-Meets r model true
  second_reply-Meets model (err e) = raise-Meets _

  ask-Meets :
      (msgs : List ChatMessage) (model : String) → Meets Tracked (ask seams cfg msgs model) Owed
  unfolding ask
  ask-Meets msgs model = record {
    at = λ s h.
        let (r, w) = seams.complete_structured msgs model s.world in
        owes s r w h (bill.structured msgs model s.world);
  }
    where
      owes :
          (s : RunState W) (r : Result LlmError LlmResult) (w : W)
          → Tracked s
          → billed w ≡ charge r (billed s.world)
          → Returns Owed (caught r, record s { world = w })
      owes s (ok r) w h e = rw e (rw h (plus-add_result base s.totals r))
      owes s (err (LlmError.structured_output x)) w h e =
          rw e (rw h (plus-add_error base s.totals x))
      owes s (err (LlmError.raised x)) w h e = tt

  ask_with_tools-Meets : Meets Tracked (ask_with_tools seams cfg) OwedTools
  unfolding ask_with_tools
  ask_with_tools-Meets = record {
    at = λ s h.
        let (r, w) = seams.complete_with_tools s.messages cfg.model s.world in
        owes s r w h (bill.with_tools s.messages cfg.model s.world);
  }
    where
      owes :
          (s : RunState W) (r : Result LlmError ToolReply) (w : W)
          → Tracked s
          → billed w ≡ charge_tools r (billed s.world)
          → Returns OwedTools (caught r, record s { world = w })
      owes s (ok (ToolReply.answer r)) w h e = rw e (rw h (plus-add_result base s.totals r))
      owes s (ok (ToolReply.tool_turn r)) w h e = rw e (rw h (plus-add_turn base s.totals r))
      owes s (err (LlmError.structured_output x)) w h e =
          rw e (rw h (plus-add_error base s.totals x))
      owes s (err (LlmError.raised x)) w h e = tt

  Tracked-check : Meets Tracked (check_budget seams cfg) (λ _. Tracked)
  Tracked-check = check_budget-Meets seams cfg billed bill (λ x t. x ≡ plus base t)

  add_error-Meets :
      (e : StructuredOutputError)
      → Meets
          (Owed (err e))
          (modify (λ s. record s { totals = add_error s.totals e }))
          (λ _. Tracked)
  add_error-Meets e = modify-Meets _ (λ s h. h)

  retry_once-Meets :
      (msgs : List ChatMessage) (e : StructuredOutputError) (model : String)
      → Meets (Owed (err e)) (retry_once seams cfg msgs e model) Settled
  unfolding retry_once
  retry_once-Meets msgs e model = bind-Meets _ _ (add_error-Meets e) (λ _.
      bind-Meets _ _ Tracked-check
        (λ _. bind-Meets _ _ (ask-Meets _ model) (second_reply-Meets model)))

  first_reply-Meets :
      (msgs : List ChatMessage) (model : String) (r : Result StructuredOutputError LlmResult)
      → Meets (Owed r) (first_reply seams cfg msgs model r) Settled
  first_reply-Meets msgs model (ok r) = answered-Meets r model false
  first_reply-Meets msgs model (err e) = retry_once-Meets msgs e model

  final-Meets :
      (msgs : List ChatMessage) (model : String)
      → Meets Tracked (final seams cfg msgs model) Settled
  unfolding final
  final-Meets msgs model =
      bind-Meets _ _ Tracked-check
        (λ _. bind-Meets _ _ (ask-Meets msgs model) (first_reply-Meets msgs model))

  tool_calls_turn-Meets :
      (turn : ToolCallTurn) (seq : ℕ)
      → Meets
          (OwedTools (ok (ToolReply.tool_turn turn)))
          (tool_calls_turn seams cfg turn seq)
          (λ _. Tracked)
  unfolding tool_calls_turn
  tool_calls_turn-Meets turn seq =
      bind-Meets _ _
        (modify-Meets {Q = λ _. Tracked} (λ s. record s { totals = add_turn s.totals turn })
          (λ s h. h))
        (λ _.
          bind-Meets _ _ (append_message-Meets seams cfg billed bill (λ x t. x ≡ plus base t) _)
            (λ _. run_calls-Meets seams cfg billed bill (λ x t. x ≡ plus base t) turn.calls seq))

  loop_reply-Meets :
      (go : ℕ → Action (RunState W) TriageOutcome) (seq : ℕ)
      (r : Result StructuredOutputError ToolReply)
      → ((seq' : ℕ) → Meets Tracked (go seq') Settled)
      → Meets (OwedTools r) (loop_reply seams cfg go seq r) Settled
  loop_reply-Meets go seq (err e) h =
      bind-Meets _ _ (gets-Meets {Q = λ _. Owed (err e)} _ (λ s q. q))
        (λ msgs. retry_once-Meets msgs e cfg.model)
  loop_reply-Meets go seq (ok (ToolReply.answer r)) h = answered-Meets r cfg.model false
  loop_reply-Meets go seq (ok (ToolReply.tool_turn turn)) h =
      bind-Meets _ _
        (record_usage-Meets seams cfg billed bill (λ x t. x ≡ plus base (add_turn t turn))
          turn.usage)
        (λ _. bind-Meets _ _ (tool_calls_turn-Meets turn seq) h)

  tool_loop-Meets : (turns seq : ℕ) → Meets Tracked (tool_loop seams cfg turns seq) Settled
  unfolding tool_loop
  tool_loop-Meets zero seq =
      bind-Meets _ _ (append_message-Meets seams cfg billed bill (λ x t. x ≡ plus base t) _) (λ _.
        bind-Meets _ _ (gets-Meets {Q = λ _. Tracked} _ (λ s q. q))
          (λ msgs. final-Meets msgs cfg.model))
  tool_loop-Meets (suc turns) seq = bind-Meets _ _ Tracked-check (λ _.
      bind-Meets _ _ ask_with_tools-Meets
        (λ r. loop_reply-Meets (tool_loop seams cfg turns) seq r (tool_loop-Meets turns)))

  final_here : (model : String) → Action (RunState W) TriageOutcome
  final_here model = do msgs ← gets (λ s. s.messages); final seams cfg msgs model

  final_here-Meets : (model : String) → Meets Tracked (final_here model) Settled
  unfolding final_here
  final_here-Meets model =
      bind-Meets _ _ (gets-Meets {Q = λ _. Tracked} _ (λ s q. q)) (λ msgs. final-Meets msgs model)

  cheap_pass-Meets : Meets Tracked (cheap_pass seams cfg) Settled
  unfolding cheap_pass final_here
  cheap_pass-Meets =
      if-Meets (has_tools cfg.tools) (tool_loop seams cfg cfg.tool_loop_max_iter 0)
        (final_here cfg.model) (λ _. tool_loop-Meets cfg.tool_loop_max_iter 0)
        (λ _. final_here-Meets cfg.model)

  strong_pass-Meets :
      (cheap : TriageOutcome) (strong : String)
      → Meets (Settled cheap) (strong_pass seams cfg cheap strong) Settled
  unfolding strong_pass
  strong_pass-Meets cheap strong =
      bind-Meets _ _ (modify-Meets {Q = λ _. Tracked} _ (λ s h. h)) (λ _.
        bind-Meets _ _ (gets-Meets {Q = λ _. Tracked} _ (λ s q. q))
          (λ msgs. bind-Meets _ _ (final-Meets msgs strong) (λ o. pure-Meets _ (λ s h. h))))

  route-Meets :
      (strong : Option String) (cheap : TriageOutcome)
      → Meets (Settled cheap) (route seams cfg strong cheap) Settled
  route-Meets none cheap = pure-Meets cheap (λ s h. h)
  route-Meets (some strong) cheap =
      if-Meets
        (should_escalate cheap.verdict cfg.escalate_severity_gte
          cfg.escalate_confidence_lt).escalate
        (strong_pass seams cfg cheap strong) (pure cheap) (λ _. strong_pass-Meets cheap strong)
        (λ _. pure-Meets cheap (λ s h. h))

  run-Meets : Meets Tracked (run seams cfg) Settled
  unfolding run
  run-Meets = bind-Meets _ _ cheap_pass-Meets (route-Meets cfg.strong_model)

-- If a run that begins with zero totals returns an outcome, the bill of the LLM client, which every
-- reply, valid or not, grows by its tokens, its cost and its latency, has grown by exactly the
-- outcome's.
pub run_bill :
    {W : Type 0} (seams : Seams W) (cfg : Pipeline) (billed : W → Totals)
    → IsBill seams billed
    → (s : RunState W) (o : TriageOutcome) → s.totals ≡ zero_totals
    → (run seams cfg s).0 ≡ ok o
    → billed (run seams cfg s).1.world ≡ plus (billed s.world) (seeded o)
run_bill seams cfg billed bill s o zeros e =
    Meets-returns s (run-Meets seams cfg billed bill (billed s.world))
      (rw zeros (plus-zero (billed s.world))) e
