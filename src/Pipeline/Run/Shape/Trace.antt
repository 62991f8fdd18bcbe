-- ===== src/Pipeline/Run/Shape/Trace.antt =====
-- worker/triage.py: the records of the tool calls, through every part of a run.
use sentinel_brief.Prelude.{
  ℕ, zero, suc, ◌+◌, ◌≡◌, refl, String, Bool, true, false, List, [], ◌∷◌, ◌++◌, map, Result, ok,
  err, arith,
}
use native.Mathlib.Nat.{zero-add}
use native.Mathlib.Numerals.{add-one}
use mathlib.Core.List.{map-append}
use sentinel_brief.Core.Errors.{Exn}
use sentinel_brief.Core.Llm.{
  ChatMessage, LlmUsage, LlmResult, ToolReply, ToolCallTurn, ToolCallRequest, StructuredOutputError,
}
use sentinel_brief.Action.{Action, gets, modify, ◌>>=◌}
use sentinel_brief.Action.Meets.{
  Meets, Returns, pure-Meets, raise-Meets, gets-Meets, if-Meets, modify-Meets, bind-Meets,
}
use sentinel_brief.Worker.Outcome.{ToolCallRecord, TriageOutcome}
use sentinel_brief.Pipeline.Seams.{Seams, Pipeline, RunState, Totals}
use sentinel_brief.Pipeline.Budget.{
  read_tokens_today, check_and_would_exceed, check_budget, record_tokens, record_usage,
}
use sentinel_brief.Pipeline.Run.{
  ask, ask_with_tools, second_reply, first_reply, loop_reply, append_message, has_tools, outcome,
  answered, retry_once, final, execute, run_calls, tool_calls_turn, tool_loop, cheap_pass,
}
use sentinel_brief.Pipeline.Run.Shape.{count_up, IsNumbered, count_up-suc, length_eq, IsPlain}

module _ {W : Type 0} (seams : Seams W) (cfg : Pipeline) where
  -- The parts that leave the records alone, whether they return or raise.
  check_budget-records : (s : RunState W) → (check_budget seams cfg s).1.records ≡ s.records
  unfolding check_budget check_and_would_exceed read_tokens_today ◌>>=◌
  check_budget-records s = ground arith

  record_usage-records :
      (usage : LlmUsage) (s : RunState W) → (record_usage seams cfg usage s).1.records ≡ s.records
  unfolding record_usage record_tokens ◌>>=◌
  record_usage-records usage s = ground arith

  module _ (Q : List ToolCallRecord → Type 0) where
    abbrev On : {A : Type 0} → A → RunState W → Type 0
    On _ s = Q s.records

    kept :
        {A : Type 0} (s : RunState W) (r : Result Exn A × RunState W)
        → r.1.records ≡ s.records
        → Q s.records
        → Returns On r
    kept s (ok a, s') e q = rw e q
    kept s (err x, s') e q = tt

    check_budget-Meets : Meets (On tt) (check_budget seams cfg) On
    check_budget-Meets = record {
      at = λ s h. kept s (check_budget seams cfg s) (check_budget-records s) h;
    }

    record_usage-Meets : (usage : LlmUsage) → Meets (On tt) (record_usage seams cfg usage) On
    record_usage-Meets usage = record {
      at = λ s h. kept s (record_usage seams cfg usage s) (record_usage-records usage s) h;
    }

    ask-Meets :
        (msgs : List ChatMessage) (model : String) → Meets (On tt) (ask seams cfg msgs model) On
    unfolding ask
    ask-Meets msgs model = record { at = λ s h. kept s (ask seams cfg msgs model s) refl h }

    ask_with_tools-Meets : Meets (On tt) (ask_with_tools seams cfg) On
    unfolding ask_with_tools
    ask_with_tools-Meets = record { at = λ s h. kept s (ask_with_tools seams cfg s) refl h }

    execute-Meets : (call : ToolCallRequest) → Meets (On tt) (execute seams cfg call) On
    unfolding execute
    execute-Meets call = record { at = λ s h. kept s (execute seams cfg call s) refl h }

    totals-Meets :
        (f : RunState W → Totals) → Meets (On tt) (modify (λ s. record s { totals = f s })) On
    totals-Meets f = modify-Meets _ (λ s h. h)

    append_message-Meets : (m : ChatMessage) → Meets (On tt) (append_message m) On
    append_message-Meets m = modify-Meets _ (λ s h. h)

  -- The next `seq` is the number of records, and each record has its position.
  abbrev Counted : ℕ → List ToolCallRecord → Type 0
  Counted seq records = map (λ r. r.seq) records ≡ count_up 0 seq

  Counted-append :
      (seq : ℕ) (records : List ToolCallRecord) (r : ToolCallRecord)
      → r.seq ≡ seq
      → Counted seq records
      → Counted (seq + 1) (records ++ (r ∷ []))
  Counted-append seq records r e h =
      rw (map-append, h, e, add-one, count_up-suc 0 seq, zero-add seq)

  Counted-length :
      (seq : ℕ) (records : List ToolCallRecord) → Counted seq records → IsNumbered records
  Counted-length seq records h = rw (length_eq seq records h) h

  run_calls-Meets :
      (calls : List ToolCallRequest) (seq : ℕ)
      → Meets
          (λ s. Counted seq s.records)
          (run_calls seams cfg calls seq)
          (λ next s. Counted next s.records)
  unfolding run_calls
  run_calls-Meets [] seq = pure-Meets seq (λ s h. h)
  run_calls-Meets (call ∷ calls) seq = bind-Meets _ _ (execute-Meets (Counted seq) call) (λ x.
      bind-Meets _ _
        (modify-Meets {Q = λ _ s. Counted (seq + 1) s.records} _
          (λ s h. Counted-append seq s.records _ refl h))
        (λ _.
          bind-Meets _ _ (append_message-Meets (Counted (seq + 1)) _)
            (λ _. run_calls-Meets calls (seq + 1))))

  abbrev Plain : String → TriageOutcome → RunState W → Type 0
  Plain model o s = IsPlain model cfg.prompt_version o

  answered-Meets :
      (r : LlmResult) (model : String) (b : Bool)
      → Meets (λ s. IsNumbered s.records) (answered seams cfg r model b) (Plain model)
  unfolding answered outcome
  answered-Meets r model b = bind-Meets _ _ (record_usage-Meets IsNumbered r.usage) (λ _. record {
    at = λ s h. record {
      model_lem = refl;
      prompt = refl;
      primary = refl;
      escalated = refl;
      numbered = h;
    };
  })

  second_reply-Meets :
      (model : String) (r : Result StructuredOutputError LlmResult)
      → Meets (λ s. IsNumbered s.records) (second_reply seams cfg model r) (Plain model)
  second_reply-Meets model (ok r) = answered-Meets r model true
  second_reply-Meets model (err e) = raise-Meets _

  retry_once-Meets :
      (msgs : List ChatMessage) (e : StructuredOutputError) (model : String)
      → Meets (λ s. IsNumbered s.records) (retry_once seams cfg msgs e model) (Plain model)
  unfolding retry_once
  retry_once-Meets msgs e model = bind-Meets _ _ (totals-Meets IsNumbered _) (λ _.
      bind-Meets _ _ (check_budget-Meets IsNumbered)
        (λ _. bind-Meets _ _ (ask-Meets IsNumbered _ model) (second_reply-Meets model)))

  first_reply-Meets :
      (msgs : List ChatMessage) (model : String) (r : Result StructuredOutputError LlmResult)
      → Meets (λ s. IsNumbered s.records) (first_reply seams cfg msgs model r) (Plain model)
  first_reply-Meets msgs model (ok r) = answered-Meets r model false
  first_reply-Meets msgs model (err e) = retry_once-Meets msgs e model

  pub final-Meets :
      (msgs : List ChatMessage) (model : String)
      → Meets (λ s. IsNumbered s.records) (final seams cfg msgs model) (Plain model)
  unfolding final
  final-Meets msgs model =
      bind-Meets _ _ (check_budget-Meets IsNumbered)
        (λ _. bind-Meets _ _ (ask-Meets IsNumbered msgs model) (first_reply-Meets msgs model))

  turn-Meets :
      (turn : ToolCallTurn) (seq : ℕ)
      → Meets
          (λ s. Counted seq s.records)
          (tool_calls_turn seams cfg turn seq)
          (λ next s. Counted next s.records)
  unfolding tool_calls_turn
  turn-Meets turn seq = bind-Meets _ _ (totals-Meets (Counted seq) _) (λ _.
      bind-Meets _ _ (append_message-Meets (Counted seq) _) (λ _. run_calls-Meets turn.calls seq))

  loop_reply-Meets :
      (go : ℕ → Action (RunState W) TriageOutcome) (seq : ℕ)
      (r : Result StructuredOutputError ToolReply)
      → ((next : ℕ) → Meets (λ s. Counted next s.records) (go next) (Plain cfg.model))
      → Meets (λ s. Counted seq s.records) (loop_reply seams cfg go seq r) (Plain cfg.model)
  loop_reply-Meets go seq (err e) h =
      bind-Meets _ _
        (gets-Meets {Q = λ _ s. IsNumbered s.records} _ (λ s q. Counted-length seq s.records q))
        (λ msgs. retry_once-Meets msgs e cfg.model)
  loop_reply-Meets go seq (ok (ToolReply.answer r)) h = record {
    at = λ s q. (answered-Meets r cfg.model false).at s (Counted-length seq s.records q);
  }
  loop_reply-Meets go seq (ok (ToolReply.tool_turn turn)) h =
      bind-Meets _ _ (record_usage-Meets (Counted seq) turn.usage)
        (λ _. bind-Meets _ _ (turn-Meets turn seq) h)

  tool_loop-Meets :
      (turns seq : ℕ)
      → Meets (λ s. Counted seq s.records) (tool_loop seams cfg turns seq) (Plain cfg.model)
  unfolding tool_loop
  tool_loop-Meets zero seq = bind-Meets _ _ (append_message-Meets (Counted seq) _) (λ _.
      bind-Meets _ _
        (gets-Meets {Q = λ _ s. IsNumbered s.records} _ (λ s q. Counted-length seq s.records q))
        (λ msgs. final-Meets msgs cfg.model))
  tool_loop-Meets (suc turns) seq = bind-Meets _ _ (check_budget-Meets (Counted seq)) (λ _.
      bind-Meets _ _ (ask_with_tools-Meets (Counted seq))
        (λ r. loop_reply-Meets (tool_loop seams cfg turns) seq r (tool_loop-Meets turns)))

  abbrev NoRecords : RunState W → Type 0
  NoRecords s = s.records ≡ []

  -- A cheap pass from no records.
  pub cheap_pass-Meets : Meets NoRecords (cheap_pass seams cfg) (Plain cfg.model)
  unfolding cheap_pass
  cheap_pass-Meets =
      if-Meets (has_tools cfg.tools) (tool_loop seams cfg cfg.tool_loop_max_iter 0)
        (gets (λ s. s.messages) >>= λ msgs. final seams cfg msgs cfg.model)
        (λ _. record { at = λ s h. (tool_loop-Meets cfg.tool_loop_max_iter 0).at s (rw h) })
        (λ _.
          bind-Meets _ _ (gets-Meets {Q = λ _ s. IsNumbered s.records} _ (λ s h. rw h))
            (λ msgs. final-Meets msgs cfg.model))
