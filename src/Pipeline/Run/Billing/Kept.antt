-- ===== src/Pipeline/Run/Billing/Kept.antt =====
-- worker/triage.py: what is neither billed nor counted in the totals.
use sentinel_brief.Prelude.{
  not, ◌||◌, ◌==◌, ℕ, ◌+◌, Option, none, some, List, [], ◌∷◌, Result, ok, err, if◌then◌else◌,
}
use sentinel_brief.Core.Errors.{Exn}
use sentinel_brief.Core.Llm.{ChatMessage, LlmUsage, ToolCallRequest}
use sentinel_brief.Action.{pure, raise, modify, ◌>>=◌}
use sentinel_brief.Action.Meets.{Meets, meets_rules, Returns, if-Meets, modify-Meets, bind-Meets}
use sentinel_brief.Worker.Outcome.{ToolCallRecord}
use sentinel_brief.Pipeline.Seams.{Seams, Pipeline, RunState, ToolExecution, Totals}
use sentinel_brief.Pipeline.Budget.{
  read_tokens_today, check_and_would_exceed, check_budget, recorded, record_tokens, record_usage,
}
use sentinel_brief.Pipeline.Run.{append_message, execute, run_calls}
use sentinel_brief.Pipeline.Run.Billing.{IsBill}

-- Reading and writing the Redis counter is not billed: it keeps what says of bill and totals.
module _ {W : Type 0} (seams : Seams W) (cfg : Pipeline) (billed : W → Totals)
    (bill : IsBill seams billed) (Q : Totals → Totals → Type 0) where
  abbrev pub On : {A : Type 0} → A → RunState W → Type 0
  On _ s = Q (billed s.world) s.totals

  pub read-Meets : Meets (On tt) (read_tokens_today seams cfg) On
  unfolding read_tokens_today
  read-Meets = record { at = λ s h. rw (bill.get s.world) h }

  pub exceed-Meets : (budget n : ℕ) → Meets (On tt) (check_and_would_exceed seams cfg budget n) On
  unfolding check_and_would_exceed
  exceed-Meets budget n = search (meets_rules, read-Meets)

  pub check_budget-Meets : Meets (On tt) (check_budget seams cfg) On
  unfolding check_budget
  check_budget-Meets =
      if-Meets (not cfg.redis_wired || cfg.daily_token_budget == 0) (pure tt)
        (do
          exceeded ← check_and_would_exceed seams cfg cfg.daily_token_budget 0
          if exceeded
              then (do
                tokens_today ← read_tokens_today seams cfg
                raise (Exn.budget_exceeded tokens_today cfg.daily_token_budget))
              else pure tt)
        (λ _. search meets_rules)
        (λ _.
          bind-Meets _ _ (exceed-Meets cfg.daily_token_budget 0)
            (λ exceeded. search (meets_rules, read-Meets)))

  pub record_tokens-Meets : (n : ℕ) → Meets (On tt) (record_tokens seams cfg n) On
  unfolding record_tokens
  record_tokens-Meets n = record {
    at = λ s h. recorded-Returns s (seams.redis_incrby n s.world) (rw (bill.incrby n s.world) h);
  }
    where
      recorded-Returns :
          (s : RunState W) (r : Option ℕ × W)
          → Q (billed r.1) s.totals
          → Returns On (recorded seams cfg s r)
      recorded-Returns s (none, w) h = tt
      recorded-Returns s (some n, w) h = h

  pub record_usage-Meets : (usage : LlmUsage) → Meets (On tt) (record_usage seams cfg usage) On
  unfolding record_usage
  record_usage-Meets usage = search (meets_rules, record_tokens-Meets)

  pub execute-Meets : (call : ToolCallRequest) → Meets (On tt) (execute seams cfg call) On
  unfolding execute
  execute-Meets call = record {
    at = λ s h.
        execution-Returns s (seams.execute_tool call.name call.arguments s.world)
          (rw (bill.tool call.name call.arguments s.world) h);
  }
    where
      execution-Returns :
          (s : RunState W) (r : Result Exn ToolExecution × W)
          → Q (billed r.1) s.totals
          → Returns On (r.0, record s { world = r.1 })
      execution-Returns s (ok x, w) h = h
      execution-Returns s (err e, w) h = tt

  pub records-Meets :
      (f : RunState W → List ToolCallRecord)
      → Meets (On tt) (modify (λ s. record s { records = f s })) On
  records-Meets f = modify-Meets _ (λ s h. h)

  pub append_message-Meets : (m : ChatMessage) → Meets (On tt) (append_message m) On
  append_message-Meets m = modify-Meets _ (λ s h. h)

  pub run_calls-Meets :
      (calls : List ToolCallRequest) (seq : ℕ) → Meets (On tt) (run_calls seams cfg calls seq) On
  unfolding run_calls
  run_calls-Meets [] seq = search meets_rules
  run_calls-Meets (call ∷ calls) seq = bind-Meets _ _ (execute-Meets call) (λ x.
      bind-Meets _ _ (records-Meets _)
        (λ _. bind-Meets _ _ (append_message-Meets _) (λ _. run_calls-Meets calls (seq + 1))))
