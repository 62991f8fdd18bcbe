-- ===== src/Pipeline/Run/Exhausted.antt =====
-- worker/triage.py and worker/budget.py: the circuit breaker stops a run before its first call.
use sentinel_brief.Prelude.{
  ℕ, ◌+◌, ◌≤◌, ◌<◌, ◌≡◌, ◌==◌, refl, Bool, true, false, leb, Option, some, err, arith, zero, suc,
  if◌then◌else◌, String, List, [], ◌∷◌, ◌++◌,
}
use sentinel_brief.Core.Errors.{Exn}
use sentinel_brief.Core.Llm.{ChatMessage}
use sentinel_brief.Action.{Action, gets, ◌>>=◌}
use sentinel_brief.Pipeline.Budget.{
  tokens_of, read_tokens_today, check_and_would_exceed, check_budget,
}
use sentinel_brief.Pipeline.Seams.{Seams, Pipeline, RunState}
use sentinel_brief.Pipeline.Run.{
  run, route, cheap_pass, tool_loop, final, final_verdict_instruction, has_tools,
}

positive-eq : (b : ℕ) → 0 < b → (b == 0) ≡ false
positive-eq b h = ground arith

reached : (b n : ℕ) → b ≤ n → leb b (n + 0) ≡ true
reached b n h = ground arith

raised-bind :
    {S A B : Type 0} (m : Action S A) (f : A → Action S B) (s t : S) (e : Exn)
    → m s ≡ (err e, t)
    → (m >>= f) s ≡ (err e, t)
unfolding ◌>>=◌
raised-bind m f s t e h = rw h refl

-- The counter, as the check reads it, has reached the budget; a second read is for the message.
record Exhausted {W : Type 0} (seams : Seams W) (cfg : Pipeline) (w : W) (raw : Option (Option ℕ))
    (w' : W) : Type 0 where
  wired : cfg.redis_wired ≡ true
  limited : 0 < cfg.daily_token_budget
  tokens : ℕ
  between : W
  first : seams.redis_get w ≡ (some (some tokens), between)
  over : cfg.daily_token_budget ≤ tokens
  second : seams.redis_get between ≡ (raw, w')

module _ {W : Type 0} (seams : Seams W) (cfg : Pipeline) where
  check_budget-Exhausted :
      (s : RunState W) (raw : Option (Option ℕ)) (w' : W)
      → Exhausted seams cfg s.world raw w'
      → check_budget seams cfg s ≡ (
        err (Exn.budget_exceeded (tokens_of raw) cfg.daily_token_budget),
        record s { world = w' },
      )
  unfolding check_budget check_and_would_exceed read_tokens_today ◌>>=◌
  check_budget-Exhausted s raw w' x =
      rw
        (
          x.wired,
          positive-eq cfg.daily_token_budget x.limited,
          x.first,
          reached cfg.daily_token_budget x.tokens x.over,
          x.second,
        )
        refl

  final-Exhausted :
      (s : RunState W) (raw : Option (Option ℕ)) (w' : W) (msgs : List ChatMessage) (model : String)
      → Exhausted seams cfg s.world raw w'
      → final seams cfg msgs model s ≡ (
        err (Exn.budget_exceeded (tokens_of raw) cfg.daily_token_budget),
        record s { world = w' },
      )
  unfolding final
  final-Exhausted s raw w' msgs model x = raised-bind _ _ s _ _ (check_budget-Exhausted s raw w' x)

  tool_loop-Exhausted :
      (turns seq : ℕ) (s : RunState W) (raw : Option (Option ℕ)) (w' : W)
      → Exhausted seams cfg s.world raw w'
      → (m : List ChatMessage) × (tool_loop seams cfg turns seq s ≡ (
        err (Exn.budget_exceeded (tokens_of raw) cfg.daily_token_budget),
        record s { messages = m; world = w' },
      ))
  unfolding tool_loop ◌>>=◌
  tool_loop-Exhausted zero seq s raw w' x = (
    _,
    final-Exhausted
        (record s { messages = s.messages ++ (ChatMessage.user final_verdict_instruction ∷ []) })
        raw w' _ cfg.model x,
  )
  tool_loop-Exhausted (suc turns) seq s raw w' x =
      (s.messages, rw (check_budget-Exhausted s raw w' x) refl)

  cheap_pass-Exhausted :
      (s : RunState W) (raw : Option (Option ℕ)) (w' : W)
      → Exhausted seams cfg s.world raw w'
      → (b : Bool)
      → (m : List ChatMessage) × ((if b
              then tool_loop seams cfg cfg.tool_loop_max_iter 0
              else (do msgs ← gets (λ s. s.messages); final seams cfg msgs cfg.model))
            s
          ≡ (
            err (Exn.budget_exceeded (tokens_of raw) cfg.daily_token_budget),
            record s { messages = m; world = w' },
          ))
  unfolding ◌>>=◌
  cheap_pass-Exhausted s raw w' x true = tool_loop-Exhausted cfg.tool_loop_max_iter 0 s raw w' x
  cheap_pass-Exhausted s raw w' x false =
      (s.messages, final-Exhausted s raw w' s.messages cfg.model x)

-- When a wired counter has reached a positive daily budget, a run raises BudgetExceededError with
-- that budget. The world has only answered the two reads of the counter: no model and no tool was
-- called, nothing is billed and nothing is recorded.
pub run-exhausted :
    {W : Type 0} (seams : Seams W) (cfg : Pipeline) (s : RunState W) (tokens : ℕ)
    (raw : Option (Option ℕ)) (w w' : W)
    → cfg.redis_wired ≡ true
    → 0 < cfg.daily_token_budget
    → cfg.daily_token_budget ≤ tokens
    → seams.redis_get s.world ≡ (some (some tokens), w)
    → seams.redis_get w ≡ (raw, w')
    → ((run seams cfg s).0 ≡ err (Exn.budget_exceeded (tokens_of raw) cfg.daily_token_budget))
      × ((run seams cfg s).1.world ≡ w')
      × ((run seams cfg s).1.totals ≡ s.totals)
      × ((run seams cfg s).1.records ≡ s.records)
unfolding run cheap_pass
run-exhausted seams cfg s tokens raw w w' wired limited over first second = refused (
    cheap_pass-Exhausted seams cfg s raw w'
      (record {
        wired = wired;
        limited = limited;
        tokens = tokens;
        between = w;
        first = first;
        over = over;
        second = second;
      })
      (has_tools cfg.tools))
  where
    refused :
        ((m : List ChatMessage) × (cheap_pass seams cfg s ≡ (
          err (Exn.budget_exceeded (tokens_of raw) cfg.daily_token_budget),
          record s { messages = m; world = w' },
        )))
        → ((run seams cfg s).0 ≡ err (Exn.budget_exceeded (tokens_of raw) cfg.daily_token_budget))
          × ((run seams cfg s).1.world ≡ w')
          × ((run seams cfg s).1.totals ≡ s.totals)
          × ((run seams cfg s).1.records ≡ s.records)
    refused (m, e) =
        rw
          (raised-bind (cheap_pass seams cfg) (λ cheap. route seams cfg cfg.strong_model cheap) s _
            _ e)
          (refl, refl, refl, refl)
