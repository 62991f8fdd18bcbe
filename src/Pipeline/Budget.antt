-- ===== src/Pipeline/Budget.antt =====
-- core/budget.py and worker/budget.py: the daily token counter, as the pipeline uses it.
use sentinel_brief.Prelude.{
  ℕ, ◌+◌, Bool, false, not, ◌||◌, Option, none, some, Result, ok, err, ◌==◌, leb, if◌then◌else◌,
}
use sentinel_brief.Core.Errors.{Exn}
use sentinel_brief.Core.Llm.{LlmUsage}
use sentinel_brief.Action.{Action, pure, raise, ◌>>=◌}
use sentinel_brief.Pipeline.Seams.{Seams, Pipeline, RunState}

-- The counter as `read_tokens_today` reads it: a failure or a miss is 0.
abbrev pub tokens_of : Option (Option ℕ) → ℕ
tokens_of none = 0
tokens_of (some none) = 0
tokens_of (some (some n)) = n

module _ {W : Type 0} (seams : Seams W) (cfg : Pipeline) where
  unfoldable pub read_tokens_today : Action (RunState W) ℕ
  read_tokens_today s =
      let (raw, w) = seams.redis_get s.world in (ok (tokens_of raw), record s { world = w })

  unfoldable pub check_and_would_exceed : ℕ → ℕ → Action (RunState W) Bool
  check_and_would_exceed budget would_add_estimate =
      if budget == 0
      then pure false
      else do today ← read_tokens_today; pure (leb budget (today + would_add_estimate))

  abbrev pub recorded : RunState W → Option ℕ × W → Result Exn (Unit {0}) × RunState W
  recorded s (none, w) = (err Exn.redis_error, record s { world = w })
  recorded s (some total, w) = (ok tt, record s { world = w })

  -- One pipelined INCRBY and EXPIRE; nothing catches its failure.
  unfoldable pub record_tokens : ℕ → Action (RunState W) (Unit {0})
  record_tokens tokens s = recorded s (seams.redis_incrby tokens s.world)

  -- `_check_budget` of `TriagePipeline.run`.
  unfoldable pub check_budget : Action (RunState W) (Unit {0})
  check_budget = if not cfg.redis_wired || cfg.daily_token_budget == 0 then pure tt else do
    exceeded ← check_and_would_exceed cfg.daily_token_budget 0
    if exceeded
        then (do
          tokens_today ← read_tokens_today
          raise (Exn.budget_exceeded tokens_today cfg.daily_token_budget))
        else pure tt

  -- `_record_usage` of `TriagePipeline.run`.
  unfoldable pub record_usage : LlmUsage → Action (RunState W) (Unit {0})
  record_usage usage =
      if not cfg.redis_wired
      then pure tt
      else record_tokens (usage.input_tokens + usage.output_tokens)
