-- ===== src/Pipeline/Run/Calls.antt =====
-- worker/triage.py: how many LLM calls one run can make.
pub mod Bound
use sentinel_brief.Prelude.{
  Text, ℕ, zero, suc, ◌+◌, ◌≤◌, ◌≡◌, String, Bool, true, false, Option, none, some, List, [], ◌∷◌,
  Result, ok, err, arith, if◌then◌else◌,
}
use sentinel_brief.Core.Errors.{Exn}
use sentinel_brief.Core.Llm.{
  ChatMessage, LlmUsage, LlmResult, ToolReply, ToolCallTurn, ToolCallRequest, StructuredOutputError,
}
use sentinel_brief.Action.{Action, continue, pure, raise, gets, modify, ◌>>=◌, ◌>>◌}
use sentinel_brief.Worker.Outcome.{ToolCallRecord, TriageOutcome}
use sentinel_brief.Worker.Routing.{should_escalate}
use sentinel_brief.Pipeline.Seams.{Seams, Pipeline, RunState, Totals, add_turn, add_error}
use sentinel_brief.Pipeline.Budget.{
  read_tokens_today, check_and_would_exceed, check_budget, record_tokens, record_usage,
}
use sentinel_brief.Pipeline.Run.{
  ask, ask_with_tools, second_reply, first_reply, loop_reply, append_message, has_tools, route,
  outcome, answered, retry_once, final, execute, run_calls, tool_calls_turn, tool_loop, cheap_pass,
  strong_pass, run,
}

-- `count` counts the calls that the LLM client has received in a state of the world.
pub record IsCallMeter {W : Type 0} (seams : Seams W) (count : W → ℕ) : Type 0 where
  pub structured :
      (msgs : List ChatMessage) (model : String) (w : W)
      → count (seams.complete_structured msgs model w).1 ≡ count w + 1
  pub with_tools :
      (msgs : List ChatMessage) (model : String) (w : W)
      → count (seams.complete_with_tools msgs model w).1 ≡ count w + 1
  pub get : (w : W) → count (seams.redis_get w).1 ≡ count w
  pub incrby : (n : ℕ) (w : W) → count (seams.redis_incrby n w).1 ≡ count w
  pub tool :
      (name : String) (args : Text) (w : W) → count (seams.execute_tool name args w).1 ≡ count w

-- The action makes at most `k` calls, whether it returns or raises.
pub record AtMost {W A : Type 0} (count : W → ℕ) (k : ℕ) (m : Action (RunState W) A) : Type 0 where
  pub at : (s : RunState W) → count (m s).1.world ≤ count s.world + k

module _ {W A : Type 0} {count : W → ℕ} (k : ℕ) where
  pub pure-AtMost : (a : A) → AtMost count k (pure {S = RunState W} a)
  unfolding ◌>>=◌
  pure-AtMost a = record { at = λ s. omega arith }

  pub raise-AtMost : (e : Exn) → AtMost count k (raise {S = RunState W} {A = A} e)
  unfolding ◌>>=◌
  raise-AtMost e = record { at = λ s. omega arith }

  pub gets-AtMost : (f : RunState W → A) → AtMost count k (gets f)
  unfolding ◌>>=◌
  gets-AtMost f = record { at = λ s. omega arith }

  pub if-AtMost :
      (b : Bool) (m n : Action (RunState W) A)
      → AtMost count k m
      → AtMost count k n
      → AtMost count k (if b then m else n)
  if-AtMost true m n hm hn = hm
  if-AtMost false m n hm hn = hn

module _ {W A B : Type 0} {count : W → ℕ} where
  continue-AtMost :
      (k : ℕ) (r : Result Exn A) (f : A → Action (RunState W) B)
      → ((x : A) → AtMost count k (f x))
      → (s : RunState W) → count (continue r f s).1.world ≤ count s.world + k
  continue-AtMost k (ok x) f h s = (h x).at s
  continue-AtMost k (err e) f h s = omega arith

  -- The first part makes no call, or at most one.
  pub bind-AtMost :
      (k : ℕ) (m : Action (RunState W) A) (f : A → Action (RunState W) B)
      → AtMost count 0 m
      → ((x : A) → AtMost count k (f x))
      → AtMost count k (m >>= f)
  unfolding ◌>>=◌
  bind-AtMost k m f hm hf = record {
    at = λ s. omega (arith, hm.at s, continue-AtMost k (m s).0 f hf (m s).1);
  }

  pub call-AtMost :
      (k : ℕ) (m : Action (RunState W) A) (f : A → Action (RunState W) B)
      → AtMost count 1 m
      → ((x : A) → AtMost count k (f x))
      → AtMost count (suc k) (m >>= f)
  unfolding ◌>>=◌
  call-AtMost k m f hm hf = record {
    at = λ s. omega (arith, hm.at s, continue-AtMost k (m s).0 f hf (m s).1);
  }

  pub sum-AtMost :
      (j k : ℕ) (m : Action (RunState W) A) (f : A → Action (RunState W) B)
      → AtMost count j m
      → ((x : A) → AtMost count k (f x))
      → AtMost count (j + k) (m >>= f)
  unfolding ◌>>=◌
  sum-AtMost j k m f hm hf = record {
    at = λ s. omega (arith, hm.at s, continue-AtMost k (m s).0 f hf (m s).1);
  }

pub weaken-AtMost :
    {W A : Type 0} {count : W → ℕ} (j k : ℕ) (m : Action (RunState W) A)
    → j ≤ k
    → AtMost count j m
    → AtMost count k m
weaken-AtMost j k m le h = record { at = λ s. omega (arith, h.at s) }

pub ruleset call_rules =
    (pure-AtMost, raise-AtMost, gets-AtMost, if-AtMost, bind-AtMost, call-AtMost)
