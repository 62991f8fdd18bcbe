-- ===== src/Tests/Triage.antt =====
-- One run and one job in the small deployment.
use sentinel_brief.Prelude.{codes, ◌≤◌, ◌≡◌, refl, true, false, some, [], ◌∷◌, ok, err, arith}
use sentinel_brief.Core.Errors.{Exn}
use sentinel_brief.Action.{◌>>=◌}
use sentinel_brief.Tests.{World, quiet, seams, cfg, start, verdict_with}
use sentinel_brief.Pipeline.Budget.{
  read_tokens_today, check_and_would_exceed, check_budget, record_tokens, record_usage,
}
use sentinel_brief.Pipeline.Run.{
  run, cheap_pass, tool_loop, ask_with_tools, ask, final, answered, outcome, tool_calls_turn,
  run_calls, execute, strong_pass, seeded,
}
use sentinel_brief.Pipeline.Run.Billing.{IsBill, plus}
use sentinel_brief.Pipeline.Run.Billing.Total.{run_bill}
use sentinel_brief.Pipeline.Run.Calls.{IsCallMeter}
use sentinel_brief.Pipeline.Run.Calls.Bound.{run_calls_bound}
use sentinel_brief.Pipeline.Run.Exhausted.{run-exhausted}
use sentinel_brief.Pipeline.Seams.{RunState, add_turn, add_result}
use sentinel_brief.Worker.Outcome.{TriageOutcome}
use sentinel_brief.Worker.Routing.{should_escalate}

meter : IsCallMeter seams (λ w. w.calls)
meter = record {
  structured = λ msgs model w. refl;
  with_tools = λ msgs model w. refl;
  get = λ w. refl;
  incrby = λ n w. refl;
  tool = λ name args w. refl;
}

run_calls_bound_example : (run seams cfg start).1.world.calls ≤ 7
run_calls_bound_example = run_calls_bound seams cfg (λ w. w.calls) meter start

bill : IsBill seams (λ w. w.bill)
bill = record {
  structured = λ msgs model w. refl;
  with_tools = λ msgs model w. refl;
  get = λ w. refl;
  incrby = λ n w. refl;
  tool = λ name args w. refl;
}

-- A tool turn, the cheap answer, and the strong one.
abbrev strong_outcome : TriageOutcome
strong_outcome = record {
  verdict = verdict_with 9000;
  model = "strong";
  prompt_version = "triage-v1";
  input_tokens = 300;
  output_tokens = 60;
  cost_usd = 70;
  latency_ms = 2200;
  retried = false;
  tool_calls =
      record {
        seq = 0;
        tool_name = "get_alert_history";
        arguments = codes "{}";
        result = codes "[]";
        latency_ms = 5;
      }
      ∷ [];
  model_primary = some "cheap";
  escalated_model = true;
}

run-strong : (run seams cfg start).0 ≡ ok strong_outcome
unfolding run cheap_pass tool_loop ask_with_tools ask final answered outcome record_usage
    record_tokens check_budget check_and_would_exceed read_tokens_today tool_calls_turn run_calls
    execute strong_pass should_escalate add_turn add_result ◌>>=◌
run-strong = refl

run_bill_example : (run seams cfg start).1.world.bill ≡ plus quiet.bill (seeded strong_outcome)
run_bill_example = run_bill seams cfg (λ w. w.bill) bill start strong_outcome refl run-strong

abbrev spent : RunState World
spent = record start { world = record quiet { tokens = 1200 } }

run-exhausted_example :
    ((run seams cfg spent).0 ≡ err (Exn.budget_exceeded 1200 1000))
    × ((run seams cfg spent).1.world ≡ spent.world)
    × ((run seams cfg spent).1.totals ≡ spent.totals)
    × ((run seams cfg spent).1.records ≡ spent.records)
run-exhausted_example =
    run-exhausted seams cfg spent 1200 (some (some 1200)) spent.world spent.world refl (omega arith)
      (omega arith) refl refl
