-- ===== src/Tests/Tables.antt =====
-- Requests and job tries in the small deployment.
use sentinel_brief.Prelude.{ℕ, ◌≡◌, refl, false, none, [], ◌∷◌, err}
use sentinel_brief.Core.Alert.{model_validate}
use sentinel_brief.Core.Database.{AlertStatus, Db, find_alert}
use sentinel_brief.Core.Database.Sound.{Sound}
use sentinel_brief.Core.Errors.{Exn}
use sentinel_brief.Core.Services.{insert_alert}
use sentinel_brief.Core.Session.{Session, select_for_update, open_session, flush, commit}
use sentinel_brief.Core.Session.Sees.{Sees}
use sentinel_brief.Action.{◌>>=◌}
use sentinel_brief.Action.Ends.{Ended}
use sentinel_brief.Api.Deps.Transaction.{OneOf}
use sentinel_brief.Api.Ingest.{ingest_alert}
use sentinel_brief.Api.Ingest.Durable.{ingest_alert_durable}
use sentinel_brief.Api.Retriage.{retriage_alert}
use sentinel_brief.Api.Retriage.Guarded.{Retriable, reopened, retriage_alert_guarded}
use sentinel_brief.Pipeline.Budget.{
  read_tokens_today, check_and_would_exceed, check_budget, record_tokens, record_usage,
}
use sentinel_brief.Pipeline.Run.{
  run, cheap_pass, tool_loop, ask_with_tools, ask, final, answered, outcome, tool_calls_turn,
  run_calls, execute, strong_pass,
}
use sentinel_brief.Pipeline.Seams.{add_turn, add_result}
use sentinel_brief.Worker.Routing.{should_escalate}
use sentinel_brief.Worker.Store.{persist_verdict, set_alert_status}
use sentinel_brief.Worker.Job.Rerun.{triage_alert_job-rerun}
use sentinel_brief.Worker.Job.{JobResult}
use sentinel_brief.System.{Reachable, Step, empty_db, ingest_in, work_in}
use sentinel_brief.System.Appended.{Appended, Step-Appended}
use sentinel_brief.System.Deduplicated.{Deduplicated, Reachable-Deduplicated}
use sentinel_brief.System.Reached.{Reachable-Sound}
use sentinel_brief.Tests.{World, quiet, deployment, alert, one_alert, pending_row, session_on}
use sentinel_brief.Worker.Attempt.{triage_attempt, attempt_body, run_session}
use sentinel_brief.Worker.Attempt.Atomic.{RanOn, Settled, triage_attempt_atomic}
use sentinel_brief.Worker.Job.{JobEnd, triage_alert_job}
use sentinel_brief.Worker.Job.Outcomes.{JobLeaves, triage_alert_job_leaves}
use sentinel_brief.Worker.Job.Clauses.{IsUntilMidnight}
use sentinel_brief.Worker.Job.Policy.{triage_alert_job-budget}

abbrev triaged_alert : Db
triaged_alert = record one_alert {
  alerts = record pending_row { status = AlertStatus.triaged } ∷ [];
}

-- An alert is ingested and then triaged.
abbrev after_two_steps : Session World
after_two_steps = work_in deployment 0 1 (ingest_in deployment alert (session_on empty_db quiet))

Reachable-Sound_example : Sound after_two_steps.committed
Reachable-Sound_example = Reachable-Sound deployment (
    Reachable.stepped
      (Reachable.stepped (Reachable.started quiet)
        (Step.ingested (session_on empty_db quiet) alert))
      (Step.worked (ingest_in deployment alert (session_on empty_db quiet)) 0 1))

triage_alert_job_leaves_example :
    JobLeaves
      (RanOn deployment.database deployment.seams deployment.cfg deployment.build_messages)
      0
      one_alert
      (triage_alert_job deployment.database deployment.seams deployment.cfg
        deployment.build_messages deployment.job deployment.settings 0 1
        (session_on one_alert quiet))
triage_alert_job_leaves_example =
    triage_alert_job_leaves deployment.database deployment.seams deployment.cfg
      deployment.build_messages deployment.job deployment.settings 0 1 (session_on one_alert quiet)

triage_attempt_atomic_example :
    Ended
      (Settled
        (RanOn deployment.database deployment.seams deployment.cfg deployment.build_messages)
        0
        one_alert)
      (Sees one_alert one_alert)
      (triage_attempt deployment.database deployment.seams deployment.cfg deployment.build_messages
        0
        (session_on one_alert quiet))
triage_attempt_atomic_example =
    triage_attempt_atomic deployment.database deployment.seams deployment.cfg
      deployment.build_messages 0 (session_on one_alert quiet) refl

retriage_alert_guarded_example :
    Ended
      (λ _ t.
        Retriable 0 triaged_alert × Sees (reopened 0 triaged_alert) (reopened 0 triaged_alert) t)
      (OneOf (Retriable 0 triaged_alert) triaged_alert (reopened 0 triaged_alert))
      (retriage_alert deployment.database deployment.queue deployment.cap 0
        (session_on triaged_alert quiet))
retriage_alert_guarded_example =
    retriage_alert_guarded deployment.database deployment.queue deployment.cap 0
      (session_on triaged_alert quiet)

ingest_alert_durable_example :
    Ended
      (λ reply t.
        (reply.body ≡ (insert_alert deployment.sha256_hex deployment.isoformat alert empty_db).0)
        × Sees
            (insert_alert deployment.sha256_hex deployment.isoformat alert empty_db).1
            (insert_alert deployment.sha256_hex deployment.isoformat alert empty_db).1
            t)
      (OneOf Unit empty_db
        (insert_alert deployment.sha256_hex deployment.isoformat alert empty_db).1)
      (ingest_alert deployment.database deployment.queue deployment.sha256_hex deployment.isoformat
        alert
        (session_on empty_db quiet))
ingest_alert_durable_example =
    ingest_alert_durable deployment.database deployment.queue deployment.sha256_hex
      deployment.isoformat alert (session_on empty_db quiet)

-- The budget of the day is spent.
abbrev late : World
late = record quiet { tokens = 1200 }

attempt-late :
    (triage_attempt deployment.database deployment.seams deployment.cfg deployment.build_messages 0
      (open_session (session_on one_alert late))).0
    ≡ err (Exn.budget_exceeded 1200 1000)
unfolding triage_attempt attempt_body run_session run cheap_pass tool_loop check_budget
    check_and_would_exceed read_tokens_today select_for_update find_alert model_validate ◌>>=◌
attempt-late = refl

triage_alert_job-budget_example :
    (d : ℕ) × ((triage_alert_job deployment.database deployment.seams deployment.cfg
        deployment.build_messages deployment.job deployment.settings 0 3
        (session_on one_alert late)).0
      ≡ JobEnd.retry_in d)
    × IsUntilMidnight 100000 d
    × ((triage_alert_job deployment.database deployment.seams deployment.cfg
          deployment.build_messages deployment.job deployment.settings 0 3
          (session_on one_alert late)).1.committed
        ≡ one_alert)
triage_alert_job-budget_example =
    triage_alert_job-budget deployment.database deployment.seams deployment.cfg
      deployment.build_messages deployment.job deployment.settings 0 3 1200 1000
      (session_on one_alert late) attempt-late

-- The database does not answer.
abbrev down : World
down = record quiet { up = false }

Step-Appended_example :
    Appended one_alert.verdicts
      (work_in deployment 0 1 (session_on one_alert quiet)).committed.verdicts
Step-Appended_example = Step-Appended deployment (Step.worked (session_on one_alert quiet) 0 1)

-- The state after the first try, which triages the alert.
abbrev first_try : Session World
first_try = work_in deployment 0 1 (session_on one_alert quiet)

first-triages :
    triage_alert_job deployment.database deployment.seams deployment.cfg deployment.build_messages
      deployment.job deployment.settings 0 1
      (session_on one_alert quiet)
    ≡ (JobEnd.done JobResult.triaged, first_try)
unfolding triage_alert_job triage_attempt attempt_body run_session run cheap_pass tool_loop
    ask_with_tools ask final answered outcome record_usage record_tokens check_budget
    check_and_would_exceed read_tokens_today tool_calls_turn run_calls execute strong_pass
    should_escalate add_turn add_result select_for_update find_alert model_validate persist_verdict
    set_alert_status flush commit ◌>>=◌
first-triages = refl

up : deployment.database.select_for_update first_try.world ≡ (none, first_try.world)
unfolding triage_alert_job triage_attempt attempt_body run_session run cheap_pass tool_loop
    ask_with_tools ask final answered outcome record_usage record_tokens check_budget
    check_and_would_exceed read_tokens_today tool_calls_turn run_calls execute strong_pass
    should_escalate add_turn add_result select_for_update find_alert model_validate persist_verdict
    set_alert_status flush commit ◌>>=◌
up = refl

triage_alert_job-rerun_example :
    triage_alert_job deployment.database deployment.seams deployment.cfg deployment.build_messages
      deployment.job deployment.settings 0 2 first_try
    ≡ (JobEnd.done JobResult.skipped, record (open_session first_try) { world = first_try.world })
triage_alert_job-rerun_example =
    triage_alert_job-rerun deployment.database deployment.seams deployment.cfg
      deployment.build_messages deployment.job deployment.settings 0 1 2
      (session_on one_alert quiet) first_try first_try.world first-triages up

-- The same session is shipped twice.
abbrev shipped_twice : Session World
shipped_twice = ingest_in deployment alert (ingest_in deployment alert (session_on empty_db quiet))

Reachable-Deduplicated_example : Deduplicated shipped_twice.committed.alerts
Reachable-Deduplicated_example = Reachable-Deduplicated deployment (
    Reachable.stepped
      (Reachable.stepped (Reachable.started quiet)
        (Step.ingested (session_on empty_db quiet) alert))
      (Step.ingested (ingest_in deployment alert (session_on empty_db quiet)) alert))
