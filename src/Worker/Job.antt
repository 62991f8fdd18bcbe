-- ===== src/Worker/Job.antt =====
-- worker/jobs.py: one try of the ARQ job, and what it leaves behind.
pub mod Outcomes
pub mod Clauses
pub mod Policy
pub mod Rerun
use sentinel_brief.Prelude.{ℕ, ◌-◌, ◌%◌, String, Bool, Option, none, some, List, Result, ok, err}
use sentinel_brief.Core.Alert.{SessionAlert}
use sentinel_brief.Core.Database.{AlertStatus}
use sentinel_brief.Core.Errors.{Exn}
use sentinel_brief.Core.Llm.{ChatMessage}
use sentinel_brief.Core.Verdict.{Verdict}
use sentinel_brief.Action.{Action, ◌>>=◌, ◌>>◌}
use sentinel_brief.Worker.Attempt.{AttemptResult, triage_attempt}
use sentinel_brief.Worker.Retry.{PolicyError, RetryAction, RetryDecision, decide_retry}
use sentinel_brief.Core.Session.{Database, Session, commit, open_session, rollback}
use sentinel_brief.Worker.Store.{set_alert_status}
use sentinel_brief.Pipeline.Seams.{Seams, Pipeline}

pub data JobResult : Type 0 where
  triaged failed skipped missing : JobResult

-- A try returns a result, raises `Retry` with a delay, or crashes with another exception.
pub data JobEnd : Type 0 where
  done : JobResult → JobEnd
  retry_in : ℕ → JobEnd
  crashed : Exn → JobEnd

pub record JobSettings : Type 0 where
  pub triage_job_max_tries : ℕ
  pub triage_job_backoff_base_s : ℕ
  pub triage_job_backoff_max_s : ℕ

-- The rest of the job's world: the publishing of a verdict, which never raises (`false` is a Redis
-- failure), and the clock, in seconds of UTC.
pub record JobSeams (W : Type 0) : Type 0 where
  pub publish_verdict_created : ℕ → ℕ → Verdict → W → Bool × W
  pub now : W → ℕ

abbrev pub day_s : ℕ
day_s = 86400

-- `_seconds_until_next_utc_day`
unfoldable pub seconds_until_next_utc_day : ℕ → ℕ
seconds_until_next_utc_day now = day_s - now % day_s

abbrev pub policy_exn : PolicyError → Exn
policy_exn PolicyError.value_error = Exn.other "ValueError"
policy_exn PolicyError.overflow_error = Exn.other "OverflowError"

-- The `except` clause that takes an exception: they are tried in this order.
pub data ExceptClause : Type 0 where
  missing_alert spent_budget any_exception : ExceptClause

abbrev pub clause_of : Exn → ExceptClause
clause_of Exn.not_found = ExceptClause.missing_alert
clause_of (Exn.budget_exceeded tokens_today budget) = ExceptClause.spent_budget
clause_of e = ExceptClause.any_exception

module _ {W : Type 0} (database : Database W) (seams : Seams W) (cfg : Pipeline)
    (build_messages : SessionAlert → List ChatMessage) (job : JobSeams W)
    (settings : JobSettings) where
  -- In its own fresh session.
  unfoldable pub mark_alert_failed : ℕ → Action (Session W) (Unit {0})
  mark_alert_failed alert_id s =
      (set_alert_status database alert_id AlertStatus.failed >> commit database) (open_session s)

  abbrev pub failed_by : Result Exn (Unit {0}) × Session W → JobEnd × Session W
  failed_by (ok _, s) = (JobEnd.done JobResult.failed, rollback s)
  failed_by (err e, s) = (JobEnd.crashed e, rollback s)

  abbrev pub decided : ℕ → Result PolicyError RetryDecision → Session W → JobEnd × Session W
  decided alert_id (err e) s = (JobEnd.crashed (policy_exn e), s)
  decided alert_id (ok d) s = elim d.action [
    | RetryAction.retry ↦ (JobEnd.retry_in d.defer_s, s)
    | RetryAction.fail ↦ failed_by (mark_alert_failed alert_id s)
  ]

  -- `_handle_attempt_failure`
  unfoldable pub handle_attempt_failure : Exn → ℕ → ℕ → Session W → JobEnd × Session W
  handle_attempt_failure exc alert_id job_try s =
      decided alert_id
        (decide_retry exc job_try settings.triage_job_max_tries settings.triage_job_backoff_base_s
          settings.triage_job_backoff_max_s)
        s

  abbrev pub published : Session W → Bool × W → JobEnd × Session W
  published s (_, w) = (JobEnd.done JobResult.triaged, record s { world = w })

  -- The `except` clauses, then the end of the function.
  abbrev pub handled : ExceptClause → Exn → ℕ → ℕ → Session W → JobEnd × Session W
  handled ExceptClause.missing_alert e alert_id job_try s = (JobEnd.done JobResult.missing, s)
  handled ExceptClause.spent_budget e alert_id job_try s =
      (JobEnd.retry_in (seconds_until_next_utc_day (job.now s.world)), s)
  handled ExceptClause.any_exception e alert_id job_try s =
      handle_attempt_failure e alert_id job_try s

  abbrev pub after_attempt : ℕ → ℕ → Result Exn AttemptResult → Session W → JobEnd × Session W
  after_attempt alert_id job_try (err e) s = handled (clause_of e) e alert_id job_try s
  after_attempt alert_id job_try (ok AttemptResult.skipped) s = (JobEnd.done JobResult.skipped, s)
  after_attempt alert_id job_try (ok (AttemptResult.triaged verdict_id outcome)) s =
      published s (job.publish_verdict_created alert_id verdict_id outcome.verdict s.world)

  -- The session is closed, which rolls back, before an exception is handled.
  unfoldable pub triage_alert_job : ℕ → ℕ → Session W → JobEnd × Session W
  triage_alert_job alert_id job_try s =
      let (r, s') = triage_attempt database seams cfg build_messages alert_id (open_session s) in
      after_attempt alert_id job_try r (rollback s')
