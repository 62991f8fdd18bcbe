-- ===== src/Worker/Job/Outcomes.antt =====
-- worker/jobs.py: what one try of the job may leave in the tables, whatever happens in it.
use sentinel_brief.Prelude.{ℕ, ◌≡◌, refl, Bool, true, some, List, Result, ok, err}
use sentinel_brief.Core.Alert.{SessionAlert}
use sentinel_brief.Core.Database.{AlertStatus, AlertRow, Db, find_alert}
use sentinel_brief.Core.Errors.{Exn}
use sentinel_brief.Core.Llm.{ChatMessage}
use sentinel_brief.Action.Ends.{Ended, bind-Ends}
use sentinel_brief.Worker.Attempt.{AttemptResult, triage_attempt, is_pending}
use sentinel_brief.Worker.Attempt.Atomic.{RanOn, Settled, with_outcome, triage_attempt_atomic}
use sentinel_brief.Worker.Job.{
  ExceptClause, clause_of, handled, JobResult, JobEnd, JobSettings, JobSeams, mark_alert_failed,
  handle_attempt_failure, failed_by, decided, published, after_attempt, triage_alert_job,
}
use sentinel_brief.Worker.Outcome.{TriageOutcome}
use sentinel_brief.Worker.Retry.{PolicyError, RetryAction, RetryDecision, decide_retry}
use sentinel_brief.Core.Session.{Database, Session, open_session, rollback}
use sentinel_brief.Worker.Store.{put_status}
use sentinel_brief.Worker.Store.Persisted.{set_alert_status-Ends}
use sentinel_brief.Core.Session.Sees.{Sees, Kept, commit-Ends}
use sentinel_brief.Pipeline.Seams.{Seams, Pipeline}

-- From the committed tables `c`, by how the try ended, if `Ran` is what a run gives. No transaction
-- is left open.
abbrev pub JobLeaves :
    {W : Type 0} → (AlertRow → TriageOutcome → Type 0) → ℕ → Db → JobEnd × Session W → Type 0
JobLeaves Ran alert_id c (JobEnd.done JobResult.triaged, s) =
    (p : (row : AlertRow) × (find_alert alert_id c.alerts ≡ some row)
      × (is_pending row.status ≡ true))
    × ((o : TriageOutcome) × Sees (with_outcome alert_id o c) (with_outcome alert_id o c) s
        × Ran p.0 o)
JobLeaves Ran alert_id c (JobEnd.done JobResult.failed, s) =
    Sees (put_status alert_id AlertStatus.failed c) (put_status alert_id AlertStatus.failed c) s
JobLeaves Ran alert_id c (JobEnd.done JobResult.skipped, s) = Sees c c s
JobLeaves Ran alert_id c (JobEnd.done JobResult.missing, s) = Sees c c s
JobLeaves Ran alert_id c (JobEnd.retry_in d, s) = Sees c c s
JobLeaves Ran alert_id c (JobEnd.crashed e, s) = Sees c c s

module _ {W : Type 0} (database : Database W) (seams : Seams W) (cfg : Pipeline)
    (build_messages : SessionAlert → List ChatMessage) (job : JobSeams W)
    (settings : JobSettings) where
  abbrev Ran : AlertRow → TriageOutcome → Type 0
  Ran = RanOn database seams cfg build_messages

  pub mark_alert_failed-Ended :
      {c : Db} (alert_id : ℕ) (s : Session W)
      → Sees c c s
      → Ended
          (λ _.
            Sees {W = W}
              (put_status alert_id AlertStatus.failed c)
              (put_status alert_id AlertStatus.failed c))
          (Kept c)
          (mark_alert_failed database seams cfg build_messages job settings alert_id s)
  unfolding mark_alert_failed
  mark_alert_failed-Ended alert_id s h =
      (bind-Ends _ _ (set_alert_status-Ends database alert_id AlertStatus.failed)
          (λ _. commit-Ends database)).at
        (open_session s) (h.0, h.0)

  failed_by-Leaves :
      (c : Db) (alert_id : ℕ) (r : Result Exn (Unit {0}) × Session W)
      → Ended
          (λ _.
            Sees {W = W}
              (put_status alert_id AlertStatus.failed c)
              (put_status alert_id AlertStatus.failed c))
          (Kept c)
          r
      → JobLeaves Ran alert_id c (failed_by database seams cfg build_messages job settings r)
  failed_by-Leaves c alert_id (ok u, s) h = (h.0, h.0)
  failed_by-Leaves c alert_id (err e, s) h = (h, h)

  decided-Leaves :
      (c : Db) (alert_id : ℕ) (r : Result PolicyError RetryDecision) (s : Session W)
      → Sees c c s
      → JobLeaves Ran alert_id c
          (decided database seams cfg build_messages job settings alert_id r s)
  decided-Leaves c alert_id (err e) s h = h
  decided-Leaves c alert_id (ok d) s h = by_action d.action
    where
      by_action :
          (a : RetryAction)
          → JobLeaves {W = W} Ran alert_id c (elim a [
            | RetryAction.retry ↦ (JobEnd.retry_in d.defer_s, s)
            | RetryAction.fail ↦
                failed_by database seams cfg build_messages job settings
                  (mark_alert_failed database seams cfg build_messages job settings alert_id s)
          ])
      by_action RetryAction.retry = h
      by_action RetryAction.fail =
          failed_by-Leaves c alert_id _ (mark_alert_failed-Ended alert_id s h)

  handled-Leaves :
      (c : Db) (e : Exn) (alert_id job_try : ℕ) (s : Session W)
      → Sees c c s
      → JobLeaves Ran alert_id c (
          handle_attempt_failure database seams cfg build_messages job settings e alert_id job_try
            s)
  unfolding handle_attempt_failure
  handled-Leaves c e alert_id job_try s h =
      decided-Leaves c alert_id
        (decide_retry e job_try settings.triage_job_max_tries settings.triage_job_backoff_base_s
          settings.triage_job_backoff_max_s)
        s h

  published-Leaves :
      (c d : Db) (s : Session W) (r : Bool × W)
      → Sees d d s
      → Sees d d (published database seams cfg build_messages job settings s r).1
  published-Leaves c d s (b, w) h = h

  after-Leaves :
      (c : Db) (alert_id job_try : ℕ) (r : Result Exn AttemptResult) (s : Session W)
      → Ended (Settled Ran alert_id c) (Sees c c) (r, s)
      → JobLeaves Ran alert_id c (
          after_attempt database seams cfg build_messages job settings alert_id job_try r
            (rollback s))
  after-Leaves c alert_id job_try (ok AttemptResult.skipped) s h = (h.1.0, h.1.0)
  after-Leaves c alert_id job_try (ok (AttemptResult.triaged v o)) s h = (
    (h.0.0, h.0.1, h.0.2),
    (
      o,
      published-Leaves c (with_outcome alert_id o c) (rollback s)
          (job.publish_verdict_created alert_id v o.verdict s.world) (h.2.0, h.2.0),
      h.0.3,
    ),
  )
  after-Leaves c alert_id job_try (err e) s h = by_clause (clause_of e)
    where
      by_clause :
          (clause : ExceptClause)
          → JobLeaves Ran alert_id c (
              handled database seams cfg build_messages job settings clause e alert_id job_try
                (rollback s))
      by_clause ExceptClause.missing_alert = (h.0, h.0)
      by_clause ExceptClause.spent_budget = (h.0, h.0)
      by_clause ExceptClause.any_exception =
          handled-Leaves c e alert_id job_try (rollback s) (h.0, h.0)

-- One try of the job, whatever its database, its models and its clock do, changes the committed
-- tables only by the outcome that a run on its pending alert gives, when it reports triaged, or by
-- the failed status of its alert, when it reports failed. In every other case it leaves them as they
-- were, and it never leaves a transaction open.
pub triage_alert_job_leaves :
    {W : Type 0} (database : Database W) (seams : Seams W) (cfg : Pipeline)
    (build_messages : SessionAlert → List ChatMessage) (job : JobSeams W) (settings : JobSettings)
    (alert_id job_try : ℕ) (s : Session W)
    → JobLeaves
        (RanOn database seams cfg build_messages)
        alert_id
        s.committed
        (triage_alert_job database seams cfg build_messages job settings alert_id job_try s)
unfolding triage_alert_job
triage_alert_job_leaves database seams cfg build_messages job settings alert_id job_try s =
    go (triage_attempt database seams cfg build_messages alert_id (open_session s))
      (triage_attempt_atomic database seams cfg build_messages alert_id (open_session s) refl)
  where
    go :
        (p : Result Exn AttemptResult × Session _)
        → Ended
            (Settled (RanOn database seams cfg build_messages) alert_id s.committed)
            (Sees s.committed s.committed)
            p
        → JobLeaves (RanOn database seams cfg build_messages) alert_id s.committed (
            after_attempt database seams cfg build_messages job settings alert_id job_try p.0
              (rollback p.1))
    go (r, s') h =
        after-Leaves database seams cfg build_messages job settings s.committed alert_id job_try r
          s' h
