-- ===== src/Worker/Job/Policy.antt =====
-- worker/jobs.py: the clauses of the job, by what the attempt raised.
use sentinel_brief.Prelude.{ℕ, ◌≡◌, refl, List, err}
use sentinel_brief.Core.Alert.{SessionAlert}
use sentinel_brief.Core.Errors.{Exn}
use sentinel_brief.Core.Llm.{ChatMessage}
use sentinel_brief.Worker.Attempt.{triage_attempt}
use sentinel_brief.Worker.Job.{
  JobEnd, JobSettings, JobSeams, triage_alert_job, seconds_until_next_utc_day,
}
use sentinel_brief.Worker.Attempt.Atomic.{RanOn, Settled, triage_attempt_atomic}
use sentinel_brief.Core.Session.{Database, Session, open_session}
use sentinel_brief.Pipeline.Seams.{Seams, Pipeline}
use sentinel_brief.Worker.Job.Clauses.{
  IsUntilMidnight, seconds_until_next_utc_day-IsUntilMidnight, raised-keeps,
}

-- The daily budget is a deferral at every try: an attempt that raises it ends in a retry at the
-- next UTC midnight, and the committed tables stay as they were.
pub triage_alert_job-budget :
    {W : Type 0} (database : Database W) (seams : Seams W) (cfg : Pipeline)
    (build_messages : SessionAlert → List ChatMessage) (job : JobSeams W) (settings : JobSettings)
    (alert_id job_try tokens_today budget : ℕ) (s : Session W)
    → (triage_attempt database seams cfg build_messages alert_id (open_session s)).0
      ≡ err (Exn.budget_exceeded tokens_today budget)
    → (d : ℕ) × ((triage_alert_job database seams cfg build_messages job settings alert_id job_try
          s).0
        ≡ JobEnd.retry_in d)
      × IsUntilMidnight
          (job.now
            (triage_attempt database seams cfg build_messages alert_id (open_session s)).1.world)
          d
      × ((triage_alert_job database seams cfg build_messages job settings alert_id job_try
            s).1.committed
          ≡ s.committed)
unfolding triage_alert_job
triage_alert_job-budget database seams cfg build_messages job settings alert_id job_try t b s h = (
  seconds_until_next_utc_day now,
  rw h refl,
  seconds_until_next_utc_day-IsUntilMidnight now,
  rw h (
      raised-keeps (Settled (RanOn database seams cfg build_messages) alert_id s.committed) _ h
        (triage_attempt_atomic database seams cfg build_messages alert_id (open_session s) refl)),
)
  where
    now : ℕ
    now =
        job.now (triage_attempt database seams cfg build_messages alert_id (open_session s)).1.world
