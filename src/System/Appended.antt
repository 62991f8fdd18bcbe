-- ===== src/System/Appended.antt =====
-- The record of verdicts: it only grows, by one at a time.
use mathlib.Core.List.{append-nil}
use sentinel_brief.Prelude.{
  ℕ, ◌≤◌, ◌≡◌, refl, ap, sym, ◌∙◌, inl, inr, Text, String, Option, none, some, List, [], ◌∷◌, ◌++◌,
  length, Result, ok, err, arith,
}
use sentinel_brief.Action.Ends.{Ended}
use sentinel_brief.Api.Deps.Transaction.{OneOf}
use sentinel_brief.Api.Ingest.{ingest_alert}
use sentinel_brief.Api.Ingest.Durable.{ingest_alert_durable}
use sentinel_brief.Api.Retriage.{retriage_alert}
use sentinel_brief.Api.Retriage.Guarded.{Retriable, reopened, retriage_alert_guarded}
use sentinel_brief.Core.Alert.{SessionAlert}
use sentinel_brief.Core.Errors.{Exn}
use sentinel_brief.Core.Database.{AlertRow, VerdictRow, Db}
use sentinel_brief.Core.Services.{find_fingerprint, fingerprint, upserted, insert_alert}
use sentinel_brief.Core.Session.{Session}
use sentinel_brief.Core.Session.Sees.{Sees}
use sentinel_brief.System.{Deployment, Step}
use sentinel_brief.Worker.Attempt.Atomic.{RanOn}
use sentinel_brief.Worker.Job.{JobEnd, JobResult, triage_alert_job}
use sentinel_brief.Worker.Job.Outcomes.{JobLeaves, triage_alert_job_leaves}
use sentinel_brief.Worker.Outcome.{TriageOutcome}

-- The later record is the earlier one with at most one verdict behind it.
abbrev pub Appended : List VerdictRow → List VerdictRow → Type 0
Appended vs ws = (more : List VerdictRow) × (ws ≡ vs ++ more) × (length more ≤ 1)

same-Appended : (vs ws : List VerdictRow) → ws ≡ vs → Appended vs ws
same-Appended vs ws e = ([], e ∙ sym (append-nil vs), omega arith)

job-Appended :
    {W : Type 0} (Ran : AlertRow → TriageOutcome → Type 0) (alert_id : ℕ) (c : Db)
    (r : JobEnd × Session W)
    → JobLeaves Ran alert_id c r
    → Appended c.verdicts r.1.committed.verdicts
job-Appended Ran alert_id c (JobEnd.done JobResult.triaged, s) l =
    (_ ∷ [], ap (λ d. d.verdicts) l.1.1.0, omega arith)
job-Appended Ran alert_id c (JobEnd.done JobResult.failed, s) l =
    same-Appended _ _ (ap (λ d. d.verdicts) l.0)
job-Appended Ran alert_id c (JobEnd.done JobResult.skipped, s) l =
    same-Appended _ _ (ap (λ d. d.verdicts) l.0)
job-Appended Ran alert_id c (JobEnd.done JobResult.missing, s) l =
    same-Appended _ _ (ap (λ d. d.verdicts) l.0)
job-Appended Ran alert_id c (JobEnd.retry_in d, s) l = same-Appended _ _ (ap (λ d. d.verdicts) l.0)
job-Appended Ran alert_id c (JobEnd.crashed e, s) l = same-Appended _ _ (ap (λ d. d.verdicts) l.0)

route-verdicts :
    {W A : Type 0} (c d : Db) (X : A → Type 0) (Y : Type 0) (r : Result Exn A × Session W)
    → Ended (λ a s. X a × Sees d d s) (OneOf Y c d) r
    → d.verdicts ≡ c.verdicts
    → r.1.committed.verdicts ≡ c.verdicts
route-verdicts c d X Y (ok a, s) l e = ap (λ b. b.verdicts) l.1.0 ∙ e
route-verdicts c d X Y (err x, s) (inl l) e = ap (λ b. b.verdicts) l.0
route-verdicts c d X Y (err x, s) (inr (y, l)) e = ap (λ b. b.verdicts) l.0 ∙ e

insert_alert-verdicts :
    (sha256_hex : Text → String) (isoformat : ℕ → Text) (alert : SessionAlert) (c : Db)
    → (insert_alert sha256_hex isoformat alert c).1.verdicts ≡ c.verdicts
unfolding insert_alert
insert_alert-verdicts sha256_hex isoformat alert c =
    by_row (find_fingerprint (fingerprint sha256_hex isoformat alert) c.alerts)
  where
    by_row :
        (found : Option AlertRow)
        → (upserted sha256_hex isoformat alert c found).1.verdicts ≡ c.verdicts
    by_row none = refl
    by_row (some row) = refl

-- No step changes or removes a committed verdict: the record after it is the record before it, in
-- the same order, with at most one verdict more.
pub Step-Appended :
    {W : Type 0} (d : Deployment W) {s t : Session W}
    → Step d s t
    → Appended s.committed.verdicts t.committed.verdicts
Step-Appended d (Step.ingested s alert) = same-Appended _ _ (
    route-verdicts s.committed _ _ _
      (ingest_alert d.database d.queue d.sha256_hex d.isoformat alert s)
      (ingest_alert_durable d.database d.queue d.sha256_hex d.isoformat alert s)
      (insert_alert-verdicts d.sha256_hex d.isoformat alert s.committed))
Step-Appended d (Step.worked s alert_id job_try) =
    job-Appended (RanOn d.database d.seams d.cfg d.build_messages) alert_id s.committed
      (triage_alert_job d.database d.seams d.cfg d.build_messages d.job d.settings alert_id job_try
        s)
      (triage_alert_job_leaves d.database d.seams d.cfg d.build_messages d.job d.settings alert_id
        job_try s)
Step-Appended d (Step.retriaged s alert_id) = same-Appended _ _ (
    route-verdicts s.committed (reopened alert_id s.committed) (λ _. Retriable alert_id s.committed)
      (Retriable alert_id s.committed) (retriage_alert d.database d.queue d.cap alert_id s)
      (retriage_alert_guarded d.database d.queue d.cap alert_id s) refl)
Step-Appended d (Step.elapsed s w) = same-Appended _ _ refl
