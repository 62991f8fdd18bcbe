-- ===== src/System/Kept.antt =====
-- A property of the committed tables that each kind of write keeps holds after every step.
use mathlib.Core.Path.{subst}
use sentinel_brief.Prelude.{ℕ, ◌≡◌, sym, inl, inr, some, Result, ok, err}
use sentinel_brief.Action.Ends.{Ended}
use sentinel_brief.Api.Deps.Transaction.{OneOf}
use sentinel_brief.Api.Ingest.{ingest_alert}
use sentinel_brief.Api.Ingest.Durable.{ingest_alert_durable}
use sentinel_brief.Api.Retriage.{retriage_alert}
use sentinel_brief.Api.Retriage.Guarded.{Retriable, reopened, retriage_alert_guarded}
use sentinel_brief.Core.Alert.{SessionAlert}
use sentinel_brief.Core.Database.{AlertStatus, AlertRow, Db, find_alert}
use sentinel_brief.Core.Errors.{Exn}
use sentinel_brief.Core.Services.{insert_alert}
use sentinel_brief.Core.Session.{Session}
use sentinel_brief.Core.Session.Sees.{Sees}
use sentinel_brief.System.{Deployment, Step}
use sentinel_brief.Worker.Attempt.Atomic.{RanOn, with_outcome}
use sentinel_brief.Worker.Job.{JobEnd, JobResult, triage_alert_job}
use sentinel_brief.Worker.Job.Outcomes.{JobLeaves, triage_alert_job_leaves}
use sentinel_brief.Worker.Outcome.{TriageOutcome}
use sentinel_brief.Worker.Store.{put_status}

-- What each write of the system does to a property.
pub record Keeps {W : Type 0} (d : Deployment W) (P : Db → Type 0) : Type 0 where
  pub outcome :
      (alert_id : ℕ) (o : TriageOutcome) (c : Db) (row : AlertRow)
      → find_alert alert_id c.alerts ≡ some row
      → P c
      → P (with_outcome alert_id o c)
  pub failed : (alert_id : ℕ) (c : Db) → P c → P (put_status alert_id AlertStatus.failed c)
  pub pending : (alert_id : ℕ) (c : Db) → P c → P (put_status alert_id AlertStatus.pending c)
  pub insert :
      (alert : SessionAlert) (c : Db) → P c → P (insert_alert d.sha256_hex d.isoformat alert c).1

module _ {W : Type 0} (d : Deployment W) (P : Db → Type 0) (keeps : Keeps d P) where
  job-Keeps :
      (Ran : AlertRow → TriageOutcome → Type 0) (alert_id : ℕ) (c : Db) (r : JobEnd × Session W)
      → JobLeaves Ran alert_id c r
      → P c
      → P r.1.committed
  job-Keeps Ran alert_id c (JobEnd.done JobResult.triaged, s) l h =
      subst P (sym l.1.1.0) (keeps.outcome alert_id l.1.0 c l.0.0 l.0.1 h)
  job-Keeps Ran alert_id c (JobEnd.done JobResult.failed, s) l h =
      subst P (sym l.0) (keeps.failed alert_id c h)
  job-Keeps Ran alert_id c (JobEnd.done JobResult.skipped, s) l h = subst P (sym l.0) h
  job-Keeps Ran alert_id c (JobEnd.done JobResult.missing, s) l h = subst P (sym l.0) h
  job-Keeps Ran alert_id c (JobEnd.retry_in delay, s) l h = subst P (sym l.0) h
  job-Keeps Ran alert_id c (JobEnd.crashed e, s) l h = subst P (sym l.0) h

  route-Keeps :
      {A : Type 0} (c b : Db) (X : A → Type 0) (Y : Type 0) (r : Result Exn A × Session W)
      → Ended (λ a s. X a × Sees b b s) (OneOf Y c b) r
      → P c
      → P b
      → P r.1.committed
  route-Keeps c b X Y (ok a, s) l hc hb = subst P (sym l.1.0) hb
  route-Keeps c b X Y (err e, s) (inl l) hc hb = subst P (sym l.0) hc
  route-Keeps c b X Y (err e, s) (inr (y, l)) hc hb = subst P (sym l.0) hb

  pub Step-Keeps : {s t : Session W} → Step d s t → P s.committed → P t.committed
  Step-Keeps (Step.ingested s alert) h =
      route-Keeps s.committed _ _ _
        (ingest_alert d.database d.queue d.sha256_hex d.isoformat alert s)
        (ingest_alert_durable d.database d.queue d.sha256_hex d.isoformat alert s) h
        (keeps.insert alert s.committed h)
  Step-Keeps (Step.worked s alert_id job_try) h =
      job-Keeps (RanOn d.database d.seams d.cfg d.build_messages) alert_id s.committed
        (triage_alert_job d.database d.seams d.cfg d.build_messages d.job d.settings alert_id
          job_try s)
        (triage_alert_job_leaves d.database d.seams d.cfg d.build_messages d.job d.settings alert_id
          job_try s)
        h
  Step-Keeps (Step.retriaged s alert_id) h =
      route-Keeps s.committed (reopened alert_id s.committed) (λ _. Retriable alert_id s.committed)
        (Retriable alert_id s.committed) (retriage_alert d.database d.queue d.cap alert_id s)
        (retriage_alert_guarded d.database d.queue d.cap alert_id s) h
        (keeps.pending alert_id s.committed h)
  Step-Keeps (Step.elapsed s w) h = h
