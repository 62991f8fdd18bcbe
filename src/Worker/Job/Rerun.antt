-- ===== src/Worker/Job/Rerun.antt =====
-- worker/jobs.py: a job that runs again after a success does nothing.
use mathlib.Core.Path.{subst}
use sentinel_brief.Prelude.{
  ℕ, ◌≡◌, refl, ap, ◌∙◌, ◌==◌, Bool, true, false, none, some, List, [], ◌∷◌, ok, if◌then◌else◌,
}
use sentinel_brief.Action.{◌>>=◌}
use sentinel_brief.Core.Alert.{SessionAlert}
use sentinel_brief.Core.Database.{AlertStatus, AlertRow, find_alert, update_status}
use sentinel_brief.Core.Llm.{ChatMessage}
use sentinel_brief.Core.Session.{Database, Session, select_for_update, open_session, rollback}
use sentinel_brief.Pipeline.Seams.{Seams, Pipeline}
use sentinel_brief.Worker.Attempt.{AttemptResult, attempt_locked, is_pending, triage_attempt}
use sentinel_brief.Worker.Attempt.Atomic.{RanOn}
use sentinel_brief.Worker.Job.{JobResult, JobEnd, JobSettings, JobSeams, triage_alert_job}
use sentinel_brief.Worker.Job.Outcomes.{JobLeaves, triage_alert_job_leaves}

-- The row that was found has the new status.
find_alert-update_status :
    (id : ℕ) (status : AlertStatus) (rows : List AlertRow) (row : AlertRow)
    → find_alert id rows ≡ some row
    → find_alert id (update_status id status rows) ≡ some (record row { status = status })
unfolding find_alert update_status
find_alert-update_status id status [] row h = cc
find_alert-update_status id status (r ∷ rs) row h =
    by_test (r.id == id) refl h (find_alert-update_status id status rs row)
  where
    by_test :
        (b : Bool)
        → (r.id == id) ≡ b
        → (if b then some r else find_alert id rs) ≡ some row
        → (find_alert id rs ≡ some row
            → find_alert id (update_status id status rs) ≡ some (record row { status = status }))
        → find_alert id
            (if b then record r { status = status } ∷ rs else r ∷ update_status id status rs)
          ≡ some (record row { status = status })
    by_test true e k more =
        rw e (ap some (ap {A = AlertRow} (λ x. record x { status = status }) (some_injective k)))
      where
        some_injective : {x y : AlertRow} → some x ≡ some y → x ≡ y
        some_injective p = cc
    by_test false e k more = rw e (more k)

module _ {W : Type 0} (database : Database W) (seams : Seams W) (cfg : Pipeline)
    (build_messages : SessionAlert → List ChatMessage) (job : JobSeams W)
    (settings : JobSettings) where
  locked-skips :
      (alert_id : ℕ) (row : AlertRow) (s : Session W)
      → is_pending row.status ≡ false
      → attempt_locked database seams cfg build_messages alert_id (some row) s
        ≡ (ok AttemptResult.skipped, rollback s)
  locked-skips alert_id row s p = rw (p, attempt_locked) refl

  -- The row is there, is not pending, and the locking read answers.
  skipped_try :
      (alert_id job_try : ℕ) (s : Session W) (row : AlertRow) (w : W)
      → find_alert alert_id s.committed.alerts ≡ some row
      → is_pending row.status ≡ false
      → database.select_for_update s.world ≡ (none, w)
      → triage_alert_job database seams cfg build_messages job settings alert_id job_try s
        ≡ (JobEnd.done JobResult.skipped, record (open_session s) { world = w })
  unfolding triage_alert_job triage_attempt select_for_update ◌>>=◌
  skipped_try alert_id job_try s row w f p e =
      rw (e, f, locked-skips alert_id row (record (open_session s) { world = w }) p) refl

-- After a try that reports triaged, any further try of the same job whose locking read answers is
-- skipped: it keeps the committed tables, and the world has answered that one read and nothing
-- else, so no model is called.
pub triage_alert_job-rerun :
    {W : Type 0} (database : Database W) (seams : Seams W) (cfg : Pipeline)
    (build_messages : SessionAlert → List ChatMessage) (job : JobSeams W) (settings : JobSettings)
    (alert_id job_try next_try : ℕ) (s t : Session W) (w : W)
    → triage_alert_job database seams cfg build_messages job settings alert_id job_try s
      ≡ (JobEnd.done JobResult.triaged, t)
    → database.select_for_update t.world ≡ (none, w)
    → triage_alert_job database seams cfg build_messages job settings alert_id next_try t
      ≡ (JobEnd.done JobResult.skipped, record (open_session t) { world = w })
triage_alert_job-rerun database seams cfg build_messages job settings alert_id job_try next_try s t
      w h e =
    let ((row, f, p), (o, (committed, db), ran)) =
      subst (JobLeaves (RanOn database seams cfg build_messages) alert_id s.committed) h (
        triage_alert_job_leaves database seams cfg build_messages job settings alert_id job_try
          s) in
    skipped_try database seams cfg build_messages job settings alert_id next_try t
      (record row { status = AlertStatus.triaged }) w
      (ap (λ d. find_alert alert_id d.alerts) committed
        ∙ find_alert-update_status alert_id AlertStatus.triaged s.committed.alerts row f)
      refl e
