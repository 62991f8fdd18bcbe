-- ===== src/Api/Ingest.antt =====
-- api/routes/alerts.py: `ingest_alert`.
pub mod Durable
use sentinel_brief.Prelude.{
  Text, ℕ, String, Bool, true, false, ◌||◌, Result, ok, err, if◌then◌else◌,
}
use sentinel_brief.Core.Alert.{SessionAlert}
use sentinel_brief.Core.Errors.{Exn}
use sentinel_brief.Core.Queue.{Queue, enqueue_triage}
use sentinel_brief.Core.Services.{IngestResult, insert_alert}
use sentinel_brief.Core.Session.{Database, Session, flush, commit}
use sentinel_brief.Action.{Action, pure, ◌>>=◌, ◌>>◌}
use sentinel_brief.Api.Deps.{in_session}
use sentinel_brief.Worker.Attempt.{is_pending}

pub record IngestReply : Type 0 where
  pub status_code : ℕ
  pub body : IngestResult

module _ {W : Type 0} (database : Database W) (queue : Queue W) (sha256_hex : Text → String)
    (isoformat : ℕ → Text) where
  -- The statements of `insert_alert` answer, or raise, before the tables change.
  unfoldable pub insert_in_session : SessionAlert → Action (Session W) IngestResult
  insert_in_session alert = do
    flush database
    (λ s.
        let (result, db) = insert_alert sha256_hex isoformat alert s.db in
        (ok result, record s { db = db }))

  -- The row is committed before the job is queued.
  unfoldable pub ingest_route : SessionAlert → Action (Session W) IngestReply
  ingest_route alert = do
    result ← insert_in_session alert
    (if result.created || is_pending result.status
        then (do commit database; enqueue_triage queue result.alert_id; pure tt)
        else pure tt)
    pure (record { status_code = if result.created then 202 else 200; body = result })

  unfoldable pub ingest_alert : SessionAlert → Action (Session W) IngestReply
  ingest_alert alert = in_session database (ingest_route alert)
