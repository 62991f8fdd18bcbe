-- ===== src/Api/Ingest/Durable.antt =====
-- api/routes/alerts.py: what a request leaves in the tables, on every path.
use sentinel_brief.Prelude.{
  Text, ℕ, ◌≡◌, refl, ap, Bool, true, false, ◌||◌, inl, inr, String, if◌then◌else◌,
}
use sentinel_brief.Core.Alert.{SessionAlert}
use sentinel_brief.Core.Database.{Db}
use sentinel_brief.Core.Queue.{Queue, enqueue_triage}
use sentinel_brief.Core.Queue.Enqueued.{enqueue_triage-Ends}
use sentinel_brief.Core.Services.{insert_alert}
use sentinel_brief.Core.Session.{Database, Session, commit}
use sentinel_brief.Core.Session.Sees.{Sees, Kept, flush-Ends, commit-Ends}
use sentinel_brief.Action.{pure, ◌>>◌}
use sentinel_brief.Action.Ends.{Ended, Ends, pure-Ends, bind-Ends, given-Ends, weaken-Ends}
use sentinel_brief.Api.Deps.Transaction.{OneOf, KeptOneOf, Written, in_session-Ended}
use sentinel_brief.Api.Ingest.{insert_in_session, ingest_route, ingest_alert}
use sentinel_brief.Worker.Attempt.{is_pending}

module _ {W : Type 0} (database : Database W) (queue : Queue W) (sha256_hex : Text → String)
    (isoformat : ℕ → Text) where
  insert_in_session-Ends :
      (c : Db) (alert : SessionAlert)
      → Ends
          (Sees c c)
          (insert_in_session database queue sha256_hex isoformat alert)
          (λ r s.
            (r ≡ (insert_alert sha256_hex isoformat alert c).0)
            × Sees c (insert_alert sha256_hex isoformat alert c).1 s)
          (Kept c)
  unfolding insert_in_session
  insert_in_session-Ends c alert = bind-Ends _ _ (flush-Ends database) (λ _. record {
    at = λ s h. (
      ap (λ d. (insert_alert sha256_hex isoformat alert d).0) h.1,
      (h.0, ap (λ d. (insert_alert sha256_hex isoformat alert d).1) h.1),
    );
  })

  queued-Ends :
      (c d : Db) (alert_id : ℕ) (b : Bool)
      → Ends
          (Sees c d)
          (if b then (do commit database; enqueue_triage queue alert_id; pure tt) else pure tt)
          (λ _ s. Written Unit c d s)
          (KeptOneOf Unit c d)
  queued-Ends c d alert_id false = pure-Ends tt (λ s h. inl h)
  queued-Ends c d alert_id true =
      bind-Ends _ _
        (weaken-Ends {F = KeptOneOf Unit c d} (commit-Ends database) (λ u s k. k) (λ s k. inl k))
        (λ _.
          bind-Ends _ _
            (weaken-Ends {F = KeptOneOf Unit c d} (enqueue_triage-Ends queue alert_id) (λ u s k. k)
              (λ s k. inr (tt, k)))
            (λ _. pure-Ends tt (λ s k. inr (tt, k))))

  ingest_route-Ends :
      (c : Db) (alert : SessionAlert)
      → Ends
          (Sees c c)
          (ingest_route database queue sha256_hex isoformat alert)
          (λ a s.
            (a.body ≡ (insert_alert sha256_hex isoformat alert c).0)
            × Written Unit c (insert_alert sha256_hex isoformat alert c).1 s)
          (KeptOneOf Unit c (insert_alert sha256_hex isoformat alert c).1)
  unfolding ingest_route
  ingest_route-Ends c alert =
      bind-Ends _ _
        (weaken-Ends {F = KeptOneOf Unit c (insert_alert sha256_hex isoformat alert c).1}
          (insert_in_session-Ends c alert) (λ r s k. k) (λ s k. inl k))
        (λ r. given-Ends (λ e.
          bind-Ends _ _
            (queued-Ends c (insert_alert sha256_hex isoformat alert c).1 r.alert_id
              (r.created || is_pending r.status))
            (λ _. pure-Ends _ (λ s k. (e, k)))))

-- A reply is given only when the deduplicated insert is committed, and it reports that insert. An
-- exception leaves the tables as they were or with the insert committed (the queue failed after
-- it), and nothing in between; no transaction stays open.
pub ingest_alert_durable :
    {W : Type 0} (database : Database W) (queue : Queue W) (sha256_hex : Text → String)
    (isoformat : ℕ → Text) (alert : SessionAlert) (s : Session W)
    → Ended
        (λ reply t.
          (reply.body ≡ (insert_alert sha256_hex isoformat alert s.committed).0)
          × Sees
              (insert_alert sha256_hex isoformat alert s.committed).1
              (insert_alert sha256_hex isoformat alert s.committed).1
              t)
        (OneOf Unit s.committed (insert_alert sha256_hex isoformat alert s.committed).1)
        (ingest_alert database queue sha256_hex isoformat alert s)
unfolding ingest_alert
ingest_alert_durable database queue sha256_hex isoformat alert s =
    in_session-Ended s.committed (insert_alert sha256_hex isoformat alert s.committed).1 database _
      (λ reply. reply.body ≡ (insert_alert sha256_hex isoformat alert s.committed).0) Unit s refl
      (ingest_route-Ends database queue sha256_hex isoformat s.committed alert)
