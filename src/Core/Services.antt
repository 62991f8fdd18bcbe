-- ===== src/Core/Services.antt =====
-- core/services/alerts.py over the tables: the deduplicating insert and the status writes. Flushing
-- and locking are the session's, in Worker/Session and in Api.
pub mod Ingested
use sentinel_brief.Prelude.{
  Text, codes, ℕ, ◌+◌, String, Bool, true, false, Option, none, some, List, [], ◌∷◌, ◌++◌, ◌==ₛ◌,
  if◌then◌else◌,
}
use sentinel_brief.Core.Alert.{SessionAlert, connect_time}
use sentinel_brief.Core.Database.{AlertStatus, AlertRow, Db}

abbrev pub bar : ℕ
bar = 0x7c

pub record IngestResult : Type 0 where
  pub alert_id : ℕ
  pub created : Bool
  pub status : AlertStatus

-- The row that the unique index finds.
unfoldable pub find_fingerprint : String → List AlertRow → Option AlertRow
find_fingerprint key [] = none
find_fingerprint key (row ∷ rows) =
    if row.fingerprint ==ₛ key then some row else find_fingerprint key rows

-- `hashlib.sha256(…).hexdigest()` and `datetime.isoformat` are the caller's.
module _ (sha256_hex : Text → String) (isoformat : ℕ → Text) where
  unfoldable pub fingerprint : SessionAlert → String
  fingerprint alert = sha256_hex (
      codes alert.source
      ++ (bar ∷ (codes alert.session_id ++ (bar ∷ isoformat (connect_time alert)))))

  abbrev pub new_row : SessionAlert → ℕ → AlertRow
  new_row alert id = record {
    id = id;
    fingerprint = fingerprint alert;
    source = alert.source;
    event_time = connect_time alert;
    raw = alert;
    status = AlertStatus.pending;
  }

  -- What the insert's RETURNING and the read after it give.
  abbrev pub upserted : SessionAlert → Db → Option AlertRow → IngestResult × Db
  upserted alert db (some row) =
      (record { alert_id = row.id; created = false; status = row.status }, db)
  upserted alert db none = (
    record { alert_id = db.next_id; created = true; status = AlertStatus.pending },
    record db { alerts = db.alerts ++ (new_row alert db.next_id ∷ []); next_id = db.next_id + 1 },
  )

  unfoldable pub insert_alert : SessionAlert → Db → IngestResult × Db
  insert_alert alert db = upserted alert db (find_fingerprint (fingerprint alert) db.alerts)
