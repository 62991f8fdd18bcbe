-- ===== src/Core/Services/Ingested.antt =====
-- core/services/alerts.py: the insert is idempotent.
use sentinel_brief.Prelude.{
  Text, ℕ, ◌≡◌, refl, String, false, Option, none, some, List, [], ◌∷◌, ◌++◌, eq_iff, arith,
}
use sentinel_brief.Core.Alert.{SessionAlert}
use sentinel_brief.Core.Database.{AlertRow, Db}
use sentinel_brief.Core.Services.{find_fingerprint, fingerprint, new_row, upserted, insert_alert}

find_fingerprint-append :
    (key : String) (rows : List AlertRow) (row : AlertRow)
    → find_fingerprint key rows ≡ none
    → row.fingerprint ≡ key
    → find_fingerprint key (rows ++ (row ∷ [])) ≡ some row
unfolding find_fingerprint
find_fingerprint-append key [] row h e = ground (arith, eq_iff row.fingerprint key)
find_fingerprint-append key (r ∷ rows) row h e =
    ground (arith, find_fingerprint-append key rows row)

-- A second insert of an alert with the same fingerprint changes nothing: it finds the row that the
-- first one made or found, reports it as not created, and reports its status.
insert_alert-idempotent :
    (sha256_hex : Text → String) (isoformat : ℕ → Text) (first second : SessionAlert) (db : Db)
    → fingerprint sha256_hex isoformat second ≡ fingerprint sha256_hex isoformat first
    → insert_alert sha256_hex isoformat second (insert_alert sha256_hex isoformat first db).1 ≡ (
      record (insert_alert sha256_hex isoformat first db).0 { created = false },
      (insert_alert sha256_hex isoformat first db).1,
    )
unfolding insert_alert
insert_alert-idempotent sha256_hex isoformat first second db e =
    split (find_fingerprint (fingerprint sha256_hex isoformat first) db.alerts) refl
  where
    split :
        (found : Option AlertRow)
        → find_fingerprint (fingerprint sha256_hex isoformat first) db.alerts ≡ found
        → insert_alert sha256_hex isoformat second (upserted sha256_hex isoformat first db found).1
          ≡ (
            record (upserted sha256_hex isoformat first db found).0 { created = false },
            (upserted sha256_hex isoformat first db found).1,
          )
    split none f =
        rw
          (
            e,
            find_fingerprint-append (fingerprint sha256_hex isoformat first) db.alerts
                (new_row sha256_hex isoformat first db.next_id) f refl,
          )
          refl
    split (some row) f = rw (e, f) refl
