-- ===== src/System/Deduplicated.antt =====
-- core/services/alerts.py and core/models/alerts.py: one alert for a fingerprint, at all times.
use sentinel_brief.Prelude.{
  Text, ℕ, ◌≡◌, ◌≢◌, refl, ◌==◌, ◌==ₛ◌, eq_iff, String, Bool, true, false, Option, none, some, List,
  [], ◌∷◌, ◌++◌, All, All-append, arith, if◌then◌else◌,
}
use sentinel_brief.Core.Alert.{SessionAlert}
use sentinel_brief.Core.Database.{AlertStatus, AlertRow, Db, update_status}
use sentinel_brief.Core.Services.{find_fingerprint, fingerprint, new_row, upserted, insert_alert}
use sentinel_brief.Core.Session.{Session}
use sentinel_brief.System.{Deployment, Reachable}
use sentinel_brief.System.Kept.{Keeps, Step-Keeps}

-- No two rows share a fingerprint.
abbrev pub Deduplicated : List AlertRow → Type 0
Deduplicated [] = Unit
Deduplicated (r ∷ rs) = All (λ x. x.fingerprint ≢ r.fingerprint) rs × Deduplicated rs

module _ (id : ℕ) (status : AlertStatus) where
  -- A property of fingerprints, which a status has no part in.
  All-update_status :
      (P : String → Type 0) (rs : List AlertRow)
      → All (λ r. P r.fingerprint) rs
      → All (λ r. P r.fingerprint) (update_status id status rs)
  unfolding update_status
  All-update_status P [] h = tt
  All-update_status P (r ∷ rs) h = by_test (r.id == id) (All-update_status P rs h.1)
    where
      by_test :
          (b : Bool)
          → All (λ x. P x.fingerprint) (update_status id status rs)
          → All
              (λ x. P x.fingerprint)
              (if b then record r { status = status } ∷ rs else r ∷ update_status id status rs)
      by_test true rest = h
      by_test false rest = (h.0, rest)

  update_status-Deduplicated :
      (rs : List AlertRow) → Deduplicated rs → Deduplicated (update_status id status rs)
  unfolding update_status
  update_status-Deduplicated [] h = tt
  update_status-Deduplicated (r ∷ rs) h = by_test (r.id == id) (update_status-Deduplicated rs h.1)
    where
      by_test :
          (b : Bool)
          → Deduplicated (update_status id status rs)
          → Deduplicated
              (if b then record r { status = status } ∷ rs else r ∷ update_status id status rs)
      by_test true rest = h
      by_test false rest = (All-update_status (λ key. key ≢ r.fingerprint) rs h.0, rest)

distinct :
    (r row : AlertRow)
    → (r.fingerprint ==ₛ row.fingerprint) ≡ false
    → row.fingerprint ≡ r.fingerprint
    → ⊥
distinct r row t p = ground (arith, eq_iff r.fingerprint row.fingerprint)

append-Deduplicated :
    (rs : List AlertRow) (row : AlertRow)
    → find_fingerprint row.fingerprint rs ≡ none
    → Deduplicated rs
    → Deduplicated (rs ++ (row ∷ []))
unfolding find_fingerprint
append-Deduplicated [] row e h = (tt, tt)
append-Deduplicated (r ∷ rs) row e h =
    by_test (r.fingerprint ==ₛ row.fingerprint) refl e (append-Deduplicated rs row)
  where
    by_test :
        (b : Bool)
        → (r.fingerprint ==ₛ row.fingerprint) ≡ b
        → (if b then some r else find_fingerprint row.fingerprint rs) ≡ none
        → (find_fingerprint row.fingerprint rs ≡ none
            → Deduplicated rs
            → Deduplicated (rs ++ (row ∷ [])))
        → Deduplicated (r ∷ (rs ++ (row ∷ [])))
    by_test true t k more = cc
    by_test false t k more = (
      All-append (λ x. x.fingerprint ≢ r.fingerprint) rs (row ∷ []) h.0
          ((λ p. distinct r row t p), tt),
      more k h.1,
    )

insert_alert-Deduplicated :
    (sha256_hex : Text → String) (isoformat : ℕ → Text) (alert : SessionAlert) (c : Db)
    → Deduplicated c.alerts
    → Deduplicated (insert_alert sha256_hex isoformat alert c).1.alerts
unfolding insert_alert
insert_alert-Deduplicated sha256_hex isoformat alert c h =
    by_row (find_fingerprint (fingerprint sha256_hex isoformat alert) c.alerts) refl
  where
    by_row :
        (found : Option AlertRow)
        → find_fingerprint (fingerprint sha256_hex isoformat alert) c.alerts ≡ found
        → Deduplicated (upserted sha256_hex isoformat alert c found).1.alerts
    by_row none e = append-Deduplicated c.alerts (new_row sha256_hex isoformat alert c.next_id) e h
    by_row (some row) e = h

Deduplicated-Keeps : {W : Type 0} (d : Deployment W) → Keeps d (λ c. Deduplicated c.alerts)
Deduplicated-Keeps d = record {
  outcome = λ id o c row f. update_status-Deduplicated id AlertStatus.triaged c.alerts;
  failed = λ id c. update_status-Deduplicated id AlertStatus.failed c.alerts;
  pending = λ id c. update_status-Deduplicated id AlertStatus.pending c.alerts;
  insert = insert_alert-Deduplicated d.sha256_hex d.isoformat;
}

-- In every state that the system reaches from empty tables, no two alerts have one fingerprint: a
-- session that is shipped again never becomes a second alert.
pub Reachable-Deduplicated :
    {W : Type 0} (d : Deployment W) {s : Session W}
    → Reachable d s
    → Deduplicated s.committed.alerts
Reachable-Deduplicated d (Reachable.started w) = tt
Reachable-Deduplicated d (Reachable.stepped r st) =
    Step-Keeps d (λ c. Deduplicated c.alerts) (Deduplicated-Keeps d) st (Reachable-Deduplicated d r)
