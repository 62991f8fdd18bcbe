-- ===== src/System/Reached.antt =====
-- The tables in every state that the system reaches.
use sentinel_brief.Prelude.{
  ℕ, ◌≡◌, refl, sym, Text, String, Option, none, some, List, [], ◌∷◌, map, All,
}
use sentinel_brief.Core.Alert.{SessionAlert}
use sentinel_brief.Core.Database.{AlertStatus, AlertRow, Db, find_alert}
use sentinel_brief.Core.Database.Sound.{
  Sound, put_status-Sound, add_verdict-Sound, add_alert-Sound, HasVerdictOf-last,
}
use sentinel_brief.Core.Services.{find_fingerprint, fingerprint, new_row, upserted, insert_alert}
use sentinel_brief.Core.Session.{Session}
use sentinel_brief.System.{Deployment, Reachable}
use sentinel_brief.System.Kept.{Keeps, Step-Keeps}
use sentinel_brief.Worker.Attempt.Atomic.{with_outcome}
use sentinel_brief.Worker.Outcome.{ToolCallRecord, TriageOutcome, effective_model_primary}
use sentinel_brief.Worker.Store.{verdict_row, tool_call_row}

rows-verdict_id :
    (v : ℕ) (calls : List ToolCallRecord)
    → All (λ t. t.verdict_id ≡ v) (map (tool_call_row v) calls)
rows-verdict_id v [] = tt
rows-verdict_id v (r ∷ rs) = (refl, rows-verdict_id v rs)

with_outcome-Sound :
    (alert_id : ℕ) (o : TriageOutcome) (c : Db) (row : AlertRow)
    → find_alert alert_id c.alerts ≡ some row
    → Sound c
    → Sound (with_outcome alert_id o c)
with_outcome-Sound alert_id o c row f h =
    put_status-Sound alert_id AlertStatus.triaged _
      (λ r e.
        HasVerdictOf-last r.id c.verdicts
          (verdict_row c.next_id alert_id o (effective_model_primary o) o.escalated_model) (sym e))
      (add_verdict-Sound c
        (verdict_row c.next_id alert_id o (effective_model_primary o) o.escalated_model)
        (map (tool_call_row c.next_id) o.tool_calls) row refl f
        (rows-verdict_id c.next_id o.tool_calls) h)

insert_alert-Sound :
    (sha256_hex : Text → String) (isoformat : ℕ → Text) (alert : SessionAlert) (c : Db)
    → Sound c
    → Sound (insert_alert sha256_hex isoformat alert c).1
unfolding insert_alert
insert_alert-Sound sha256_hex isoformat alert c h =
    by_row (find_fingerprint (fingerprint sha256_hex isoformat alert) c.alerts)
  where
    by_row : (found : Option AlertRow) → Sound (upserted sha256_hex isoformat alert c found).1
    by_row none = add_alert-Sound c (new_row sha256_hex isoformat alert c.next_id) refl refl h
    by_row (some row) = h

Sound-Keeps : {W : Type 0} (d : Deployment W) → Keeps d Sound
Sound-Keeps d = record {
  outcome = with_outcome-Sound;
  failed = λ id c. put_status-Sound id AlertStatus.failed c (λ r e. tt);
  pending = λ id c. put_status-Sound id AlertStatus.pending c (λ r e. tt);
  insert = insert_alert-Sound d.sha256_hex d.isoformat;
}

-- In every state that requests, job tries and outside events reach from empty tables, whatever
-- fails in them, the committed tables are sound: no two alerts and no two verdicts share a key,
-- every key is below the next one, the foreign keys hold, and every triaged alert has a verdict.
pub Reachable-Sound :
    {W : Type 0} (d : Deployment W) {s : Session W} → Reachable d s → Sound s.committed
Reachable-Sound d (Reachable.started w) = record {
  fresh = tt;
  unique = tt;
  fresh_verdicts = tt;
  unique_verdicts = tt;
  triaged = tt;
  verdicts = tt;
  tool_calls = tt;
}
Reachable-Sound d (Reachable.stepped r st) =
    Step-Keeps d Sound (Sound-Keeps d) st (Reachable-Sound d r)
