-- ===== src/Worker/Store/Persisted.antt =====
-- worker/store.py: what `persist_verdict` leaves in the open transaction.
use sentinel_brief.Prelude.{
  ℕ, ◌≡◌, refl, String, Bool, none, some, List, [], ◌∷◌, ◌++◌, map, ap, ◌∙◌, ◌+◌,
}
use sentinel_brief.Core.Database.{AlertStatus, ToolCallRow, Db, update_status}
use sentinel_brief.Action.{pure, modify, ◌>>◌}
use sentinel_brief.Action.Ends.{
  Ends, pure-Ends, raise-Ends, gets-Ends, modify-Ends, bind-Ends, given-Ends,
}
use sentinel_brief.Core.Session.Sees.{Sees, Kept, flush-Ends}
use sentinel_brief.Worker.Outcome.{ToolCallRecord, TriageOutcome}
use sentinel_brief.Core.Session.{Database, flush}
use sentinel_brief.Worker.Store.{
  verdict_row, tool_call_row, add_verdict, add_tool_calls, put_status, set_alert_status,
  persist_verdict,
}

-- The tables with one more verdict of the alert, with its tool calls, and the alert triaged.
abbrev pub persisted : ℕ → TriageOutcome → String → Bool → List ToolCallRecord → Db → Db
persisted alert_id outcome model_primary escalated_model calls db = record db {
  alerts = update_status alert_id AlertStatus.triaged db.alerts;
  verdicts =
      db.verdicts ++ (verdict_row db.next_id alert_id outcome model_primary escalated_model ∷ []);
  tool_calls = db.tool_calls ++ map (tool_call_row db.next_id) calls;
  next_id = db.next_id + 1;
}

module _ {W : Type 0} (database : Database W) where
  written-Ends :
      {c d : Db} (alert_id : ℕ) (status : AlertStatus)
      → Ends
          (Sees c d)
          (modify (λ s. record s { db = put_status alert_id status s.db }) >> flush database)
          (λ _. Sees c (put_status alert_id status d))
          (Kept c)
  written-Ends {c} {d} alert_id status =
      bind-Ends _ _
        (modify-Ends {Q = λ _. Sees c (put_status alert_id status d)} _
          (λ s h. (h.0, ap (put_status alert_id status) h.1)))
        (λ _. flush-Ends database)

  pub set_alert_status-Ends :
      {c d : Db} (alert_id : ℕ) (status : AlertStatus)
      → Ends
          (Sees c d)
          (set_alert_status database alert_id status)
          (λ _. Sees c (put_status alert_id status d))
          (Kept c)
  unfolding set_alert_status
  set_alert_status-Ends {c} {d} alert_id status =
      bind-Ends _ _ (gets-Ends {Q = λ _. Sees c d} _ (λ s h. h))
        (elim [ none ↦ raise-Ends _ (λ s h. h.0) | some row ↦ written-Ends alert_id status ])

  pub persist_verdict-Ends :
      {c d : Db} (alert_id : ℕ) (o : TriageOutcome) (primary : String) (esc : Bool)
      (calls : List ToolCallRecord)
      → Ends
          (Sees c d)
          (persist_verdict database alert_id o primary esc calls)
          (λ v s. (v ≡ d.next_id) × Sees c (persisted alert_id o primary esc calls d) s)
          (Kept c)
  unfolding persist_verdict
  persist_verdict-Ends {c} {d} alert_id o primary esc calls =
      bind-Ends _ _
        (gets-Ends {Q = λ v s. (v ≡ d.next_id) × Sees c d s} _
          (λ s h. (ap (λ x. x.next_id) h.1, h)))
        (λ v. given-Ends (λ e.
          bind-Ends _ _
            (modify-Ends {Q = λ _. Sees c (add_verdict (verdict_row v alert_id o primary esc) d)} _
              (λ s h. (h.0, ap (add_verdict (verdict_row v alert_id o primary esc)) h.1)))
            (λ _. bind-Ends _ _ (flush-Ends database) (λ _. traced v e))))
    where
      written : ℕ → Db
      written v = add_verdict (verdict_row v alert_id o primary esc) d

      rows : ℕ → List ToolCallRow
      rows v = map (tool_call_row v) calls

      same :
          (v : ℕ)
          → v ≡ d.next_id
          → put_status alert_id AlertStatus.triaged (add_tool_calls (rows v) (written v))
            ≡ persisted alert_id o primary esc calls d
      same v e = rw e refl

      traced :
          (v : ℕ)
          → v ≡ d.next_id
          → Ends
              (Sees {W = W} c (written v))
              (do
                modify (λ s. record s { db = add_tool_calls (rows v) s.db })
                set_alert_status database alert_id AlertStatus.triaged
                flush database
                pure v)
              (λ w s. (w ≡ d.next_id) × Sees c (persisted alert_id o primary esc calls d) s)
              (Kept c)
      traced v e =
          bind-Ends _ _
            (modify-Ends {Q = λ _. Sees c (add_tool_calls (rows v) (written v))} _
              (λ s h. (h.0, ap (add_tool_calls (rows v)) h.1)))
            (λ _. bind-Ends _ _ (set_alert_status-Ends alert_id AlertStatus.triaged) (λ _.
              bind-Ends _ _ (flush-Ends database)
                (λ _. pure-Ends v (λ s h. (e, (h.0, h.1 ∙ same v e))))))
