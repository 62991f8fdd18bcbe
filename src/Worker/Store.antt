-- ===== src/Worker/Store.antt =====
-- worker/store.py: the verdict, its tool calls and the status of its alert, in one transaction.
pub mod Persisted
use sentinel_brief.Prelude.{ℕ, ◌+◌, String, Bool, Option, none, some, List, [], ◌∷◌, ◌++◌, map}
use sentinel_brief.Core.Errors.{Exn}
use sentinel_brief.Core.Database.{
  AlertStatus, VerdictRow, ToolCallRow, Db, find_alert, update_status,
}
use sentinel_brief.Action.{Action, pure, raise, gets, modify, ◌>>=◌, ◌>>◌}
use sentinel_brief.Worker.Outcome.{ToolCallRecord, TriageOutcome}
use sentinel_brief.Core.Session.{Database, Session, flush}

abbrev pub verdict_row : ℕ → ℕ → TriageOutcome → String → Bool → VerdictRow
verdict_row id alert_id outcome model_primary escalated_model = record {
  id = id;
  alert_id = alert_id;
  severity = outcome.verdict.severity;
  category = outcome.verdict.category;
  confidence = outcome.verdict.confidence;
  reasoning = outcome.verdict.reasoning;
  recommended_action = outcome.verdict.recommended_action;
  escalate = outcome.verdict.escalate;
  model_primary = model_primary;
  model_final = outcome.model;
  escalated_model = escalated_model;
  prompt_version = outcome.prompt_version;
  input_tokens = outcome.input_tokens;
  output_tokens = outcome.output_tokens;
  cost_usd = outcome.cost_usd;
  latency_ms = outcome.latency_ms;
}

abbrev pub tool_call_row : ℕ → ToolCallRecord → ToolCallRow
tool_call_row verdict_id r = record {
  verdict_id = verdict_id;
  seq = r.seq;
  tool_name = r.tool_name;
  arguments = r.arguments;
  result = r.result;
  latency_ms = r.latency_ms;
}

abbrev pub add_verdict : VerdictRow → Db → Db
add_verdict row db = record db { verdicts = db.verdicts ++ (row ∷ []); next_id = db.next_id + 1 }

abbrev pub add_tool_calls : List ToolCallRow → Db → Db
add_tool_calls rows db = record db { tool_calls = db.tool_calls ++ rows }

abbrev pub put_status : ℕ → AlertStatus → Db → Db
put_status alert_id status db = record db { alerts = update_status alert_id status db.alerts }

module _ {W : Type 0} (database : Database W) where
  -- `set_alert_status` of core/services/alerts.py, with its `get_alert`.
  unfoldable pub set_alert_status : ℕ → AlertStatus → Action (Session W) (Unit {0})
  set_alert_status alert_id status = do
    found ← gets (λ s. find_alert alert_id s.db.alerts)
    elim found [
      | none ↦ raise Exn.not_found
      | some row ↦ (do
        modify (λ s. record s { db = put_status alert_id status s.db })
        flush database)
    ]

  unfoldable pub persist_verdict :
      ℕ → TriageOutcome → String → Bool → List ToolCallRecord → Action (Session W) ℕ
  persist_verdict alert_id outcome model_primary escalated_model tool_calls = do
    verdict_id ← gets (λ s. s.db.next_id)
    modify (λ s. record s {
      db = add_verdict (verdict_row verdict_id alert_id outcome model_primary escalated_model) s.db;
    })
    flush database
    modify (λ s. record s { db = add_tool_calls (map (tool_call_row verdict_id) tool_calls) s.db })
    set_alert_status alert_id AlertStatus.triaged
    flush database
    pure verdict_id
