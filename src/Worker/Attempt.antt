-- ===== src/Worker/Attempt.antt =====
-- worker/triage.py: `triage_attempt` and `triage_alert`, around `run`.
pub mod Atomic
use sentinel_brief.Prelude.{
  Text, ℕ, String, Bool, true, false, Option, none, some, List, [], ◌∷◌, Result, ok, err,
}
use sentinel_brief.Core.Alert.{SessionAlert, model_validate}
use sentinel_brief.Core.Database.{AlertStatus, AlertRow, find_alert}
use sentinel_brief.Core.Errors.{Exn}
use sentinel_brief.Core.Llm.{ChatMessage}
use sentinel_brief.Action.{Action, pure, raise, gets, ◌>>=◌, ◌>>◌}
use sentinel_brief.Worker.Outcome.{TriageOutcome, effective_model_primary}
use sentinel_brief.Core.Session.{
  Database, Session, commit, select_for_update, rollback, rolled_back,
}
use sentinel_brief.Worker.Store.{persist_verdict, set_alert_status}
use sentinel_brief.Pipeline.Run.{run}
use sentinel_brief.Pipeline.Seams.{Seams, Pipeline, RunState, zero_totals}

-- `AttemptResult`: the verdict and the outcome are there exactly when it is triaged.
pub data AttemptResult : Type 0 where
  triaged : ℕ → TriageOutcome → AttemptResult
  skipped : AttemptResult

abbrev pub is_pending : AlertStatus → Bool
is_pending AlertStatus.pending = true
is_pending AlertStatus.triaged = false
is_pending AlertStatus.failed = false

module _ {W : Type 0} (database : Database W) (seams : Seams W) (cfg : Pipeline)
    (build_messages : SessionAlert → List ChatMessage) where
  abbrev pub from_messages : Session W → List ChatMessage → RunState W
  from_messages s msgs = record {
    messages = msgs;
    records = [];
    totals = zero_totals;
    world = s.world;
  }

  abbrev pub beside_run :
      Session W → Result Exn TriageOutcome × RunState W → Result Exn TriageOutcome × Session W
  beside_run s (r, t) = (r, record s { world = t.world })

  -- `self.run(alert, session=session)`; its tools read the session and write nothing there.
  unfoldable pub run_session : SessionAlert → Action (Session W) TriageOutcome
  run_session alert s = beside_run s (run seams cfg (from_messages s (build_messages alert)))

  abbrev pub validated : Option SessionAlert → Action (Session W) SessionAlert
  validated none = raise Exn.validation_error
  validated (some alert) = pure alert

  -- The body of the `try`.
  unfoldable pub attempt_body : ℕ → AlertRow → Action (Session W) AttemptResult
  attempt_body alert_id row = do
    alert ← validated (model_validate row.raw)
    outcome ← run_session alert
    verdict_id ←
        persist_verdict database alert_id outcome (effective_model_primary outcome)
          outcome.escalated_model outcome.tool_calls
    commit database
    pure (AttemptResult.triaged verdict_id outcome)

  abbrev pub attempt_locked : ℕ → Option AlertRow → Action (Session W) AttemptResult
  attempt_locked alert_id none s = (err Exn.not_found, s)
  attempt_locked alert_id (some row) s = elim (is_pending row.status) [
    | false ↦ (ok AttemptResult.skipped, rollback s)
    | true ↦ rolled_back (attempt_body alert_id row s)
  ]

  -- `triage_attempt`; its first line is `get_alert_for_update`.
  unfoldable pub triage_attempt : ℕ → Action (Session W) AttemptResult
  triage_attempt alert_id = do
    select_for_update database
    found ← gets (λ s. find_alert alert_id s.db.alerts)
    attempt_locked alert_id found

  abbrev marked_failed : ℕ → Exn → Action (Session W) AlertStatus
  marked_failed alert_id (Exn.verdict_validation attempts last_error) = do
    set_alert_status database alert_id AlertStatus.failed
    commit database
    pure AlertStatus.failed
  marked_failed alert_id Exn.llm_call_failed = do
    set_alert_status database alert_id AlertStatus.failed
    commit database
    pure AlertStatus.failed
  marked_failed alert_id e = raise e

  abbrev reported : ℕ → Result Exn AttemptResult × Session W → Result Exn AlertStatus × Session W
  reported alert_id (ok a, s) = (ok AlertStatus.triaged, s)
  reported alert_id (err e, s) = marked_failed alert_id e s

  unfoldable pub triage_alert : ℕ → Action (Session W) AlertStatus
  triage_alert alert_id s = reported alert_id (triage_attempt alert_id s)
