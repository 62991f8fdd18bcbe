-- ===== src/Worker/Attempt/Atomic.antt =====
-- worker/triage.py: an attempt commits everything it writes, or nothing.
use sentinel_brief.Prelude.{
  ℕ, ◌≡◌, refl, ap, sym, Bool, true, false, Option, none, some, List, Result, ok, err,
}
use sentinel_brief.Core.Alert.{SessionAlert, model_validate}
use sentinel_brief.Core.Database.{AlertRow, Db, find_alert}
use sentinel_brief.Core.Errors.{Exn}
use sentinel_brief.Core.Llm.{ChatMessage}
use sentinel_brief.Action.Ends.{
  Ended, Ends, pure-Ends, raise-Ends, gets-Ends, bind-Ends, given-Ends,
}
use sentinel_brief.Worker.Attempt.{
  AttemptResult, is_pending, run_session, attempt_body, attempt_locked, triage_attempt, validated,
  beside_run, from_messages,
}
use sentinel_brief.Worker.Outcome.{TriageOutcome, effective_model_primary}
use sentinel_brief.Core.Session.{Database, Session, rollback, rolled_back}
use sentinel_brief.Worker.Store.Persisted.{persisted, persist_verdict-Ends}
use sentinel_brief.Core.Session.Sees.{Sees, Kept, commit-Ends, select_for_update-Ends}
use sentinel_brief.Pipeline.Run.{run}
use sentinel_brief.Pipeline.Seams.{Seams, Pipeline, RunState}

-- The tables after a committed outcome.
abbrev pub with_outcome : ℕ → TriageOutcome → Db → Db
with_outcome alert_id o d =
    persisted alert_id o (effective_model_primary o) o.escalated_model o.tool_calls d

-- What a run gives for the alert that a row holds.
abbrev pub RanOn :
    {W : Type 0}
    → Database W
    → Seams W
    → Pipeline
    → (SessionAlert → List ChatMessage)
    → AlertRow
    → TriageOutcome
    → Type 0
RanOn {W} database seams cfg build_messages row o =
    (alert : SessionAlert) × (model_validate row.raw ≡ some alert)
    × ((s : Session W) × ((run seams cfg
            (from_messages database seams cfg build_messages s (build_messages alert))).0
          ≡ ok o))

-- What an attempt may leave behind, from the committed tables `c`, if `Ran` is what a run gives. The open transaction is always
-- at its end: it sees what is committed.
abbrev pub Settled :
    {W : Type 0} → (AlertRow → TriageOutcome → Type 0) → ℕ → Db → AttemptResult → Session W → Type 0
Settled Ran alert_id c AttemptResult.skipped s =
    ((row : AlertRow) × (find_alert alert_id c.alerts ≡ some row) × (is_pending row.status ≡ false))
    × Sees c c s
Settled Ran alert_id c (AttemptResult.triaged verdict_id o) s =
    ((row : AlertRow) × (find_alert alert_id c.alerts ≡ some row)
      × (is_pending row.status ≡ true)
      × Ran row o)
    × (verdict_id ≡ c.next_id)
    × Sees (with_outcome alert_id o c) (with_outcome alert_id o c) s

module _ {W : Type 0} (database : Database W) (seams : Seams W) (cfg : Pipeline)
    (build_messages : SessionAlert → List ChatMessage) where
  abbrev Ran : AlertRow → TriageOutcome → Type 0
  Ran = RanOn database seams cfg build_messages

  -- The outcome is that of a run on the alert.
  abbrev RanWith : SessionAlert → TriageOutcome → Type 0
  RanWith alert o =
      (s : Session W) × ((run seams cfg
          (from_messages database seams cfg build_messages s (build_messages alert))).0
        ≡ ok o)

  beside_run-Ended :
      {c d : Db} (alert : SessionAlert) (s : Session W) (r : Result Exn TriageOutcome × RunState W)
      → (run seams cfg (from_messages database seams cfg build_messages s (build_messages alert))).0
        ≡ r.0
      → Sees c d s
      → Ended
          (λ o t. RanWith alert o × Sees c d t)
          (Kept c)
          (beside_run database seams cfg build_messages s r)
  beside_run-Ended alert s (ok o, t) e h = ((s, e), h)
  beside_run-Ended alert s (err x, t) e h = h.0

  run_session-Ends :
      {c d : Db} (alert : SessionAlert)
      → Ends
          (Sees c d)
          (run_session database seams cfg build_messages alert)
          (λ o s. RanWith alert o × Sees c d s)
          (Kept c)
  unfolding run_session
  run_session-Ends alert = record {
    at = λ s h.
        beside_run-Ended alert s
          (run seams cfg (from_messages database seams cfg build_messages s (build_messages alert)))
          refl h;
  }

  validated-Ends :
      {c d : Db} (o : Option SessionAlert)
      → Ends
          (Sees c d)
          (validated database seams cfg build_messages o)
          (λ a s. (o ≡ some a) × Sees c d s)
          (Kept c)
  validated-Ends none = raise-Ends _ (λ s h. h.0)
  validated-Ends (some a) = pure-Ends a (λ s h. (refl, h))

  attempt_body-Ends :
      {c : Db} (alert_id : ℕ) (row : AlertRow)
      → find_alert alert_id c.alerts ≡ some row
      → is_pending row.status ≡ true
      → Ends
          (Sees c c)
          (attempt_body database seams cfg build_messages alert_id row)
          (Settled Ran alert_id c)
          (Kept c)
  unfolding attempt_body
  attempt_body-Ends {c} alert_id row f p =
      bind-Ends _ _ (validated-Ends (model_validate row.raw)) (λ alert. given-Ends (λ valid.
        bind-Ends _ _ (run_session-Ends alert) (λ o. given-Ends (λ ran.
          bind-Ends _ _
            (persist_verdict-Ends database alert_id o (effective_model_primary o) o.escalated_model
              o.tool_calls)
            (λ v. given-Ends (λ e. bind-Ends _ _ (commit-Ends database) (λ _.
              pure-Ends (AttemptResult.triaged v o)
                (λ s h. ((row, f, p, (alert, valid, ran)), e, h)))))))))

  rolled_back-Ended :
      (c : Db) (Q : AttemptResult → Session W → Type 0) (r : Result Exn AttemptResult × Session W)
      → Ended Q (Kept c) r
      → Ended Q (Sees c c) (rolled_back r)
  rolled_back-Ended c Q (ok a, s) h = h
  rolled_back-Ended c Q (err e, s) h = (h, h)

  pending_part :
      {c : Db} (alert_id : ℕ) (row : AlertRow)
      → find_alert alert_id c.alerts ≡ some row
      → (b : Bool) → is_pending row.status ≡ b
      → (s : Session W) → Sees c c s
      → Ended (Settled {W = W} Ran alert_id c) (Sees c c) (elim b [
        | false ↦ (ok AttemptResult.skipped, rollback s)
        | true ↦ rolled_back (attempt_body database seams cfg build_messages alert_id row s)
      ])
  pending_part alert_id row f false p s h = ((row, f, p), (h.0, h.0))
  pending_part {c = c} alert_id row f true p s h =
      rolled_back-Ended c (Settled Ran alert_id c)
        (attempt_body database seams cfg build_messages alert_id row s)
        ((attempt_body-Ends alert_id row f p).at s h)

  attempt_locked-Ends :
      {c : Db} (alert_id : ℕ) (found : Option AlertRow)
      → find_alert alert_id c.alerts ≡ found
      → Ends
          (Sees c c)
          (attempt_locked database seams cfg build_messages alert_id found)
          (Settled Ran alert_id c)
          (Sees c c)
  attempt_locked-Ends alert_id none f = record { at = λ s h. h }
  attempt_locked-Ends alert_id (some row) f = record {
    at = λ s h. pending_part alert_id row f (is_pending row.status) refl s h;
  }

  pub triage_attempt-Ends :
      {c : Db} (alert_id : ℕ)
      → Ends
          (Sees c c)
          (triage_attempt database seams cfg build_messages alert_id)
          (Settled Ran alert_id c)
          (Sees c c)
  unfolding triage_attempt
  triage_attempt-Ends {c} alert_id = bind-Ends _ _ (select_for_update-Ends database) (λ _.
      bind-Ends _ _
        (gets-Ends {Q = λ found s. (find_alert alert_id c.alerts ≡ found) × Sees c c s} _
          (λ s h. (ap (λ d. find_alert alert_id d.alerts) (sym h.1), h)))
        (λ found. given-Ends (attempt_locked-Ends alert_id found)))

-- An attempt from a fresh session is atomic. If it raises, the committed tables are what they
-- were and its own writes are rolled back. If it is skipped, the alert was not pending and nothing
-- changed. If it triages, the alert was pending, its outcome is that of a run on the alert, and
-- exactly one verdict of that outcome, its tool calls and the triaged status are committed
-- together, under the identifier that it returns.
pub triage_attempt_atomic :
    {W : Type 0} (database : Database W) (seams : Seams W) (cfg : Pipeline)
    (build_messages : SessionAlert → List ChatMessage) (alert_id : ℕ) (s : Session W)
    → s.db ≡ s.committed
    → Ended
        (Settled (RanOn database seams cfg build_messages) alert_id s.committed)
        (Sees s.committed s.committed)
        (triage_attempt database seams cfg build_messages alert_id s)
triage_attempt_atomic database seams cfg build_messages alert_id s h =
    (triage_attempt-Ends database seams cfg build_messages alert_id).at s (refl, h)
