-- ===== src/Worker/Job/Clauses.antt =====
-- worker/jobs.py: how the clauses of the job end a try.
use sentinel_brief.Prelude.{
  Bool-cases, leb, ◌≢◌, ◌⊎◌, inl, inr, ℕ, ◌+◌, ◌*◌, ◌-◌, ◌%◌, ◌^◌, ◌≤◌, ◌<◌, ◌≡◌, refl, ap, min,
  List, Result, ok, err, arith,
}
use sentinel_brief.Core.Alert.{SessionAlert}
use sentinel_brief.Core.Database.{AlertStatus, Db}
use sentinel_brief.Core.Errors.{Exn}
use sentinel_brief.Core.Llm.{ChatMessage}
use sentinel_brief.Worker.Attempt.{AttemptResult}
use sentinel_brief.Worker.Job.{
  ExceptClause, clause_of, handled, JobResult, JobEnd, JobSettings, JobSeams,
  handle_attempt_failure, decided, failed_by, mark_alert_failed, seconds_until_next_utc_day,
  after_attempt,
}
use sentinel_brief.Worker.Store.{put_status}
use sentinel_brief.Worker.Retry.Bounds.{
  decide_retry-fails, decide_retry-overflows, decide_retry-retries,
}
use sentinel_brief.Action.Ends.{Ended}
use sentinel_brief.Core.Session.Sees.{Sees, Kept}
use sentinel_brief.Core.Session.{Database, Session}
use sentinel_brief.Pipeline.Seams.{Seams, Pipeline}

-- A delay that ends at a UTC midnight, within a day and not at once.
abbrev pub IsUntilMidnight : ℕ → ℕ → Type 0
IsUntilMidnight now d = (0 < d) × (d ≤ 86400) × ((now + d) % 86400 ≡ 0)

-- From any moment, the delay ends at the next UTC midnight: it is positive, at most a day, and
-- the sum is a whole number of days.
pub seconds_until_next_utc_day-IsUntilMidnight :
    (now : ℕ) → IsUntilMidnight now (seconds_until_next_utc_day now)
unfolding seconds_until_next_utc_day
seconds_until_next_utc_day-IsUntilMidnight now = omega arith

-- What a try ends with whose alert is given up: `write` is the result of the write of the failed
-- status. If it succeeded, the try reports failed and the status is stored; if it raised, that
-- exception ends the try and the tables are as they were.
abbrev pub IsTerminal : {W : Type 0} → ℕ → Db → Result Exn (Unit {0}) → JobEnd × Session W → Type 0
IsTerminal alert_id c (ok u) r =
    (r.0 ≡ JobEnd.done JobResult.failed)
    × (r.1.committed ≡ put_status alert_id AlertStatus.failed c)
IsTerminal alert_id c (err e) r = (r.0 ≡ JobEnd.crashed e) × (r.1.committed ≡ c)

-- The delay before the next try: the base doubled once for each earlier try, or the maximum where
-- that is more.
abbrev pub IsBackoff : ℕ → ℕ → ℕ → ℕ → Type 0
IsBackoff base_s max_s job_try d =
    ((d ≡ base_s * 2 ^ (job_try - 1)) × (d ≤ max_s))
    ⊎ ((d ≡ max_s) × (max_s < base_s * 2 ^ (job_try - 1)))

-- A try that is followed by another: it is retried after the delay, or, past the range of the float
-- power, ended by its OverflowError.
abbrev pub RetriedAfter : ℕ → ℕ → ℕ → JobEnd → Type 0
RetriedAfter base_s max_s job_try (JobEnd.retry_in d) =
    (job_try ≤ 1024) × IsBackoff base_s max_s job_try d
RetriedAfter base_s max_s job_try (JobEnd.crashed e) =
    (1024 < job_try) × (e ≡ Exn.other "OverflowError")
RetriedAfter base_s max_s job_try (JobEnd.done r) = ⊥

-- All exceptions but two fall to the last clause.
pub clause_of-any :
    (e : Exn)
    → e ≢ Exn.not_found
    → ((tokens_today budget : ℕ) → e ≢ Exn.budget_exceeded tokens_today budget)
    → clause_of e ≡ ExceptClause.any_exception
clause_of-any Exn.not_found h k = absurd (h refl)
clause_of-any (Exn.budget_exceeded t b) h k = absurd (k t b refl)
clause_of-any Exn.config_error h k = refl
clause_of-any Exn.fixture_missing h k = refl
clause_of-any Exn.llm_call_failed h k = refl
clause_of-any Exn.conflict h k = refl
clause_of-any Exn.queue_unavailable h k = refl
clause_of-any (Exn.verdict_validation attempts last_error) h k = refl
clause_of-any Exn.signature_error h k = refl
clause_of-any Exn.length_required h k = refl
clause_of-any Exn.payload_too_large h k = refl
clause_of-any Exn.stream_unavailable h k = refl
clause_of-any (Exn.rate_limited retry_after) h k = refl
clause_of-any Exn.redis_error h k = refl
clause_of-any Exn.validation_error h k = refl
clause_of-any (Exn.other name) h k = refl

module _ {W : Type 0} (database : Database W) (seams : Seams W) (cfg : Pipeline)
    (build_messages : SessionAlert → List ChatMessage) (job : JobSeams W)
    (settings : JobSettings) where
  pub handled_lem :
      (alert_id job_try : ℕ) (e : Exn) (s : Session W)
      → clause_of e ≡ ExceptClause.any_exception
      → after_attempt database seams cfg build_messages job settings alert_id job_try (err e) s
        ≡ handle_attempt_failure database seams cfg build_messages job settings e alert_id job_try s
  handled_lem alert_id job_try e s h =
      ap
        (λ clause.
          handled database seams cfg build_messages job settings clause e alert_id job_try s)
        h

  pub failed_by-IsTerminal :
      (c : Db) (alert_id : ℕ) (r : Result Exn (Unit {0}) × Session W)
      → Ended
          (λ _.
            Sees {W = W}
              (put_status alert_id AlertStatus.failed c)
              (put_status alert_id AlertStatus.failed c))
          (Kept c)
          r
      → IsTerminal alert_id c r.0 (failed_by database seams cfg build_messages job settings r)
  failed_by-IsTerminal c alert_id (ok u, s) h = (refl, h.0)
  failed_by-IsTerminal c alert_id (err e, s) h = (refl, h)

  pub given_up :
      (alert_id job_try : ℕ) (e : Exn) (s : Session W)
      → 1 ≤ settings.triage_job_max_tries
      → settings.triage_job_max_tries ≤ job_try
      → handle_attempt_failure database seams cfg build_messages job settings e alert_id job_try s
        ≡ failed_by database seams cfg build_messages job settings
            (mark_alert_failed database seams cfg build_messages job settings alert_id s)
  unfolding handle_attempt_failure
  given_up alert_id job_try e s p l =
      ap (λ r. decided database seams cfg build_messages job settings alert_id r s)
        (decide_retry-fails e job_try settings.triage_job_max_tries
          settings.triage_job_backoff_base_s settings.triage_job_backoff_max_s p l)

  pub put_off :
      (alert_id job_try : ℕ) (e : Exn) (s : Session W)
      → 1 ≤ job_try
      → job_try < settings.triage_job_max_tries
      → RetriedAfter settings.triage_job_backoff_base_s settings.triage_job_backoff_max_s job_try
          (handle_attempt_failure database seams cfg build_messages job settings e alert_id job_try
            s).0
        × ((handle_attempt_failure database seams cfg build_messages job settings e alert_id job_try
              s).1
            ≡ s)
  unfolding handle_attempt_failure
  put_off alert_id job_try e s p l = elim (Bool-cases (leb job_try 1024)) [
    | inl t ↦
        rw
          (decide_retry-retries e job_try settings.triage_job_max_tries
            settings.triage_job_backoff_base_s settings.triage_job_backoff_max_s p (ground arith) l)
          ((ground (arith, t), min-IsBackoff _ _), refl)
    | inr t ↦
        rw
          (decide_retry-overflows e job_try settings.triage_job_max_tries
            settings.triage_job_backoff_base_s settings.triage_job_backoff_max_s (ground arith) l)
          ((ground (arith, t), refl), refl)
  ]
    where
      min-IsBackoff : (a b : ℕ) → ((min a b ≡ a) × (min a b ≤ b)) ⊎ ((min a b ≡ b) × (b < a))
      min-IsBackoff a b = ground arith

pub raised-keeps :
    {W : Type 0} {c : Db} {e : Exn} (Q : AttemptResult → Session W → Type 0)
    (p : Result Exn AttemptResult × Session W)
    → p.0 ≡ err e
    → Ended Q (Sees c c) p
    → p.1.committed ≡ c
raised-keeps Q (ok a, s) e k = cc
raised-keeps Q (err x, s) e k = k.0
