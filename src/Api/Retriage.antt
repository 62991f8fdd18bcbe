-- ===== src/Api/Retriage.antt =====
-- api/routes/admin.py: `retriage_alert`, with its daily cap.
pub mod Guarded
use sentinel_brief.Prelude.{
  ℕ, String, Bool, true, false, not, ◌==ₛ◌, ltb, Option, none, some, Result, ok, err, if◌then◌else◌,
}
use sentinel_brief.Core.Database.{AlertStatus, AlertRow, find_alert}
use sentinel_brief.Core.Errors.{Exn}
use sentinel_brief.Core.Queue.{Queue, enqueue_triage}
use sentinel_brief.Core.Session.{Database, Session, flush, commit, select_for_update}
use sentinel_brief.Action.{Action, pure, raise, gets, modify, ◌>>=◌, ◌>>◌}
use sentinel_brief.Api.Deps.{in_session}
use sentinel_brief.Worker.Store.{put_status}

-- The settings, and the counter of the day: `none` is a RedisError or an OSError.
pub record Cap (W : Type 0) : Type 0 where
  pub redis_wired : Bool
  pub retriage_per_day : ℕ
  pub incr : W → Option ℕ × W

abbrev pub is_retriable : AlertStatus → Bool
is_retriable AlertStatus.triaged = true
is_retriable AlertStatus.failed = true
is_retriable AlertStatus.pending = false

module _ {W : Type 0} (database : Database W) (queue : Queue W) (cap : Cap W) where
  abbrev pub capped_by : Session W → Option ℕ × W → Result Exn (Unit {0}) × Session W
  capped_by s (none, w) = (err Exn.queue_unavailable, record s { world = w })
  capped_by s (some count, w) =
      if ltb cap.retriage_per_day count
      then (err (Exn.rate_limited none), record s { world = w })
      else (ok tt, record s { world = w })

  unfoldable pub check_daily_retriage_cap : Action (Session W) (Unit {0})
  check_daily_retriage_cap s =
      if not cap.redis_wired then (err Exn.queue_unavailable, s) else capped_by s (cap.incr s.world)

  -- An OperationalError of the locking read is a conflict.
  abbrev pub as_conflict : Exn → Exn
  as_conflict (Exn.other name) =
      if name ==ₛ "OperationalError" then Exn.conflict else Exn.other name
  as_conflict e = e

  abbrev pub locked_or_conflict :
      Result Exn (Unit {0}) × Session W → Result Exn (Unit {0}) × Session W
  locked_or_conflict (ok u, s) = (ok u, s)
  locked_or_conflict (err e, s) = (err (as_conflict e), s)

  unfoldable pub lock_row : Action (Session W) (Unit {0})
  lock_row s = locked_or_conflict (select_for_update database s)

  -- `get_alert_for_retriage_update`, after its `SET LOCAL`.
  unfoldable pub get_alert_for_retriage_update : ℕ → Action (Session W) AlertRow
  get_alert_for_retriage_update alert_id = do
    flush database
    lock_row
    found ← gets (λ s. find_alert alert_id s.db.alerts)
    elim found [ none ↦ raise Exn.not_found | some row ↦ pure row ]

  unfoldable pub flip_alert_to_pending : ℕ → Action (Session W) (Unit {0})
  flip_alert_to_pending alert_id = do
    modify (λ s. record s { db = put_status alert_id AlertStatus.pending s.db })
    flush database

  unfoldable pub retriage_route : ℕ → Action (Session W) (Unit {0})
  retriage_route alert_id = do
    check_daily_retriage_cap
    row ← get_alert_for_retriage_update alert_id
    (if not (is_retriable row.status) then raise Exn.conflict else (do
      flip_alert_to_pending alert_id
      commit database
      enqueue_triage queue alert_id
      pure tt))

  unfoldable pub retriage_alert : ℕ → Action (Session W) (Unit {0})
  retriage_alert alert_id = in_session database (retriage_route alert_id)
