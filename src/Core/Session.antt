-- ===== src/Core/Session.antt =====
-- The SQLAlchemy session that the job works through: what is committed, what the open transaction
-- sees, and the world outside. A lock is held by the one attempt that runs.
pub mod Sees
use sentinel_brief.Prelude.{Option, none, some, Result, ok, err}
use sentinel_brief.Core.Errors.{Exn}
use sentinel_brief.Core.Database.{Db}
use sentinel_brief.Action.{Action}

-- How the database answers: `some e` is an exception, and the write is not durable (a commit whose
-- reply is lost after it took effect is left out). A call that `asyncio.wait_for` cancels answers
-- with its exception too.
pub record Database (W : Type 0) : Type 0 where
  pub select_for_update : W → Option Exn × W
  pub flush : W → Option Exn × W
  pub commit : W → Option Exn × W

pub record Session (W : Type 0) : Type 0 where
  pub committed : Db
  pub db : Db
  pub world : W

module _ {W : Type 0} where
  -- `async with factory() as session`
  abbrev pub open_session : Session W → Session W
  open_session s = record s { db = s.committed }

  abbrev pub rollback : Session W → Session W
  rollback s = record s { db = s.committed }

  abbrev pub answered_by : Session W → Option Exn × W → Result Exn (Unit {0}) × Session W
  answered_by s (none, w) = (ok tt, record s { world = w })
  answered_by s (some e, w) = (err e, record s { world = w })

  abbrev pub committed_by : Session W → Option Exn × W → Result Exn (Unit {0}) × Session W
  committed_by s (none, w) = (ok tt, record s { committed = s.db; world = w })
  committed_by s (some e, w) = (err e, record s { world = w })

  -- `try: … except BaseException: rollback; raise`
  abbrev pub rolled_back : {A : Type 0} → Result Exn A × Session W → Result Exn A × Session W
  rolled_back (ok a, s) = (ok a, s)
  rolled_back (err e, s) = (err e, rollback s)

module _ {W : Type 0} (database : Database W) where
  unfoldable pub flush : Action (Session W) (Unit {0})
  flush s = answered_by s (database.flush s.world)

  unfoldable pub select_for_update : Action (Session W) (Unit {0})
  select_for_update s = answered_by s (database.select_for_update s.world)

  unfoldable pub commit : Action (Session W) (Unit {0})
  commit s = committed_by s (database.commit s.world)
