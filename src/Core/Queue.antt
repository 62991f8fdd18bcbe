-- ===== src/Core/Queue.antt =====
-- core/queue.py: one ARQ job for an alert.
pub mod Enqueued
use sentinel_brief.Prelude.{Text, codes, ℕ, String, Bool, Option, none, some, ◌++◌, Result, ok, err}
use sentinel_brief.Core.Errors.{Exn}
use sentinel_brief.Core.Session.{Session}
use sentinel_brief.Action.{Action}

-- ARQ's `enqueue_job`, by the job's name, its argument and its id: `none` is a RedisError or an
-- OSError, `some false` a job with this id that is queued, runs, or whose result is kept.
pub record Queue (W : Type 0) : Type 0 where
  pub str_uuid : ℕ → Text
  pub enqueue_job : String → Text → Text → W → Option Bool × W

module _ {W : Type 0} (queue : Queue W) where
  unfoldable pub triage_job_id : ℕ → Text
  triage_job_id alert_id = codes "triage:" ++ queue.str_uuid alert_id

  abbrev pub enqueued_by : Session W → Option Bool × W → Result Exn Bool × Session W
  enqueued_by s (some new, w) = (ok new, record s { world = w })
  enqueued_by s (none, w) = (err Exn.queue_unavailable, record s { world = w })

  unfoldable pub enqueue_triage : ℕ → Action (Session W) Bool
  enqueue_triage alert_id s =
      enqueued_by s (
        queue.enqueue_job "triage_alert" (queue.str_uuid alert_id) (triage_job_id alert_id) s.world)
