-- ===== src/Core/Queue/Enqueued.antt =====
-- core/queue.py: enqueuing touches no table.
use sentinel_brief.Prelude.{Bool, ℕ, Option, none, some}
use sentinel_brief.Core.Database.{Db}
use sentinel_brief.Core.Queue.{Queue, enqueued_by, enqueue_triage, triage_job_id}
use sentinel_brief.Core.Session.{Session}
use sentinel_brief.Action.Ends.{Ended, Ends}
use sentinel_brief.Core.Session.Sees.{Sees, Kept}

module _ {W : Type 0} (queue : Queue W) {c d : Db} where
  enqueued_by-Ended :
      (s : Session W) (r : Option Bool × W)
      → Sees c d s
      → Ended (λ _. Sees c d) (Kept c) (enqueued_by queue s r)
  enqueued_by-Ended s (none, w) h = h.0
  enqueued_by-Ended s (some b, w) h = h

  pub enqueue_triage-Ends :
      (alert_id : ℕ) → Ends (Sees c d) (enqueue_triage queue alert_id) (λ _. Sees c d) (Kept c)
  unfolding enqueue_triage
  enqueue_triage-Ends alert_id = record {
    at = λ s h.
        enqueued_by-Ended s
          (queue.enqueue_job "triage_alert" (queue.str_uuid alert_id) (triage_job_id queue alert_id)
            s.world)
          h;
  }
