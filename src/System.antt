-- ===== src/System.antt =====
-- The running system: requests to the api, tries of the worker's job and anything that happens
-- outside, in any order. Each is one step: the worker holds the row lock from its first read to
-- its commit, and so does a retriage.
pub mod Kept
pub mod Reached
pub mod Deduplicated
pub mod Appended
use sentinel_brief.Prelude.{Text, ℕ, String, List, []}
use sentinel_brief.Api.Ingest.{ingest_alert}
use sentinel_brief.Api.Retriage.{Cap, retriage_alert}
use sentinel_brief.Core.Alert.{SessionAlert}
use sentinel_brief.Core.Database.{Db}
use sentinel_brief.Core.Llm.{ChatMessage}
use sentinel_brief.Core.Queue.{Queue}
use sentinel_brief.Core.Session.{Database, Session}
use sentinel_brief.Pipeline.Seams.{Seams, Pipeline}
use sentinel_brief.Worker.Job.{JobSettings, JobSeams, triage_alert_job}

-- One deployment: what its processes are wired with.
pub record Deployment (W : Type 0) : Type 0 where
  pub database : Database W
  pub seams : Seams W
  pub cfg : Pipeline
  pub build_messages : SessionAlert → List ChatMessage
  pub job : JobSeams W
  pub settings : JobSettings
  pub queue : Queue W
  pub cap : Cap W
  pub sha256_hex : Text → String
  pub isoformat : ℕ → Text

abbrev pub empty_db : Db
empty_db = record { alerts = []; verdicts = []; tool_calls = []; next_id = 0 }

module _ {W : Type 0} (d : Deployment W) where
  abbrev pub ingest_in : SessionAlert → Session W → Session W
  ingest_in alert s = (ingest_alert d.database d.queue d.sha256_hex d.isoformat alert s).1

  abbrev pub work_in : ℕ → ℕ → Session W → Session W
  work_in alert_id job_try s =
      (triage_alert_job d.database d.seams d.cfg d.build_messages d.job d.settings alert_id job_try
        s).1

  abbrev pub retriage_in : ℕ → Session W → Session W
  retriage_in alert_id s = (retriage_alert d.database d.queue d.cap alert_id s).1

  pub data Step : Session W → Session W → Type 0 where
    ingested : (s : Session W) (alert : SessionAlert) → Step s (ingest_in alert s)
    worked : (s : Session W) (alert_id job_try : ℕ) → Step s (work_in alert_id job_try s)
    retriaged : (s : Session W) (alert_id : ℕ) → Step s (retriage_in alert_id s)
    elapsed : (s : Session W) (w : W) → Step s (record s { world = w })

  pub data Reachable : Session W → Type 0 where
    started : (w : W) → Reachable (record { committed = empty_db; db = empty_db; world = w })
    stepped : {s t : Session W} → Reachable s → Step s t → Reachable t
