-- ===== src/Worker.antt =====
-- worker/: the triage pipeline and the job around it.
pub mod Retry
pub mod Routing
pub mod Prompts
pub mod Outcome
pub mod Summarize
pub mod Tools
pub mod Client
pub mod Store
pub mod Attempt
pub mod Job
