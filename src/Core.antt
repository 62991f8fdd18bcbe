-- ===== src/Core.antt =====
-- core/: what the api, the worker and the evaluation share.
pub mod Errors
pub mod Verdict
pub mod Llm
pub mod Alert
pub mod Database
pub mod Services
pub mod Reads
pub mod Stats
pub mod History
pub mod Session
pub mod Queue
pub mod Cache
