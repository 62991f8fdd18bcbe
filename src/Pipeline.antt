-- ===== src/Pipeline.antt =====
-- worker/triage.py: `TriagePipeline`, in parts.
pub mod Seams
pub mod Budget
pub mod Run
