-- ===== src/Evals.antt =====
-- evals: the scoring of a run over the golden set, and the sample that is labeled.
pub mod Cases
pub mod Tables
pub mod Percentile
pub mod Scoring
pub mod Sample
