-- ===== src/Api.antt =====
-- api/: the requests that change state, and the guards in front of them.
pub mod Deps
pub mod Ingest
pub mod Retriage
