-- ===== src/Shipper.antt =====
-- honeypot/shipper/sentinelbrief_shipper: the process on the honeypot that assembles sessions from
-- the Cowrie log, spools them on disk and posts them.
pub mod Assemble
pub mod Spool
pub mod Tail
pub mod Deliver
pub mod Main
