-- ===== src/Store.antt =====
-- src/supervisor_harness/store: the append-only event log and the fold that projects it.
pub mod Lines
pub mod EventLog
pub mod Fold
pub mod Lock
pub mod Session
