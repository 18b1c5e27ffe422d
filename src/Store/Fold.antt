-- ===== src/Store/Fold.antt =====
-- store/events.py: the fold of a run's events into its state, and what the fold promises.
pub mod Dict
pub mod Lookup
pub mod State
pub mod Events
pub mod OnRun
pub mod OnAgents
pub mod OnTasks
pub mod Project
pub mod Kept
pub mod Highest
pub mod Order
pub mod Upsert
pub mod Replay
pub mod Contain
pub mod Start
mod Examples
