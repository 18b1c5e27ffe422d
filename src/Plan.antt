-- ===== src/Plan.antt =====
-- core/requirements.py, core/phases.py and core/coordinator.py: the plan's tasks, what each waits
-- on, and the account of the requirements.
pub mod Graph
pub mod Tasks
pub mod Parts
pub mod Testers
pub mod Criteria
pub mod Fences
pub mod Meet
pub mod Attach
pub mod Ledger
mod Examples
