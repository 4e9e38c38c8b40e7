-- ===== src/Workstreams.antt =====
-- src/execution/workstreams.ts and src/execution/conflicts.ts: which pieces of work can happen at
-- once, and what a failure takes down.
pub mod Graph
pub mod Scheduler
pub mod Fallout
