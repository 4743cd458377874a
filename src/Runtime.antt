-- ===== src/Runtime.antt =====
-- The runtime of runs, steps and workers (core/runtime_*.py, core/worker.py and their rows in
-- core/models.py).
pub mod Models
pub mod Contract
pub mod Session
pub mod Events
pub mod Workers
pub mod Transitions
pub mod Queue
pub mod Runs
pub mod Stale
pub mod Steps
pub mod Leases
pub mod Api
pub mod CodexWorker
pub mod Artifacts
pub mod CodexHost
pub mod CodexRun
pub mod CodexOutcome
pub mod CodexKeeps
pub mod CodexSettles
pub mod CodexVerdict
pub mod CodexEnds
pub mod Rows
pub mod Evolution
pub mod Neutral
pub mod Flow
pub mod Operations
pub mod StaleFlow
pub mod StaleLoop
pub mod LeaseFlow
pub mod Exclusive
pub mod ApiFlow
pub mod StepFlow
pub mod History
pub mod EndFlow
pub mod Reached
pub mod Dispatch
pub mod QueueOrder
pub mod Leaves
pub mod Verdict
pub mod Outcomes
pub mod Endings
pub mod Retry
