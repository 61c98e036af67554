-- ===== src/State.antt =====
-- `class StateStore` of week03_guarded-harness/src/guarded_harness/state_store.py: runs, leases,
-- steps, tool invocations and the budget ledger.
pub mod Access
pub mod Lease
pub mod Runs
pub mod Steps
pub mod Invocations
pub mod Budget
