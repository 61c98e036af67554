-- ===== src/Tests.antt =====
-- A small world, and runs of the operations in it.
pub mod World
pub mod Runs
pub mod Steps
pub mod Policies
pub mod Tools
pub mod Gateway
pub mod Completion
pub mod Calls
pub mod Approvals
