-- ===== src/Tests.antt =====
-- Runs of the models on inputs like those of the tests under tests/.
pub mod Paths
pub mod Policies
pub mod Inspections
pub mod Tracked
pub mod Capabilities
pub mod Histories
pub mod Recoveries
pub mod Mounting
pub mod Viewing
pub mod Storages
pub mod Purges
pub mod Commits
pub mod Differences
