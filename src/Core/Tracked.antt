-- ===== src/Core/Tracked.antt =====
-- src/core/tracked-file-system.ts, tracked-inspection.ts and tracked-restore.ts: the staged tree
-- and its record of what differs from the stored baseline.
pub mod State
pub mod Restore
pub mod Operations
pub mod Pending
pub mod Commit
pub mod Invariant
pub mod Calls
pub mod Staging
pub mod Refresh
pub mod Resets
