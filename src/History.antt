-- ===== src/History.antt =====
-- src/history: quotas, revisions, publication, recovery.
pub mod Ancestry
pub mod Query
pub mod Publish
pub mod Receipts
pub mod Store
pub mod Recovery
pub mod Quota
pub mod Records
pub mod Snapshot
pub mod Storage
pub mod Lease
pub mod Bodies
pub mod Repair
pub mod Checkpoints
pub mod Preview
pub mod Diff
pub mod Views
pub mod Purge
