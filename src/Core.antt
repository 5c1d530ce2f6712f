-- ===== src/Core.antt =====
-- src/core: canonical paths.
pub mod Path
pub mod RuntimePaths
pub mod Entries
pub mod Tracked
pub mod Changes
pub mod Uploads
pub mod Workspace
