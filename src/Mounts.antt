-- ===== src/Mounts.antt =====
-- src/mounts: file systems composed of several sources.
pub mod Compose
pub mod Guard
pub mod View
