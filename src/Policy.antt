-- ===== src/Policy.antt =====
-- src/policy: what is known of a command before it runs.
pub mod Types
pub mod Commands
pub mod Segments
pub mod Paths
pub mod Compression
pub mod Options
pub mod Arguments
pub mod Checks
pub mod Unwrap
pub mod Rules
pub mod Inspect
