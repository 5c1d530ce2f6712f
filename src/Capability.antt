-- ===== src/Capability.antt =====
-- src/capability: delegated capabilities and what they allow.
pub mod Claims
pub mod Jws
pub mod Verify
pub mod Guard
