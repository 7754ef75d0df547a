-- ===== src/Private.antt =====
-- internal/privatedm and internal/controlstore/private_dm.go: the relay of private messages.
pub mod Records
pub mod Cleanup
pub mod Kept
pub mod Accepted
pub mod Replies
pub mod Attempts
pub mod Permits
pub mod Limits
pub mod Route
pub mod Recipients
