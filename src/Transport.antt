-- ===== src/Transport.antt =====
-- internal/transport: the failure values that cross the transport boundary.
pub mod Failure
