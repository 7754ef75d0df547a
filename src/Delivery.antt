-- ===== src/Delivery.antt =====
-- internal/delivery: one bounded lane of jobs for each destination, and retries within a job.
pub mod Retry
pub mod Lanes
