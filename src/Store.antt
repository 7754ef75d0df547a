-- ===== src/Store.antt =====
-- internal/store: the tables of schema.sql that the other components read and write.
pub mod Cursors
pub mod Ledger
pub mod Canonical
pub mod Claims
