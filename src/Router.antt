-- ===== src/Router.antt =====
-- internal/router: delivery of a new message to one destination, and the registry of adapters.
pub mod Create
pub mod Registry
pub mod Mutations
pub mod Routes
