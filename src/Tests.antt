-- ===== src/Tests.antt =====
-- Each property at a concrete input.
mod Router
mod Recovery
mod Delivery
mod Connection
mod Api
mod Routes
mod Private
mod Identity
mod Commands
