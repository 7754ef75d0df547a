-- ===== src/Api.antt =====
-- internal/api: accounts, sessions and the access rules of the HTTP interface.
pub mod Accounts
pub mod Handlers
pub mod Members
pub mod Activation
pub mod Access
pub mod Changes
pub mod Permissions
pub mod Locked
pub mod Lockout
pub mod Login
