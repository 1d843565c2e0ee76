-- ===== src/User.antt =====
-- The user service: internal/user.
pub mod Domain
pub mod App
pub mod Login
pub mod Tables
pub mod Repository
pub mod Accounts
pub mod Transport
pub mod Password
