-- ===== src/Order.antt =====
-- The order service: internal/order.
pub mod Domain
pub mod App
pub mod Tables
pub mod Repository
pub mod Lifecycle
pub mod Transport
pub mod Performers
