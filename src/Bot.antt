-- ===== src/Bot.antt =====
-- The Telegram bot: internal/bot.
pub mod Drafts
pub mod Clients
pub mod Service
pub mod Orders
pub mod Users
pub mod Edits
pub mod Commands
pub mod Telegram
pub mod Polling
pub mod Guards
pub mod Logins
pub mod Conversation
pub mod Redis
