-- ===== src/Commands.antt =====
-- The commands of cmd/: how the processes are put together from the packages of internal/.
pub mod Access
pub mod Start
pub mod Signed
pub mod NotificationService
pub mod BotService
pub mod OutboxWorkers
pub mod TelegramLinkToken
pub mod UserService
pub mod OrderService
