-- ===== src/Commands/BotService.antt =====
-- cmd/bot-service/main.go: the start of the bot.
use agency_bot.Base.{String, Option, ◌||◌, is_empty, if◌then◌else◌}
use agency_bot.Config
use agency_bot.Config.{Environment}
use agency_bot.Commands.Start.{Outcome, exits, runs, step}

-- The errors of the calls with which the process starts.
pub record Startup : Type 0 where
  pub user_client : Option String
  pub order_client : Option String

-- `main`, up to `Run`.
unfoldable pub start : Environment → Startup → Outcome Config.BotService
start getenv s =
    if is_empty (Config.bot getenv).telegram_token || is_empty (Config.bot getenv).jwt_secret
    then exits "TELEGRAM_BOT_TOKEN and JWT_SECRET are required"
    else step s.user_client "user service connection failed"
        (step s.order_client "order service connection failed" (runs (Config.bot getenv)))
