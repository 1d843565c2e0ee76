-- ===== src/Commands/OutboxWorkers.antt =====
-- cmd/order-outbox-worker/main.go and cmd/user-outbox-worker/main.go: the workers of the two outbox
-- tables. They read their settings without defaults, and return where a connection fails.
use agency_bot.Base.{String, Option}
use agency_bot.Config.{Environment}
use agency_bot.Commands.Start.{Outcome, runs, step}

-- What a worker runs with.
pub record Wiring : Type 0 where
  pub database_dsn : String
  pub brokers : String
  pub topic : String

-- The errors of the calls with which a worker starts.
pub record Startup : Type 0 where
  pub pool : Option String
  pub kafka : Option String

-- `main`, up to `Run`, by the name of the setting of the database and by the topic.
unfoldable pub start : String → String → Environment → Startup → Outcome Wiring
start dsn topic getenv s = step s.pool "database connection failed" (
    step s.kafka "kafka client failed" (
      runs (record { database_dsn = getenv dsn; brokers = getenv "KAFKA_BROKERS"; topic = topic })))

abbrev pub order_worker : Environment → Startup → Outcome Wiring
order_worker = start "ORDER_DB_DSN" "orders.events"

abbrev pub user_worker : Environment → Startup → Outcome Wiring
user_worker = start "USER_DB_DSN" "users.events"
