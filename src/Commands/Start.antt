-- ===== src/Commands/Start.antt =====
-- How a process of cmd/ starts: the calls that open its connections, each with the error that it
-- answers, if it does, and the exit that follows.
use agency_bot.Base.{String, Option, none, some}

-- The process ends behind a line in the log, or it runs.
pub data Outcome (A : Type 0) : Type 0 where
  exits : String → Outcome A
  runs : A → Outcome A

-- `if err != nil { logger.Error(message); os.Exit(1) }`
unfoldable pub step : {A : Type 0} → Option String → String → Outcome A → Outcome A
step none message rest = rest
step (some e) message rest = exits message
