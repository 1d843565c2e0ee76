-- ===== src/Commands/NotificationService.antt =====
-- cmd/notification-service/main.go: the consumer of the topics, beside the dispatcher. A record is a
-- message of one partition of a topic; what `kafka` answers is a parameter of the loop, and a commit
-- is a call that may fail.
pub mod Committed
pub mod Dispatching
use agency_bot.Base.{ℕ, String, Option, none, some, List, [], ◌∷◌, ◌++◌, is_empty, if◌then◌else◌}
use agency_bot.Effects.{
  Err, Result, Done, M, ◌>>=◌, ◌>>◌, pure, for_each, error_of, ignore, call, ok,
}
use agency_bot.Config
use agency_bot.Config.{Environment}
use agency_bot.Commands.Start.{Outcome, exits, runs, step}
use agency_bot.Externals.{Externals}
use agency_bot.Notification.{Incoming, Notifier, process, dispatch_round}

-- The errors of the calls with which the process starts.
pub record Startup : Type 0 where
  pub pool : Option String
  pub ping : Option String
  pub kafka : Option String

-- `main`, up to the loop.
unfoldable pub start : Environment → Startup → Outcome Config.NotificationService
start getenv s =
    if is_empty (Config.notification getenv).telegram_token
    then exits "TELEGRAM_BOT_TOKEN is required"
    else step s.pool "database unavailable" (
        step s.ping "database unavailable"
          (step s.kafka "kafka client failed" (runs (Config.notification getenv))))

-- `kgo.Record`, with the event that its value decodes to, if it does.
pub record Record : Type 0 where
  pub topic : String
  pub partition : ℕ
  pub offset : ℕ
  pub value : Option Incoming

-- What `PollFetches` answers: errors, or records.
pub data Fetches : Type 0 where
  poll_failed : String → Fetches
  fetched : List Record → Fetches

-- The service, and the records of the commits that Kafka took, oldest first.
pub record Consumer : Type 0 where
  pub notifier : Notifier
  pub commits : List Record

-- A call of the service.
unfoldable pub on_notifier : {A : Type 0} → M Notifier Err A → M Consumer Err A
on_notifier m s = let (r, w) = m s.notifier in (r, record s { notifier = w })

-- `CommitRecords`
unfoldable pub commit : Record → M Consumer Err Done
commit r = on_notifier call >> λ s. (ok tt, record s { commits = s.commits ++ (r ∷ []) })

module _ (lib : Externals) where
  -- The function that `EachRecord` calls.
  unfoldable pub on_record : Record → M Consumer Err Done
  on_record r = error_of (on_notifier (process lib r.value)) >>= λ failure. elim failure [
    | some e ↦ pure tt
    | none ↦ ignore (commit r)
  ]

  -- One round of the loop of `main`.
  unfoldable pub on_fetches : Fetches → M Consumer Err Done
  on_fetches (poll_failed e) = pure tt
  on_fetches (fetched rs) = for_each rs on_record

-- What the process does: a round of the loop, or one of `RunDispatcher`.
pub data Activity : Type 0 where
  polls : Fetches → Activity
  dispatches : Activity

module _ (lib : Externals) where
  unfoldable pub act : Activity → M Consumer Err Done
  act (polls f) = on_fetches lib f
  act dispatches = on_notifier dispatch_round

  -- The activities until the context is done.
  unfoldable pub run : List Activity → M Consumer Err Done
  run activities = for_each activities act
