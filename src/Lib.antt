-- ===== src/Lib.antt =====
-- Verification of AgencyBot, a platform for orders: a user service, an order service, workers that
-- publish the events of both (the transactional outbox), a notification service that consumes them,
-- and a Telegram bot. Paths below are from the repository's root.
--
-- Parts, and where they are modelled:
-- - internal/order/domain: Order/Domain. The types keep their fields; `Status` is a data type with a
--   constructor for any other string; a time is a number of nanoseconds, 0 for the zero `time.Time`.
-- - internal/order/app: Order/App. The interface `Store` is a record of operations on any state `S`,
--   and each method of `Service` is a function of the same name in snake case.
-- - internal/order/repository: Order/Tables has the tables of migrations/orders and a function for
--   each SQL statement, with the constraints that can refuse it; Order/Repository has the methods,
--   and `repository` is the `Store` that they make.
-- - internal/order/transport: Order/Transport, with the permission checks, over the service.
--   internal/order/app/users.go: Order/Performers, the order service's question to the user service.
-- - internal/auth: Auth, the interceptor that gives a handler its actor; Grpc has the status codes.
-- - internal/user/domain and internal/user/app: User/Domain and User/App, over the interface `Store` and
--   over the interface of internal/user/password.
-- - internal/user/repository: User/Tables has the tables of migrations/users and the SQL statements,
--   User/Repository the methods; User/Accounts is the relation of any number of them in any order.
-- - internal/user/transport: User/Transport. internal/user/password: User/Password.
-- - internal/bot: Bot/Service, Bot/Orders, Bot/Users, Bot/Edits and Bot/Commands have the methods of
--   `Service`, over the record Bot/Clients of all that it calls, and Bot/Drafts what it remembers.
--   Bot/Redis has the client of Redis and the store of drafts of draft.go, over bytes.
--   Bot/Conversation runs whole conversations, and Bot/Guards compares runs with other clients.
-- - pkg/event: Event, with the rows of the outbox tables; Json has the data of the events.
-- - internal/bot/telegram.go: Bot/Telegram, over the exchange of net/http.
-- - internal/outbox: Outbox, where `process` is `Worker.Process` and `run` is `Worker.Run`.
-- - internal/notification: Notification, where `process` is `Service.Process`, `dispatch` is
--   `Service.Dispatch` and `run_dispatcher` is `Service.RunDispatcher`.
-- - internal/config: Config, as functions of the environment.
-- - cmd: Commands. OrderService and UserService have the wiring of the two services: `start` is what
--   `main` does before it serves, and `serve` is a call on its way through the interceptor to the
--   handler of its method. NotificationService has the loop of the consumer, BotService and
--   OutboxWorkers the start of the others, and TelegramLinkToken the command for codes, whose client is
--   put in front of the user service in TelegramLinkToken/Serving.
--
-- How effects are modelled (Effects): a call is a function on a `World`, which has the database, the
-- effects that no rollback takes back (messages to Kafka or Telegram), an environment and a count of
-- the calls made. The environment answers the n-th call: the clock, a random identifier, and whether
-- the call fails. It is a variable of every theorem, so the theorems hold wherever a call fails. A
-- transaction gives the old database back on every error, as the deferred `Rollback` does, and a
-- failed `Commit` is taken to have written nothing. The statements of one transaction run without
-- others in between; what runs between the transactions of one request is the step relation of
-- Order/Lifecycle.
--
-- Parameters (Externals): the identifiers of github.com/google/uuid, of which it is assumed that the
-- text of an identifier parses to it; PostgreSQL's order on texts and its NUMERIC(14,2), of which
-- nothing is assumed. math/big's parser of rational numbers is the argument `rat`. The parser of tokens
-- (Auth.Jwt) is assumed to refuse a token for whose method there is no key. Of argon2 and base64
-- (User.Password.Argon) it is assumed that a key has the length asked for, and that an encoded text
-- decodes to its bytes and has no `$`. The clients of the bot and Go's formatting of dates
-- (Bot.Clients) are free, except where a conversation is run through without a failure: there
-- Bot.Conversation.Reliable says that the store keeps the last draft and that messages are taken. Of the
-- network to Redis nothing is assumed, except in Bot.Redis.Store, where a server follows the protocol.
-- Of the signer of tokens (TelegramLinkToken.Tools) it is assumed that the parser takes a token for the
-- claims that were signed with the same secret, which holds until the token expires, and of the
-- conversion of a duration to seconds that it is exact on whole seconds.
--
-- Every loop of the code is over a list or endless, so there is no fuel but for the digits of a
-- number, where the number itself is enough (Bot.Redis.Digits). An endless loop is given the rounds
-- that it makes until its context is done. Versions are integers, and the overflow of BIGINT is the
-- error of the statement. The text between `json.Marshal` and `json.Unmarshal` is left out: the
-- value is kept. So is a value that Go returns beside a non-nil error. Rows with equal sort keys
-- keep the order of insertion. The counts of attempts are unbounded numbers. A commit to Kafka is
-- kept as the call with its record; Commands.NotificationService.Committed says which offset follows
-- from the commits.
--
-- Not modelled: the connection and the deadlines of internal/bot/draft.go, and the expiry of its keys;
-- the signing of the bot's tokens, whose claims are modelled; the waiting of the endless loops, signals
-- and the graceful stop of the services; the metrics, health and placeholder servers, which are pure
-- I/O; and of the generated code under gen all but the names of the methods and the dispatch by them.
pub mod Base
pub mod Effects
pub mod Sql
pub mod Json
pub mod Externals
pub mod Event
pub mod Grpc
pub mod Auth
pub mod Bot
pub mod Config
pub mod Commands
pub mod Order
pub mod User
pub mod Outbox
pub mod Notification
mod Tests
