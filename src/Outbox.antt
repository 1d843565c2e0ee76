-- ===== src/Outbox.antt =====
-- internal/outbox/worker.go: the worker that publishes the pending events of either service. Its
-- database is the table `outbox_events`; what Kafka has taken is the effect that no rollback undoes.
pub mod Delivery
pub mod Draining
pub mod Queue
pub mod Progress
use agency_bot.Base.{
  ℕ, zero, suc, ◌+◌, ◌==◌, String, Bool, true, false, not, ◌&&◌, Option, none, some, List, [], ◌∷◌,
  ◌++◌, keep, take, if◌then◌else◌,
}
use agency_bot.Effects.{
  Err, Result, ok, Done, M, ◌>>=◌, ◌>>◌, pure, throw, for_each, on_error, ignore, World, call, exec,
  query, transact,
}
use agency_bot.Sql.{order_by, update_where, count_where}
use agency_bot.Externals.{Uuid}
use agency_bot.Event.{Envelope, OutboxRow}

-- `kgo.Record`
pub record Message : Type 0 where
  pub topic : String
  pub key : Uuid
  pub value : Envelope

-- The rows of `outbox_events`, and the messages that the broker has taken, oldest first.
abbrev pub Worker : Type 0
Worker = World (List OutboxRow) (List Message)

abbrev pub is_pending : OutboxRow → Bool
is_pending r = elim r.published_at [ none ↦ true | some t ↦ false ]

-- `SELECT … WHERE published_at IS NULL ORDER BY created_at FOR UPDATE SKIP LOCKED LIMIT 50`, where
-- `locked` tells the rows that other workers hold.
unfoldable pub select_batch : (Uuid → Bool) → List OutboxRow → List OutboxRow
select_batch locked rows =
    take 50 (order_by (λ r. r.created_at) (keep (λ r. is_pending r && not (locked r.id)) rows))

abbrev pub has_id : Uuid → OutboxRow → Bool
has_id id r = r.id == id

-- `UPDATE outbox_events SET published_at=now(),attempts=attempts+1 WHERE id=$1`
abbrev pub published : ℕ → OutboxRow → OutboxRow
published t r = record r { published_at = some t; attempts = r.attempts + 1 }

unfoldable pub mark_published : ℕ → Uuid → List OutboxRow → Result Err (ℕ × List OutboxRow)
mark_published t id rows =
    ok (count_where (has_id id) rows, update_where (has_id id) (published t) rows)

-- `UPDATE outbox_events SET attempts=attempts+1 WHERE id=$1`
unfoldable pub count_attempt : Uuid → List OutboxRow → Result Err (ℕ × List OutboxRow)
count_attempt id rows = ok (
  count_where (has_id id) rows,
  update_where (has_id id) (λ r. record r { attempts = r.attempts + 1 }) rows,
)

-- The record that `Process` sends for a row.
abbrev pub message : String → OutboxRow → Message
message topic r = record { topic = topic; key = r.aggregate_id; value = r.payload }

-- `ProduceSync(…).FirstErr()`
unfoldable pub produce : Message → M Worker Err Done
produce m = call >> λ w. (ok tt, record w { ext = w.ext ++ (m ∷ []) })

-- One round of the loop of `Process`.
unfoldable pub publish : String → ℕ → OutboxRow → M Worker Err Done
publish topic t r =
    on_error (produce (message topic r)) (λ e. ignore (exec (count_attempt r.id)) >> throw e)
    >> (exec (mark_published t r.id) >>= λ _. pure tt)

-- `Process`
unfoldable pub process : String → (Uuid → Bool) → M Worker Err Done
process topic locked =
    transact λ t. query (select_batch locked) >>= λ batch. for_each batch (publish topic t)

-- One round of `Run`, which only logs the error of `Process`.
unfoldable pub round : String → (Uuid → Bool) → M Worker Err Done
round topic locked = on_error (process topic locked) λ e. pure tt

-- `Run`: a round, and one more after each tick that comes before the context is done. `locks n` is
-- what other workers hold in the round with `n` ticks to come.
unfoldable pub run : String → (ℕ → Uuid → Bool) → ℕ → M Worker Err Done
run topic locks zero = round topic (locks zero)
run topic locks (suc n) = round topic (locks (suc n)) >> run topic locks n
