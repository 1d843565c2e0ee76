-- ===== src/Order/Repository/Versions.antt =====
-- Optimistic concurrency in internal/order/repository/postgres.go: what the writes that a version
-- guards have in common.
use agency_bot.Base.{ℕ, ◌<◌, add_one, ◌≡◌, refl, List, arith}
use agency_bot.Effects.{Err, Result, ok, err, Done, World, M}
use agency_bot.Effects.Laws.{Atomic}
use agency_bot.Sql.{count_where, update_where}
use agency_bot.Externals.{Externals}
use agency_bot.Event.{OutboxRow}
use agency_bot.Order.Domain.{Status, Order, Changes, History}
use agency_bot.Order.Tables.{OrderRow, PerformerRow, Db, is_version, edited, moved}
use agency_bot.Order.Repository.{update, status}
use agency_bot.Order.Repository.Audit.{Writes}
use agency_bot.Order.Repository.Writes.{IsUpdated, IsMoved, update-Atomic, status-Atomic}

-- The call ended with an error and left the database `d`.
abbrev pub Refuses : {D X A : Type 0} → D → Result Err A × World D X → Type 0
Refuses d r = (e : Err) × (r.0 ≡ err e) × (r.1.db ≡ d)

-- A write that needs a row of the order's version, on a database that has none.
pub Refuses-stale :
    {X : Type 0} (d : Db) (Good : Db → Type 0) (n : ℕ) (r : Result Err Done × World Db X)
    → Atomic (λ _ d' _. Good d') d r
    → ((d' : Db) → Good d' → 0 < n)
    → n ≡ 0
    → Refuses d r
Refuses-stale d Good n (ok a, w) h f e = absurd (omega (arith, f w.db h, e))
Refuses-stale d Good n (err e, w) h f _ = (e, refl, h)

-- The two writes that a version guards.
pub data VersionedWrite : Type 0 where
  edits : Changes → VersionedWrite
  moves : Status → VersionedWrite

-- What both of them do to the table of orders.
abbrev pub IsRewritten : Order → Db → Db → Type 0
IsRewritten o d d' =
    (f : OrderRow → OrderRow) × (0 < count_where (is_version o.id o.version) d.orders)
    × ((r : OrderRow) → ((f r).id ≡ r.id) × ((f r).version ≡ add_one r.version))
    × (d'.orders ≡ update_where (is_version o.id o.version) f d.orders)

Rewritten-Atomic :
    {X : Type 0} (o : Order) (Tables : List OrderRow → List PerformerRow → Type 0)
    (Entry : History → Type 0) (Event : OutboxRow → Type 0) (d : Db)
    (r : Result Err Done × World Db X)
    → Atomic (λ _ d' _. Writes Tables Entry Event d d') d r
    → ((d' : Db) → Tables d'.orders d'.performers → IsRewritten o d d')
    → Atomic (λ _ d' _. IsRewritten o d d') d r
Rewritten-Atomic o Tables Entry Event d (ok a, w) written f = f w.db written.2
Rewritten-Atomic o Tables Entry Event d (err e, w) h f = h

module _ {X : Type 0} (lib : Externals) where
  abbrev pub run : VersionedWrite → Order → M (World Db X) Err Done
  run (edits changes) o = update lib o changes
  run (moves next) o = status lib o next

  pub run-Rewrites :
      (a : VersionedWrite) (o : Order) (w : World Db X)
      → Atomic (λ _ d _. IsRewritten o w.db d) w.db (run a o w)
  run-Rewrites (edits changes) o w =
      Rewritten-Atomic o (IsUpdated lib o w.db) _ _ w.db _ (update-Atomic lib o w changes)
        λ d (t, amount, _, some_rows, rows, _).
          (edited o amount t, some_rows, λ r. (refl, refl), rows)
  run-Rewrites (moves next) o w =
      Rewritten-Atomic o (IsMoved o next w.db) _ _ w.db _ (status-Atomic lib o w next)
        λ d (t, some_rows, rows, _). (moved o next t, some_rows, λ r. (refl, refl), rows)
