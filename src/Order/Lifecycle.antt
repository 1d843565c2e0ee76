-- ===== src/Order/Lifecycle.antt =====
-- The life of an order when any number of requests run at once. The methods of
-- internal/order/app/service.go read an order, decide, and write in a transaction of its own; other
-- requests run in between. A step is one read or one write, and a write may fail at any call.
pub mod Rows
pub mod OneWrite
pub mod Spent
pub mod Transitions
use agency_bot.Base.{ℤ, ◌≡◌, Bool, some, List, ◌∷◌, find_first, ◌==◌, Option}
use agency_bot.Effects.{World}
use agency_bot.Externals.{Uuid, Externals}
use agency_bot.Order.App.{move_status}
use agency_bot.Order.Domain.{Status, Order, Changes}
use agency_bot.Order.Tables.{OrderRow, Db}
use agency_bot.Order.Repository.{scan, create, update, assign, repository}

-- The row that `get` reads.
abbrev pub lookup : Uuid → Db → Option OrderRow
lookup id d = find_first (λ r. r.id == id) d.orders

-- `o` is one of the orders that the running requests have read.
pub data Held (o : Order) : List Order → Type 0 where
  newest : {os : List Order} → Held o (o ∷ os)
  older : {p : Order} {os : List Order} → Held o os → Held o (p ∷ os)

-- The database and the orders that running requests hold.
pub record System : Type 0 where
  pub db : Db
  pub held : List Order

-- The repository of one call; its calls have no effects but those on the database.
abbrev pub Session : Type 0
Session = World Db (Unit {0})

-- The system after a call that was made on its database.
abbrev pub after : Session → List Order → System
after w held = record { db = w.db; held = held }

module _ (lib : Externals) where
  pub data Step (s : System) : System → Type 0 where
    -- A request reads an order.
    reads :
        (r : OrderRow) (ids : List Uuid)
        → lookup r.id s.db ≡ some r
        → Step s (record s { held = scan r ids ∷ s.held })
    -- `Create` of a new order.
    creates : (o : Order) (w : Session) → w.db ≡ s.db → Step s (after (create lib o w).1 s.held)
    -- `Update` with any version.
    updates :
        (o : Order) (changes : Changes) (w : Session)
        → w.db ≡ s.db
        → Step s (after (update lib o changes w).1 s.held)
    -- `ChangeStatus` after its read of `o`, with any version: the guard of the service and, if it
    -- lets the request through, `Status`.
    moves :
        (o : Order) (actor : Uuid) (version : ℤ) (next : Status) (w : Session)
        → Held o s.held
        → w.db ≡ s.db
        → Step s (after (move_status (repository lib) actor version next o w).1 s.held)
    -- `Assign` after its read.
    assigns :
        (o : Order) (p : Uuid) (add : Bool) (w : Session)
        → w.db ≡ s.db
        → Step s (after (assign lib o p add w).1 s.held)

  pub data Reach (s : System) : System → Type 0 where
    start : Reach s s
    extend : {t u : System} → Reach s t → Step t u → Reach s u
