-- ===== src/Order/Lifecycle/Rows.antt =====
-- How the statements change the row that a read of an order finds.
use agency_bot.Base.{◌≡◌, Bool, some, List, [], ◌∷◌, ◌++◌, arith, find_first, ◌==◌, if◌then◌else◌}
use agency_bot.Sql.{update_where}
use agency_bot.Externals.{Uuid}
use agency_bot.Order.Tables.{OrderRow}

abbrev by_id : Uuid → OrderRow → Bool
by_id id r = r.id == id

-- An update that keeps the identifiers reaches the row that is found exactly when it selects it.
pub find-update_where :
    (id : Uuid) (p : OrderRow → Bool) (f : OrderRow → OrderRow) (rows : List OrderRow)
    (r : OrderRow)
    → ((x : OrderRow) → (f x).id ≡ x.id)
    → find_first (by_id id) rows ≡ some r
    → find_first (by_id id) (update_where p f rows) ≡ some (if p r then f r else r)
find-update_where id p f [] r keeps e = ground arith
find-update_where id p f (x ∷ rows) r keeps e =
    ground (arith, keeps x, find-update_where id p f rows r keeps)

pub find-append :
    (id : Uuid) (rows more : List OrderRow) (r : OrderRow)
    → find_first (by_id id) rows ≡ some r
    → find_first (by_id id) (rows ++ more) ≡ some r
find-append id [] more r e = ground arith
find-append id (x ∷ rows) more r e = ground (arith, find-append id rows more r)

pub find-id :
    (id : Uuid) (rows : List OrderRow) (r : OrderRow)
    → find_first (by_id id) rows ≡ some r
    → r.id ≡ id
find-id id [] r e = ground arith
find-id id (x ∷ rows) r e = ground (arith, find-id id rows r)
