-- ===== src/Order/Tables.antt =====
-- The tables of migrations/orders and one function for each SQL statement of
-- internal/order/repository/postgres.go: the rows that it affects, or the error of a constraint.
use agency_bot.Base.{
  ℕ, ℤ, pos, ◌==ℤ◌, add_one, max_int64, ltb, ◌==◌, String, Bool, true, false, not, ◌&&◌, ◌||◌, none,
  some, List, [], ◌∷◌, ◌++◌, any, if◌then◌else◌,
}
use agency_bot.Effects.{Err, other, Result, ok, err}
use agency_bot.Sql.{count_where, update_where, delete_where}
use agency_bot.Externals.{Uuid, Externals}
use agency_bot.Event.{OutboxRow}
use agency_bot.Order.Domain.{Status, unknown, Time, Order, History}

-- A row of `orders`.
pub record OrderRow : Type 0 where
  pub id : Uuid
  pub order_date : Time
  pub location : String
  pub amount : String
  pub customer_name : String
  pub customer_phone : String
  pub customer_contact : String
  pub comment : String
  pub status : Status
  pub created_by : Uuid
  pub updated_by : Uuid
  pub version : ℤ
  pub created_at : Time
  pub updated_at : Time

-- A row of `order_performers`.
pub record PerformerRow : Type 0 where
  pub order_id : Uuid
  pub performer_id : Uuid
  pub assigned_by : Uuid
  pub assigned_at : Time

-- The database of the service; `history` is `order_history`, `outbox` is `outbox_events`.
pub record Db : Type 0 where
  pub orders : List OrderRow
  pub performers : List PerformerRow
  pub history : List History
  pub outbox : List OutboxRow

-- The outcome of a statement: the number of rows affected and the new tables.
abbrev pub Affected : Type 0
Affected = Result Err (ℕ × Db)

abbrev pub violation : String → Affected
violation text = err (other text)

abbrev pub duplicate_key : Affected
duplicate_key = violation "ERROR: duplicate key value violates unique constraint"

abbrev pub check_violation : Affected
check_violation = violation "ERROR: new row violates check constraint"

abbrev pub foreign_key_violation : Affected
foreign_key_violation = violation "ERROR: insert or update violates foreign key constraint"

-- CHECK (status IN ('PLANNED','COMPLETED','CANCELLED'))
abbrev pub is_known : Status → Bool
is_known (unknown s) = false
is_known _ = true

abbrev pub has_order : Uuid → List OrderRow → Bool
has_order id = any λ r. r.id == id

-- `WHERE id=$1 AND version=$2`
abbrev pub is_version : Uuid → ℤ → OrderRow → Bool
is_version id version r = r.id == id && r.version ==ℤ version

-- The row that an `INSERT INTO orders` writes, with the column defaults.
abbrev pub new_row : Order → String → Time → OrderRow
new_row o amount t = record {
  id = o.id;
  order_date = o.order_date;
  location = o.location;
  amount = amount;
  customer_name = o.customer_name;
  customer_phone = o.customer_phone;
  customer_contact = o.customer_contact;
  comment = o.comment;
  status = o.status;
  created_by = o.created_by;
  updated_by = o.created_by;
  version = pos 1;
  created_at = t;
  updated_at = t;
}

-- `INSERT INTO orders`
unfoldable pub insert_order : Externals → Order → Time → Db → Affected
insert_order lib o t d = elim (lib.cast_numeric o.amount) [
  | none ↦ violation "ERROR: invalid input syntax for type numeric"
  | some amount ↦
      if not (lib.is_positive amount) || not (is_known o.status)
      then check_violation
      else (if has_order o.id d.orders
          then duplicate_key
          else ok (1, record d { orders = d.orders ++ (new_row o amount t ∷ []) }))
]

-- `order_id=$1 AND performer_id=$2`
abbrev pub is_assignment : Uuid → Uuid → PerformerRow → Bool
is_assignment id p r = r.order_id == id && r.performer_id == p

-- The row that an `INSERT INTO order_performers` writes.
abbrev pub new_assignment : Uuid → Uuid → Uuid → Time → PerformerRow
new_assignment id p by t = record {
  order_id = id;
  performer_id = p;
  assigned_by = by;
  assigned_at = t;
}

-- `INSERT INTO order_performers`
unfoldable pub insert_performer : Uuid → Uuid → Uuid → Time → Db → Affected
insert_performer id p by t d =
    if any (is_assignment id p) d.performers
    then duplicate_key
    else (if not (has_order id d.orders)
        then foreign_key_violation
        else ok (1, record d { performers = d.performers ++ (new_assignment id p by t ∷ []) }))

-- `DELETE FROM order_performers WHERE order_id=$1 AND performer_id=$2`
unfoldable pub delete_performer : Uuid → Uuid → Db → Affected
delete_performer id p d = ok (
  count_where (is_assignment id p) d.performers,
  record d { performers = delete_where (is_assignment id p) d.performers },
)

-- The SET clause of the `UPDATE orders` of `Update`.
abbrev pub edited : Order → String → Time → OrderRow → OrderRow
edited o amount t r = record r {
  order_date = o.order_date;
  location = o.location;
  amount = amount;
  customer_name = o.customer_name;
  customer_phone = o.customer_phone;
  customer_contact = o.customer_contact;
  comment = o.comment;
  updated_by = o.updated_by;
  updated_at = t;
  version = add_one r.version;
}

-- The SET clause of the `UPDATE orders` of `Status`.
abbrev pub moved : Order → Status → Time → OrderRow → OrderRow
moved o next t r = record r {
  status = next;
  updated_by = o.updated_by;
  updated_at = t;
  version = add_one r.version;
}

-- An UPDATE that adds 1 to the version of the rows that it selects.
abbrev pub update_version : (OrderRow → OrderRow) → Uuid → ℤ → Db → Affected
update_version f id version d =
    if ltb 0 (count_where (is_version id version) d.orders) && version ==ℤ max_int64
    then violation "ERROR: bigint out of range"
    else ok (
      count_where (is_version id version) d.orders,
      record d { orders = update_where (is_version id version) f d.orders },
    )

-- `UPDATE orders SET order_date=$3, …, version=version+1 WHERE id=$1 AND version=$2`
unfoldable pub update_order : Externals → Order → Time → Db → Affected
update_order lib o t d = elim (lib.cast_numeric o.amount) [
  | none ↦ violation "ERROR: invalid input syntax for type numeric"
  | some amount ↦
      if ltb 0 (count_where (is_version o.id o.version) d.orders) && not (lib.is_positive amount)
      then check_violation
      else update_version (edited o amount t) o.id o.version d
]

-- `UPDATE orders SET status=$3, …, version=version+1 WHERE id=$1 AND version=$2`
unfoldable pub update_status : Order → Status → Time → Db → Affected
update_status o next t d =
    if ltb 0 (count_where (is_version o.id o.version) d.orders) && not (is_known next)
    then check_violation
    else update_version (moved o next t) o.id o.version d

-- `INSERT INTO order_history`
unfoldable pub insert_history : History → Db → Affected
insert_history h d =
    if any (λ r. r.id == h.id) d.history
    then duplicate_key
    else (if not (has_order h.order_id d.orders)
        then foreign_key_violation
        else ok (1, record d { history = d.history ++ (h ∷ []) }))

-- `INSERT INTO outbox_events`
unfoldable pub insert_outbox : OutboxRow → Db → Affected
insert_outbox e d =
    if any (λ r. r.id == e.id) d.outbox
    then duplicate_key
    else ok (1, record d { outbox = d.outbox ++ (e ∷ []) })
