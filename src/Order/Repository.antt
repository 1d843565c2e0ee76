-- ===== src/Order/Repository.antt =====
-- internal/order/repository/postgres.go: the methods of `Repository`.
pub mod Audit
pub mod Writes
pub mod Creation
pub mod Versions
pub mod Success
use agency_bot.Base.{
  ℕ, ℤ, pos, negsuc, ltb, ◌==◌, String, Bool, true, false, not, ◌&&◌, ◌||◌, Option, none, some,
  List, [], ◌∷◌, map, keep, find_first, take, any, is_empty, if◌then◌else◌,
}
use agency_bot.Effects.{
  Err, not_found, conflict, Done, M, ◌>>=◌, ◌>>◌, pure, throw, guard, for_each, World, now,
  new_uuid, exec, query, transact,
}
use agency_bot.Sql.{order_by, order_by_desc}
use agency_bot.Externals.{Uuid, Externals}
use agency_bot.Json.{Json, null, text, arr, obj, Fields, end, field, texts}
use agency_bot.Event.{OutboxRow}
use agency_bot.Order.App.{Store}
use agency_bot.Order.Domain.{Status, status_text, Time, Order, Changes, History}
use agency_bot.Order.Tables.{
  OrderRow, PerformerRow, Db, insert_order, insert_performer, delete_performer, update_order,
  update_status, insert_history, insert_outbox,
}

-- The order that `get` scans from a row and from the rows of its performers.
abbrev pub scan : OrderRow → List Uuid → Order
scan r ids = record {
  id = r.id;
  order_date = r.order_date;
  location = r.location;
  amount = r.amount;
  customer_name = r.customer_name;
  customer_phone = r.customer_phone;
  customer_contact = r.customer_contact;
  comment = r.comment;
  status = r.status;
  created_by = r.created_by;
  updated_by = r.updated_by;
  version = r.version;
  performer_ids = ids;
  created_at = r.created_at;
  updated_at = r.updated_at;
}

-- `SELECT performer_id FROM order_performers WHERE order_id=$1 ORDER BY performer_id`
unfoldable pub performers_of : Uuid → List PerformerRow → List Uuid
performers_of id rows =
    order_by (λ p. p) (map (λ r. r.performer_id) (keep (λ r. r.order_id == id) rows))

-- The limit that `List` gives to the database.
unfoldable pub clamp_limit : ℤ → ℕ
clamp_limit (pos n) = if ltb n 1 || ltb 100 n then 50 else n
clamp_limit (negsuc n) = 50

-- A row with no such identifier is `pgx.ErrNoRows`.
unfoldable pub or_not_found : {S A : Type 0} → Option A → M S Err A
or_not_found none = throw not_found
or_not_found (some a) = pure a

-- The performers of an order as JSON. `get` appends them to a nil slice, and a nil slice is null.
unfoldable pub ids_json : Externals → List Uuid → Json
ids_json lib [] = null
ids_json lib (p ∷ ps) = arr (texts (map lib.to_string (p ∷ ps)))

-- `map[string]Change` as JSON.
unfoldable pub changes_json : Changes → Fields
changes_json [] = end
changes_json ((k, c) ∷ cs) =
    field k (obj (field "Old" (text c.old_value) (field "New" (text c.new_value) end)))
      (changes_json cs)

module _ (lib : Externals) where
  -- The WHERE clause of `List`.
  abbrev pub is_listed : Option Uuid → String → List PerformerRow → OrderRow → Bool
  is_listed performer after performers r =
      elim performer [
        | none ↦ true
        | some p ↦ any (λ a. a.order_id == r.id && a.performer_id == p) performers
      ]
      && (is_empty after || lib.text_above (lib.to_string r.id) after)

  -- `SELECT id FROM orders WHERE … ORDER BY order_date ASC,id ASC LIMIT $3`
  unfoldable pub select_ids : Option Uuid → ℕ → String → Db → List Uuid
  select_ids performer limit after d = take limit (
      map (λ r. r.id)
        (order_by (λ r. r.order_date)
          (order_by (λ r. r.id) (keep (is_listed performer after d.performers) d.orders))))

-- The changes that `Status` and `Assign` write to the history.
abbrev pub status_change : Status → Status → Changes
status_change old next =
    ("status", record { old_value = status_text old; new_value = status_text next }) ∷ []

abbrev pub performer_change : String → Changes
performer_change p = ("performer_id", record { old_value = ""; new_value = p }) ∷ []

-- The row that `history` inserts.
abbrev pub history_row : Uuid → Time → Uuid → Uuid → String → Changes → History
history_row row_id t id actor action changes = record {
  id = row_id;
  order_id = id;
  actor_id = actor;
  action = action;
  changes = changes;
  created_at = t;
}

-- The row that `tx` inserts, with the event as its payload.
abbrev pub outbox_row : Uuid → Uuid → Time → Time → Uuid → String → Json → OutboxRow
outbox_row row_id event_id at t id typ content = record {
  id = row_id;
  aggregate_id = id;
  event_type = typ;
  payload = record {
    event_id = event_id;
    event_type = typ;
    event_version = 1;
    aggregate_id = id;
    occurred_at = at;
    producer = "order-service";
    content = content;
  };
  created_at = t;
  published_at = none;
  attempts = 0;
}

module _ {X : Type 0} where
  -- `get`
  unfoldable pub get : Uuid → M (World Db X) Err Order
  get id = do
    found ← query λ d. find_first (λ r. r.id == id) d.orders
    row ← or_not_found found
    ids ← query λ d. performers_of id d.performers
    pure (scan row ids)

  unfoldable pub get_all : List Uuid → M (World Db X) Err (List Order)
  get_all [] = pure []
  get_all (id ∷ ids) = do o ← get id; os ← get_all ids; pure (o ∷ os)

  -- `History`
  unfoldable pub history : Uuid → M (World Db X) Err (List History)
  history id = query λ d. order_by_desc (λ h. h.created_at) (keep (λ h. h.order_id == id) d.history)

  -- `history`, which writes one row
  unfoldable pub write_history : Time → Uuid → Uuid → String → Changes → M (World Db X) Err ℕ
  write_history t id actor action changes = do
    row_id ← new_uuid
    exec (insert_history (history_row row_id t id actor action changes))

  -- The event that `tx` writes behind the body `fn`, in the same transaction.
  unfoldable pub write_event : Time → Uuid → String → Json → M (World Db X) Err Done
  write_event t id typ content = do
    event_id ← new_uuid
    at ← now
    row_id ← new_uuid
    exec (insert_outbox (outbox_row row_id event_id at t id typ content)) >>= λ _. pure tt

  -- `tx`
  unfoldable pub tx : Uuid → String → Json → (Time → M (World Db X) Err ℕ) → M (World Db X) Err Done
  tx id typ content fn = transact λ t. fn t >>= λ _. write_event t id typ content

  -- One round of the loop of `Create`.
  unfoldable pub add_performer : Order → Time → Uuid → M (World Db X) Err Done
  add_performer o t p = exec (insert_performer o.id p o.created_by t) >>= λ _. pure tt

  -- The statement of `Assign` that adds or removes a performer.
  unfoldable pub assign_rows : Time → Order → Uuid → Bool → M (World Db X) Err ℕ
  assign_rows t o p true = exec (insert_performer o.id p o.updated_by t)
  assign_rows t o p false = do
    rows ← exec (delete_performer o.id p)
    guard (not (rows == 0)) not_found
    pure rows

-- The data of the events.
module _ (lib : Externals) where
  abbrev pub created_content : Order → Json
  created_content o = obj (
      field "order_id" (text (lib.to_string o.id))
        (field "performer_ids" (arr (texts (map lib.to_string o.performer_ids))) end))

  abbrev pub updated_content : Order → Changes → Json
  updated_content o changes = obj (
      field "order_id" (text (lib.to_string o.id)) (
        field "performer_ids" (ids_json lib o.performer_ids)
          (field "changes" (obj (changes_json changes)) end)))

  abbrev pub status_content : Order → Status → Json
  status_content o next = obj (
      field "order_id" (text (lib.to_string o.id)) (
        field "performer_ids" (ids_json lib o.performer_ids)
          (field "old" (text (status_text o.status)) (field "new" (text (status_text next)) end))))

  abbrev pub assigned_content : Order → Uuid → Json
  assigned_content o p = obj (
      field "order_id" (text (lib.to_string o.id))
        (field "performer_id" (text (lib.to_string p)) end))

module _ {X : Type 0} (lib : Externals) where
  -- `List`
  unfoldable pub list : Option Uuid → ℤ → String → M (World Db X) Err (List Order)
  list performer limit after =
      query (select_ids lib performer (clamp_limit limit) after) >>= λ ids. get_all ids

  -- `Create`
  unfoldable pub create : Order → M (World Db X) Err Done
  create o = tx o.id "order.created" (created_content lib o) λ t. do
    exec (insert_order lib o t) >>= λ _.
        for_each o.performer_ids (add_performer o t)
        >> write_history t o.id o.created_by "ORDER_CREATED" []

  -- `Update`
  unfoldable pub update : Order → Changes → M (World Db X) Err Done
  update o changes = tx o.id "order.updated" (updated_content lib o changes) λ t. do
    rows ← exec (update_order lib o t)
    guard (not (rows == 0)) conflict
    write_history t o.id o.updated_by "ORDER_UPDATED" changes

  -- `Status`
  unfoldable pub status : Order → Status → M (World Db X) Err Done
  status o next = tx o.id "order.status_changed" (status_content lib o next) λ t. do
    rows ← exec (update_status o next t)
    guard (not (rows == 0)) conflict
    write_history t o.id o.updated_by "STATUS_CHANGED" (status_change o.status next)

  -- `Assign`
  unfoldable pub assign : Order → Uuid → Bool → M (World Db X) Err Done
  assign o p add =
      tx o.id (if add then "order.performer_assigned" else "order.performer_unassigned")
        (assigned_content lib o p)
        λ t. assign_rows t o p add >>= λ _.
          write_history t o.id o.updated_by
            (if add then "PERFORMER_ASSIGNED" else "PERFORMER_UNASSIGNED")
            (performer_change (lib.to_string p))

  -- `Repository` as the `Store` of the service.
  abbrev pub repository : Store (World Db X)
  repository = record {
    get = get;
    create = create;
    update = update;
    status = status;
    assign = assign;
    list = list;
    history = history;
  }
