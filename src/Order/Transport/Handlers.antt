-- ===== src/Order/Transport/Handlers.antt =====
-- internal/order/transport/grpc.go: the methods of `Server`. A response that comes with an error is
-- not sent by gRPC, so a handler answers a response or a refusal.
use agency_bot.Base.{
  ltb, ◌==◌, String, Bool, not, ◌&&◌, ◌||◌, Option, none, some, List, [], ◌∷◌, map, last?, is_empty,
  if◌then◌else◌,
}
use agency_bot.Effects.{ok, M, ◌>>=◌, ◌>>◌, pure, guard, map_err}
use agency_bot.Externals.{Uuid, Externals}
use agency_bot.Order.App
use agency_bot.Order.App.{Service}
use agency_bot.Order.Domain.{is_planned, Time, Order}
use agency_bot.Auth.{Context}
use agency_bot.Grpc.{permission_denied, Refusal, refusal}
use agency_bot.Order.Transport.{
  to_status, has, OrderMessage, requested_status, CreateOrderRequest, UpdateOrderRequest,
  ChangeOrderStatusRequest, PerformerRequest, ListOrdersRequest, ListPerformerOrdersRequest,
  ListOrdersResponse, HistoryItem, order_of, parsed_id, require, to_proto, history_item, actor,
  performer_ids,
}

-- `Server`: the service, `uuid.New` and `time.Now`.
pub record Server (S : Type 0) : Type 0 where
  pub app : Service S
  pub new_uuid : S → Uuid × S
  pub now : S → Time × S

module _ {S : Type 0} (lib : Externals) (s : Server S) where
  abbrev pub fresh_uuid : M S Refusal Uuid
  fresh_uuid t = let (u, t') = s.new_uuid t in (ok u, t')

  abbrev pub time_now : M S Refusal Time
  time_now t = let (u, t') = s.now t in (ok u, t')

  unfoldable pub create_order : Context → CreateOrderRequest → M S Refusal (Option OrderMessage)
  create_order c r = do
    require c "ORDER_CREATE" "ORDER_CREATE is required"
    a ← actor lib c
    ids ← performer_ids lib r.performer_ids
    id ← fresh_uuid
    let o = record (order_of r.fields) { id = id; created_by = a; performer_ids = ids }
    map_err to_status (App.create s.app o)
    pure (to_proto lib o)

  unfoldable pub get_order : Context → String → M S Refusal (Option OrderMessage)
  get_order c r_id = do
    a ← actor lib c
    id ← parsed_id (lib.parse r_id) "invalid id"
    o ← map_err to_status (App.get s.app id a (has c "ORDER_READ_ALL"))
    pure (to_proto lib o)

  unfoldable pub change_order_status :
      Context → ChangeOrderStatusRequest → M S Refusal (Option OrderMessage)
  change_order_status c r = do
    require c "ORDER_CHANGE_STATUS" "ORDER_CHANGE_STATUS is required"
    a ← actor lib c
    id ← parsed_id (lib.parse r.id) "invalid id"
    o ←
        map_err to_status
          (App.change_status s.app id a r.expected_version (requested_status r.status))
    pure (to_proto lib o)

  -- `assign`, with `true` for `AssignPerformer` and `false` for `UnassignPerformer`
  unfoldable pub assign : Context → PerformerRequest → Bool → M S Refusal (Option OrderMessage)
  assign c r add = do
    require c "ORDER_UPDATE" "ORDER_UPDATE is required"
    a ← actor lib c
    oid ← parsed_id (lib.parse r.order_id) "invalid order id"
    pid ← parsed_id (lib.parse r.performer_id) "invalid performer id"
    o ← map_err to_status (App.assign s.app oid a pid add)
    pure (to_proto lib o)

  unfoldable pub update_order : Context → UpdateOrderRequest → M S Refusal (Option OrderMessage)
  update_order c r = do
    require c "ORDER_UPDATE" "ORDER_UPDATE is required"
    a ← actor lib c
    id ← parsed_id (lib.parse r.id) "invalid id"
    let o = record (order_of r.fields) { id = id; version = r.expected_version; updated_by = a }
    o' ← map_err to_status (App.update s.app o)
    pure (to_proto lib o')

  -- The identifier of the last order, as the token of the next page.
  abbrev pub next_token : Option Order → String
  next_token none = ""
  next_token (some o) = lib.to_string o.id

  unfoldable pub list_orders : Context → ListOrdersRequest → M S Refusal ListOrdersResponse
  list_orders c r = do
    require c "ORDER_READ_ALL" "ORDER_READ_ALL is required"
    orders ← map_err to_status (App.list s.app none r.page_size r.page_token)
    pure
        (record { orders = map (to_proto lib) orders; next_page_token = next_token (last? orders) })

  -- The performer whose orders `ListPerformerOrders` lists: the actor, if the request names nobody.
  unfoldable pub listed_performer : Context → Uuid → String → M S Refusal Uuid
  listed_performer c a p_id = if is_empty p_id then pure a else (do
    id ← parsed_id (lib.parse p_id) "invalid performer id"
    guard (id == a || has c "ORDER_READ_ALL") (refusal permission_denied "forbidden")
    pure id)

  -- The test of `ListPerformerOrders` on an order; the clock is read for each planned order.
  unfoldable pub upcoming : List Order → M S Refusal (List Order)
  upcoming [] = pure []
  upcoming (o ∷ os) = do
    now ← (if is_planned o.status then time_now else pure 0)
    rest ← upcoming os
    pure (if is_planned o.status && not (ltb o.order_date now) then o ∷ rest else rest)

  unfoldable pub list_performer_orders :
      Context → ListPerformerOrdersRequest → M S Refusal ListOrdersResponse
  list_performer_orders c r = do
    a ← actor lib c
    id ← listed_performer c a r.performer_id
    orders ← map_err to_status (App.list s.app (some id) r.page_size r.page_token)
    shown ← upcoming orders
    pure (record { orders = map (to_proto lib) shown; next_page_token = "" })

  unfoldable pub get_order_history : Context → String → M S Refusal (List HistoryItem)
  get_order_history c r_id = do
    require c "ORDER_HISTORY_READ" "ORDER_HISTORY_READ is required"
    id ← parsed_id (lib.parse r_id) "invalid id"
    items ← map_err to_status (App.history s.app id)
    pure (map (history_item lib) items)
