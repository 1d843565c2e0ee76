-- ===== src/Commands/OrderService.antt =====
-- cmd/order-service/main.go: the order service behind the authentication interceptor. The metrics
-- interceptor in front of it measures a call and changes nothing of it; `OrderCall` and its full
-- names are those of the generated server (proto/order/v1/order.proto).
pub mod Access
use agency_bot.Base.{String, Bool, true, false, Option, List}
use agency_bot.Effects.{M, ◌>>=◌, pure}
use agency_bot.Externals.{Externals}
use agency_bot.Auth.{Context, Jwt, interceptor}
use agency_bot.Config
use agency_bot.Config.{Environment}
use agency_bot.Grpc.{Refusal}
use agency_bot.Commands.Start.{Outcome, runs, step}
use agency_bot.Order.Transport.{
  OrderMessage, CreateOrderRequest, UpdateOrderRequest, ChangeOrderStatusRequest, PerformerRequest,
  ListOrdersRequest, ListPerformerOrdersRequest, ListOrdersResponse, HistoryItem,
}
use agency_bot.Order.Transport.Handlers.{
  Server, create_order, get_order, change_order_status, assign, update_order, list_orders,
  list_performer_orders, get_order_history,
}

-- A call of a client, by its method.
pub data OrderCall : Type 0 where
  create_order_call : CreateOrderRequest → OrderCall
  get_order_call : String → OrderCall
  update_order_call : UpdateOrderRequest → OrderCall
  change_order_status_call : ChangeOrderStatusRequest → OrderCall
  assign_performer_call unassign_performer_call : PerformerRequest → OrderCall
  list_orders_call : ListOrdersRequest → OrderCall
  list_performer_orders_call : ListPerformerOrdersRequest → OrderCall
  get_order_history_call : String → OrderCall

pub data OrderReply : Type 0 where
  order_reply : Option OrderMessage → OrderReply
  orders_reply : ListOrdersResponse → OrderReply
  history_reply : List HistoryItem → OrderReply

abbrev pub full_method : OrderCall → String
full_method (create_order_call r) = "/order.v1.OrderService/CreateOrder"
full_method (get_order_call id) = "/order.v1.OrderService/GetOrder"
full_method (update_order_call r) = "/order.v1.OrderService/UpdateOrder"
full_method (change_order_status_call r) = "/order.v1.OrderService/ChangeOrderStatus"
full_method (assign_performer_call r) = "/order.v1.OrderService/AssignPerformer"
full_method (unassign_performer_call r) = "/order.v1.OrderService/UnassignPerformer"
full_method (list_orders_call r) = "/order.v1.OrderService/ListOrders"
full_method (list_performer_orders_call r) = "/order.v1.OrderService/ListPerformerOrders"
full_method (get_order_history_call id) = "/order.v1.OrderService/GetOrderHistory"

-- What the process serves with.
pub record Wiring : Type 0 where
  pub config : Config.OrderService
  pub is_public : String → Bool

-- The errors of the calls with which it starts.
pub record Startup : Type 0 where
  pub pool : Option String
  pub ping : Option String
  pub user_client : Option String
  pub listen : Option String

-- `main`, up to the server, whose interceptor has no public methods.
unfoldable pub start : Environment → Startup → Outcome Wiring
start getenv s = step s.pool "database unavailable" (
    step s.ping "database unavailable" (
      step s.user_client "user service connection failed" (
        step s.listen "listen failed"
          (runs (record { config = Config.order getenv; is_public = λ m. false })))))

module _ {S : Type 0} (lib : Externals) (s : Server S) where
  -- The method of the registered server.
  unfoldable pub handle : OrderCall → Context → M S Refusal OrderReply
  handle (create_order_call r) c = create_order lib s c r >>= λ o. pure (order_reply o)
  handle (get_order_call id) c = get_order lib s c id >>= λ o. pure (order_reply o)
  handle (update_order_call r) c = update_order lib s c r >>= λ o. pure (order_reply o)
  handle (change_order_status_call r) c =
      change_order_status lib s c r >>= λ o. pure (order_reply o)
  handle (assign_performer_call r) c = assign lib s c r true >>= λ o. pure (order_reply o)
  handle (unassign_performer_call r) c = assign lib s c r false >>= λ o. pure (order_reply o)
  handle (list_orders_call r) c = list_orders lib s c r >>= λ o. pure (orders_reply o)
  handle (list_performer_orders_call r) c =
      list_performer_orders lib s c r >>= λ o. pure (orders_reply o)
  handle (get_order_history_call id) c =
      get_order_history lib s c id >>= λ h. pure (history_reply h)

  -- A call with its header `authorization`.
  unfoldable pub serve : Jwt → Wiring → Option (List String) → OrderCall → M S Refusal OrderReply
  serve jwt w authorization c =
      interceptor jwt w.config.jwt_secret (handle c) w.is_public
        (record { full_method = full_method c; authorization = authorization })
