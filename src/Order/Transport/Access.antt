-- ===== src/Order/Transport/Access.antt =====
-- Access control in internal/order/transport/grpc.go, for any service behind the handlers.
use agency_bot.Base.{
  ◌≡◌, refl, arith, String, Bool, true, false, some, any, ◌==◌, ◌||◌, if◌then◌else◌,
}
use agency_bot.Effects.{ok, err, Done, M, ◌>>=◌, guard, map_err}
use agency_bot.Externals.{Uuid, Externals}
use agency_bot.Order.App
use agency_bot.Order.Domain.{Order}
use agency_bot.Auth.{Context}
use agency_bot.Grpc.{permission_denied, Refusal, refusal}
use agency_bot.Order.Transport.{
  has, CreateOrderRequest, UpdateOrderRequest, ChangeOrderStatusRequest, PerformerRequest,
  ListOrdersRequest, require, actor, to_proto, parsed_id, to_status,
}
use agency_bot.Order.Transport.Handlers.{
  Server, create_order, get_order, change_order_status, assign, update_order, list_orders,
  get_order_history,
}

-- Either the actor has the permission `p`, or the call is denied before it touches the state.
pub data Guarded {S A : Type 0} (c : Context) (p : String) (h : M S Refusal A) : Type 0 where
  permitted : has c p ≡ true → Guarded c p h
  denied : (m : String) → ((t : S) → h t ≡ (err (refusal permission_denied m), t)) → Guarded c p h

module _ {S : Type 0} where
  pub require-Guarded :
      {A : Type 0} (c : Context) (p m : String) (k : Done → M S Refusal A)
      → Guarded c p (require c p m >>= k)
  require-Guarded c p m k =
      elim (has c p) as (λ b. has c p ≡ b → Guarded c p (require c p m >>= k)) [
        | true ↦ λ e. permitted e
        | false ↦ λ e. denied m λ t. unfold require guard ◌>>=◌ in rw (e) refl
      ]
        refl

module _ {S : Type 0} (lib : Externals) (s : Server S) where
  -- Each of these handlers, on any request, either has an actor with the permission that it asks for,
  -- or answers PermissionDenied with the state untouched. `assign` stands for both of its callers.
  pub handlers-Guarded :
      (c : Context) (create : CreateOrderRequest) (status : ChangeOrderStatusRequest)
      (performer : PerformerRequest) (add : Bool) (update : UpdateOrderRequest)
      (list : ListOrdersRequest) (id : String)
      → Guarded c "ORDER_CREATE" (create_order lib s c create)
        × Guarded c "ORDER_CHANGE_STATUS" (change_order_status lib s c status)
        × Guarded c "ORDER_UPDATE" (assign lib s c performer add)
        × Guarded c "ORDER_UPDATE" (update_order lib s c update)
        × Guarded c "ORDER_READ_ALL" (list_orders lib s c list)
        × Guarded c "ORDER_HISTORY_READ" (get_order_history lib s c id)
  unfolding create_order change_order_status assign update_order list_orders get_order_history
  handlers-Guarded c create status performer add update list id = (
    require-Guarded c _ _ _,
    require-Guarded c _ _ _,
    require-Guarded c _ _ _,
    require-Guarded c _ _ _,
    require-Guarded c _ _ _,
    require-Guarded c _ _ _,
  )

  -- For an actor whose identifier parses and an order that the store finds, GetOrder answers the order
  -- if the actor may read all orders or is a performer of it, whatever its status and its date, and
  -- refuses it otherwise.
  pub get_order_lem :
      (c : Context) (r_id : String) (a id : Uuid) (o : Order) (t t' : S)
      → actor lib c t ≡ (ok a, t)
      → lib.parse r_id ≡ some id
      → s.app.store.get id t ≡ (ok o, t')
      → get_order lib s c r_id t ≡ (
        if has c "ORDER_READ_ALL" || any (λ p. p == a) o.performer_ids
            then ok (to_proto lib o)
            else err (refusal permission_denied "forbidden"),
        t',
      )
  unfolding get_order App.get parsed_id guard map_err to_status ◌>>=◌
  get_order_lem c r_id a id o t t' is_actor parses found = ground arith
