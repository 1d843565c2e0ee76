-- ===== src/Commands/OrderService/Access.antt =====
-- What reaches the handlers of the order service.
use agency_bot.Base.{
  ◌≡◌, refl, String, Bool, true, false, Option, none, some, List, any, str_eq, ◌⊎◌, inl, inr, arith,
}
use agency_bot.Effects.{Result, M, ◌>>=◌, pure}
use agency_bot.Effects.Calm.{bind-err}
use agency_bot.Externals.{Externals}
use agency_bot.Auth.{Claims, Jwt, actor_of}
use agency_bot.Auth.Tokens.{Admits, by_method, by_token, refused}
use agency_bot.Grpc.{Refusal}
use agency_bot.Commands.OrderService
use agency_bot.Commands.OrderService.{
  OrderCall, OrderReply, create_order_call, get_order_call, update_order_call,
  change_order_status_call, assign_performer_call, unassign_performer_call, list_orders_call,
  list_performer_orders_call, get_order_history_call,
}
use agency_bot.Order.Transport.{has}
use agency_bot.Order.Transport.Access.{Guarded, permitted, denied, require-Guarded}
use agency_bot.Order.Transport.Handlers.{
  Server, create_order, change_order_status, assign, update_order, list_orders, get_order_history,
}
use agency_bot.Commands.Signed.{IsSigned, IsRefused}

-- The permission that a call of the order service needs, if it needs one.
abbrev pub needed : OrderCall → Option String
needed (create_order_call r) = some "ORDER_CREATE"
needed (get_order_call id) = none
needed (update_order_call r) = some "ORDER_UPDATE"
needed (change_order_status_call r) = some "ORDER_CHANGE_STATUS"
needed (assign_performer_call r) = some "ORDER_UPDATE"
needed (unassign_performer_call r) = some "ORDER_UPDATE"
needed (list_orders_call r) = some "ORDER_READ_ALL"
needed (list_performer_orders_call r) = none
needed (get_order_history_call id) = some "ORDER_HISTORY_READ"

abbrev pub holds : Claims → Option String → Bool
holds c none = true
holds c (some p) = any (λ x. str_eq x p) c.permissions

module _ {S : Type 0} (lib : Externals) (s : Server S) where
  reply-Guarded :
      {A B : Type 0} (c : Claims) (p : String) (m : M S Refusal A) (f : A → B) (t : S)
      → Guarded (some (actor_of c)) p m
      → (holds c (some p) ≡ true) ⊎ IsRefused t ((m >>= λ a. pure (f a)) t)
  unfolding has
  reply-Guarded c p m f t (permitted h) = inl h
  reply-Guarded c p m f t (denied text h) = inr (_, bind-err m (λ a. pure (f a)) t t _ (h t))

  -- A handler runs for an actor with the permission, or it refuses.
  handle-Guarded :
      (call : OrderCall) (c : Claims) (t : S)
      → (holds c (needed call) ≡ true)
        ⊎ IsRefused t (OrderService.handle lib s call (some (actor_of c)) t)
  unfolding OrderService.handle create_order change_order_status assign update_order list_orders
      get_order_history
  handle-Guarded (create_order_call r) c t = reply-Guarded c _ _ _ t (require-Guarded _ _ _ _)
  handle-Guarded (get_order_call id) c t = inl refl
  handle-Guarded (update_order_call r) c t = reply-Guarded c _ _ _ t (require-Guarded _ _ _ _)
  handle-Guarded (change_order_status_call r) c t =
      reply-Guarded c _ _ _ t (require-Guarded _ _ _ _)
  handle-Guarded (assign_performer_call r) c t = reply-Guarded c _ _ _ t (require-Guarded _ _ _ _)
  handle-Guarded (unassign_performer_call r) c t = reply-Guarded c _ _ _ t (require-Guarded _ _ _ _)
  handle-Guarded (list_orders_call r) c t = reply-Guarded c _ _ _ t (require-Guarded _ _ _ _)
  handle-Guarded (list_performer_orders_call r) c t = inl refl
  handle-Guarded (get_order_history_call id) c t = reply-Guarded c _ _ _ t (require-Guarded _ _ _ _)

  -- What a call of the order service comes to.
  abbrev pub OrderAccess :
      Jwt → String → Option (List String) → OrderCall → S → Result Refusal OrderReply × S → Type 0
  OrderAccess jwt secret authorization call t r =
      IsRefused t r
      ⊎ ((c : Claims) × IsSigned jwt secret authorization c
          × (holds c (needed call) ≡ true)
          × (r ≡ OrderService.handle lib s call (some (actor_of c)) t))

  module _ (jwt : Jwt) (secret : String) (authorization : Option (List String)) (call : OrderCall)
      (t : S) where
    pub admitted-OrderAccess :
        (m : M S Refusal OrderReply)
        → Admits jwt secret
            (OrderService.handle lib s call)
            (λ m. false)
            (record { full_method = OrderService.full_method call; authorization = authorization })
            m
        → OrderAccess jwt secret authorization call t (m t)
    admitted-OrderAccess m (by_method e) = absurd (ground (arith, e))
    admitted-OrderAccess m (by_token value c header prefix method parsed named) =
        elim (handle-Guarded call c t) [
          | inl h ↦ inr (c, (value, header, prefix, method, parsed, named), h, refl)
          | inr denial ↦ inl denial
        ]
    admitted-OrderAccess m (refused text) = inl (_, refl)
