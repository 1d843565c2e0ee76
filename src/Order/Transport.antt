-- ===== src/Order/Transport.antt =====
-- internal/order/transport/grpc.go: the gRPC handlers, over the service and over the actor that the
-- authentication interceptor (internal/auth) has put into the context of the request. A request
-- carries the time that `AsTime` makes of its timestamp, and a response the times themselves.
pub mod Handlers
pub mod Access
use agency_bot.Base.{
  ℕ, ℤ, ltb, ◌==◌, String, Bool, true, false, not, ◌&&◌, ◌||◌, Option, none, some, List, [], ◌∷◌,
  map, keep, any, last?, str_eq, is_empty, if◌then◌else◌, pos,
}
use agency_bot.Effects.{
  Err, not_found, forbidden, unauthorized, validation, conflict, other, err_text, Result, ok, err,
  Done, M, ◌>>=◌, ◌>>◌, pure, throw, guard, map_err,
}
use agency_bot.Externals.{Uuid, nil_uuid, Externals}
use agency_bot.Auth.{Context}
use agency_bot.Grpc.{
  Refusal, refusal, invalid_argument, not_found_code, permission_denied, unauthenticated, aborted,
  internal,
}
use agency_bot.Order.App
use agency_bot.Order.App.{Service}
use agency_bot.Order.Domain.{
  Status, planned, completed, cancelled, unknown, is_planned, is_completed, is_cancelled, Time,
  Order, Change, Changes, History,
}

-- `err`
unfoldable pub to_status : Err → Refusal
to_status not_found = refusal not_found_code (err_text not_found)
to_status forbidden = refusal permission_denied (err_text forbidden)
to_status validation = refusal invalid_argument (err_text validation)
to_status conflict = refusal aborted (err_text conflict)
to_status unauthorized = refusal internal "internal error"
to_status (other s) = refusal internal "internal error"

-- `has`
unfoldable pub has : Context → String → Bool
has none p = false
has (some a) p = any (λ x. str_eq x p) a.permissions

-- `orderv1.Status`
pub data StatusMessage : Type 0 where
  status_unspecified status_planned status_completed status_cancelled : StatusMessage

-- `orderv1.Order`
pub record OrderMessage : Type 0 where
  pub id : String
  pub order_date : Time
  pub location : String
  pub amount : String
  pub customer_name : String
  pub customer_phone : String
  pub customer_contact : String
  pub comment : String
  pub status : StatusMessage
  pub created_by : String
  pub updated_by : String
  pub version : ℤ
  pub performer_ids : List String
  pub created_at : Time
  pub updated_at : Time

-- The status in `toProto`.
unfoldable pub status_message : Status → StatusMessage
status_message s =
    if is_cancelled s
    then status_cancelled
    else (if is_completed s then status_completed else status_planned)

-- The map `m` of `ChangeOrderStatus`; a missing key gives the empty string.
unfoldable pub requested_status : StatusMessage → Status
requested_status status_completed = completed
requested_status status_cancelled = cancelled
requested_status status_planned = unknown ""
requested_status status_unspecified = unknown ""

-- The fields that a request to create or to update an order has.
pub record OrderFields : Type 0 where
  pub order_date : Time
  pub location : String
  pub amount : String
  pub customer_name : String
  pub customer_phone : String
  pub customer_contact : String
  pub comment : String

pub record CreateOrderRequest : Type 0 where
  pub fields : OrderFields
  pub performer_ids : List String

pub record UpdateOrderRequest : Type 0 where
  pub id : String
  pub expected_version : ℤ
  pub fields : OrderFields

pub record ChangeOrderStatusRequest : Type 0 where
  pub id : String
  pub status : StatusMessage
  pub expected_version : ℤ

pub record PerformerRequest : Type 0 where
  pub order_id : String
  pub performer_id : String

pub record ListOrdersRequest : Type 0 where
  pub page_size : ℤ
  pub page_token : String

pub record ListPerformerOrdersRequest : Type 0 where
  pub performer_id : String
  pub page_size : ℤ
  pub page_token : String

pub record ListOrdersResponse : Type 0 where
  pub orders : List (Option OrderMessage)
  pub next_page_token : String

pub record OrderChange : Type 0 where
  pub field : String
  pub old_value : String
  pub new_value : String

pub record HistoryItem : Type 0 where
  pub id : String
  pub order_id : String
  pub actor_user_id : String
  pub action : String
  pub changes : List OrderChange
  pub created_at : Time

-- The `domain.Order` of a request; what the handler does not set has its zero value.
abbrev pub order_of : OrderFields → Order
order_of f = record {
  id = nil_uuid;
  order_date = f.order_date;
  location = f.location;
  amount = f.amount;
  customer_name = f.customer_name;
  customer_phone = f.customer_phone;
  customer_contact = f.customer_contact;
  comment = f.comment;
  status = unknown "";
  created_by = nil_uuid;
  updated_by = nil_uuid;
  version = pos 0;
  performer_ids = [];
  created_at = 0;
  updated_at = 0;
}

-- An identifier that does not parse is an invalid argument.
unfoldable pub parsed_id : {S : Type 0} → Option Uuid → String → M S Refusal Uuid
parsed_id none m = throw (refusal invalid_argument m)
parsed_id (some u) m = pure u

-- `require`
unfoldable pub require : {S : Type 0} → Context → String → String → M S Refusal Done
require c p m = guard (has c p) (refusal permission_denied m)

module _ (lib : Externals) where
  -- `toProto`
  unfoldable pub to_proto : Order → Option OrderMessage
  to_proto o =
      if o.id == nil_uuid
      then none
      else some (record {
        id = lib.to_string o.id;
        order_date = o.order_date;
        location = o.location;
        amount = o.amount;
        customer_name = o.customer_name;
        customer_phone = o.customer_phone;
        customer_contact = o.customer_contact;
        comment = o.comment;
        status = status_message o.status;
        created_by = lib.to_string o.created_by;
        updated_by = lib.to_string o.updated_by;
        version = o.version;
        performer_ids = map lib.to_string o.performer_ids;
        created_at = o.created_at;
        updated_at = o.updated_at;
      })

  -- An entry of `GetOrderHistory`.
  unfoldable pub history_item : History → HistoryItem
  history_item h = record {
    id = lib.to_string h.id;
    order_id = lib.to_string h.order_id;
    actor_user_id = lib.to_string h.actor_id;
    action = h.action;
    changes =
        map (λ c. record { field = c.0; old_value = c.1.old_value; new_value = c.1.new_value })
          h.changes;
    created_at = h.created_at;
  }

  -- `actor`
  unfoldable pub actor : {S : Type 0} → Context → M S Refusal Uuid
  actor none = throw (refusal unauthenticated "actor absent")
  actor (some a) = elim (lib.parse a.user_id) [
    | none ↦ throw (refusal unauthenticated "invalid actor")
    | some id ↦ pure id
  ]

  -- The loop of `CreateOrder` over the identifiers of the performers.
  unfoldable pub performer_ids : {S : Type 0} → List String → M S Refusal (List Uuid)
  performer_ids [] = pure []
  performer_ids (x ∷ xs) = do
    id ← parsed_id (lib.parse x) "invalid performer id"
    ids ← performer_ids xs
    pure (id ∷ ids)
