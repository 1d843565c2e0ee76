-- ===== src/Bot/Clients.antt =====
-- What the bot's `Service` calls: the services behind their gRPC clients, Telegram, the store of
-- drafts, and Go's library where the source formats and reads dates. A call answers an error as its
-- text, and the state `S` is all of the world behind the calls.
use agency_bot.Base.{ℕ, ℤ, String, Option, List}
use agency_bot.Effects.{Done, M}
use agency_bot.Auth.{Claims}
use agency_bot.User.Transport.{UserMessage, CreateUserRequest}
use agency_bot.Order.Transport.{
  OrderMessage, CreateOrderRequest, UpdateOrderRequest, ListOrdersRequest,
  ListPerformerOrdersRequest,
}
use agency_bot.Bot.Drafts.{Draft}

-- A time is a number of nanoseconds, as in the services.
abbrev pub Time : Type 0
Time = ℕ

-- `Update` of internal/bot/telegram.go, with its message, if it has one.
pub record Message : Type 0 where
  pub text : String
  pub chat : ℤ
  pub sender : ℤ

pub record Update : Type 0 where
  pub id : ℤ
  pub message : Option Message

-- The calls of the service; those that need a token are given the claims that `auth` signs.
pub record Clients (S : Type 0) : Type 0 where
  pub authenticate : String → String → M S String (Option UserMessage)
  pub get_user_by_telegram_id : Claims → ℤ → M S String (Option UserMessage)
  pub list_users : Claims → ℤ → M S String (List UserMessage)
  pub create_user : Claims → CreateUserRequest → M S String Done
  pub bind_telegram : Claims → String → ℤ → M S String Done
  pub get_order : Claims → String → M S String (Option OrderMessage)
  -- The response always has its order, since the service gives it a random identifier.
  pub create_order : Claims → CreateOrderRequest → M S String OrderMessage
  pub update_order : Claims → UpdateOrderRequest → M S String Done
  pub list_performer_orders : Claims → ListPerformerOrdersRequest → M S String (List OrderMessage)
  pub list_orders : Claims → ListOrdersRequest → M S String (List OrderMessage)
  -- `TelegramClient.Send`, to a chat.
  pub send : ℤ → String → M S String Done
  -- `TelegramClient.Updates`, from an offset.
  pub updates : ℤ → M S String (List Update)
  -- `DraftStore`, by the Telegram account.
  pub load : ℤ → M S String (Option Draft)
  pub save : ℤ → Draft → M S String Done
  pub delete : ℤ → M S String Done
  -- `rand.Read` of so many bytes
  pub random_bytes : ℕ → M S String (List ℕ)

-- What the source uses of Go's library on texts: `time.Parse` and `Time.Format` with a layout,
-- `strings.ToLower`, the verb %q of `fmt`, and base64 for URLs without padding.
pub record GoText : Type 0 where
  pub parse_time : String → String → Option Time
  pub format_time : String → Time → String
  pub to_lower : String → String
  pub quoted : String → String
  pub encode_url : List ℕ → String
