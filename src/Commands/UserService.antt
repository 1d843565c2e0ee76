-- ===== src/Commands/UserService.antt =====
-- cmd/user-service/main.go: the user service over its repository and behind the authentication
-- interceptor. The metrics interceptor in front of it measures a call and changes nothing of it;
-- `UserCall` and its full names are those of the generated server (proto/user/v1/user.proto).
pub mod Enrolment
pub mod Linking
pub mod Reading
pub mod Access
use agency_bot.Base.{ℕ, ℤ, String, Bool, true, false, ◌||◌, Option, none, some, List, str_eq}
use agency_bot.Effects.{Err, Done, M, ◌>>=◌, ◌>>◌, pure, World, call, advance, ok, new_uuid, now}
use agency_bot.Externals.{Externals}
use agency_bot.Auth.{Jwt, interceptor}
use agency_bot.Config
use agency_bot.Config.{Environment}
use agency_bot.Grpc.{Refusal}
use agency_bot.Commands.Start.{Outcome, runs, step}
use agency_bot.User.App.{Service}
use agency_bot.User.Password.{Bytes, Argon, passwords}
use agency_bot.User.Repository.{repository}
use agency_bot.User.Tables.{Db}
use agency_bot.User.Transport.{
  UserMessage, CreateUserRequest, ListUsersResponse, CreateTelegramLinkResponse, authenticate,
  get_user, get_user_by_telegram_id, list_users, create_user, update_user, set_user_permissions,
  disable_user, enable_user, change_password, reset_password, bind_telegram, create_telegram_link,
  redeem_telegram_link,
}

-- What the process takes from Go's library beside its clock and its identifiers: the random bytes of
-- each call, the encoding of bytes as a token, and SHA-256.
pub record Platform : Type 0 where
  pub lib : Externals
  pub argon : Argon
  pub random : ℕ → Bytes
  pub token_text : Bytes → String
  pub sha256 : String → String

module _ {X : Type 0} (p : Platform) where
  -- `rand.Read`
  unfoldable pub read_random : M (World Db X) Err Bytes
  read_random = call >> λ w. (ok (p.random w.step), advance w)

  -- `app.New(repository.New(pool))`
  abbrev pub service : Service (World Db X)
  service = record {
    store = repository p.lib;
    passwords = passwords p.argon read_random;
    new_token = read_random >>= λ b w. (ok (p.token_text b), w);
    sha256 = p.sha256;
    new_uuid = new_uuid;
    now = now;
  }

-- A call of a client, by its method.
pub data UserCall : Type 0 where
  authenticate_call : String → String → UserCall
  get_user_call : String → UserCall
  get_user_by_telegram_id_call : ℤ → UserCall
  list_users_call : ℤ → String → UserCall
  create_user_call : CreateUserRequest → UserCall
  update_user_call : String → String → UserCall
  set_user_permissions_call : String → List String → UserCall
  disable_user_call enable_user_call : String → UserCall
  change_password_call : String → String → String → UserCall
  reset_password_call : String → String → UserCall
  bind_telegram_call : String → ℤ → UserCall
  create_telegram_link_call : String → ℕ → UserCall
  redeem_telegram_link_call : String → ℤ → UserCall

pub data UserReply : Type 0 where
  user_reply : Option UserMessage → UserReply
  users_reply : ListUsersResponse → UserReply
  link_reply : CreateTelegramLinkResponse → UserReply
  empty_reply : UserReply

abbrev pub full_method : UserCall → String
full_method (authenticate_call l p) = "/user.v1.UserService/Authenticate"
full_method (get_user_call id) = "/user.v1.UserService/GetUser"
full_method (get_user_by_telegram_id_call t) = "/user.v1.UserService/GetUserByTelegramID"
full_method (list_users_call n a) = "/user.v1.UserService/ListUsers"
full_method (create_user_call r) = "/user.v1.UserService/CreateUser"
full_method (update_user_call id n) = "/user.v1.UserService/UpdateUser"
full_method (set_user_permissions_call id ps) = "/user.v1.UserService/SetUserPermissions"
full_method (disable_user_call id) = "/user.v1.UserService/DisableUser"
full_method (enable_user_call id) = "/user.v1.UserService/EnableUser"
full_method (change_password_call id o n) = "/user.v1.UserService/ChangePassword"
full_method (reset_password_call id n) = "/user.v1.UserService/ResetPassword"
full_method (bind_telegram_call id t) = "/user.v1.UserService/BindTelegram"
full_method (create_telegram_link_call id n) = "/user.v1.UserService/CreateTelegramLink"
full_method (redeem_telegram_link_call k t) = "/user.v1.UserService/RedeemTelegramLink"

-- The methods that the interceptor is given as public.
abbrev pub public_methods : String → Bool
public_methods m =
    str_eq m "/user.v1.UserService/Authenticate"
    || str_eq m "/user.v1.UserService/RedeemTelegramLink"

-- What the process serves with.
pub record Wiring : Type 0 where
  pub config : Config.UserService
  pub is_public : String → Bool

-- The errors of the calls with which it starts.
pub record Startup : Type 0 where
  pub pool : Option String
  pub ping : Option String
  pub listen : Option String

-- `main`, up to the server.
unfoldable pub start : Environment → Startup → Outcome Wiring
start getenv s = step s.pool "database connection failed" (
    step s.ping "database ping failed" (
      step s.listen "grpc listen failed"
        (runs (record { config = Config.user getenv; is_public = public_methods }))))

module _ {S : Type 0} (lib : Externals) (app : Service S) where
  -- The method of the registered server.
  unfoldable pub handle : UserCall → M S Refusal UserReply
  handle (authenticate_call l p) = authenticate lib app l p >>= λ u. pure (user_reply u)
  handle (get_user_call id) = get_user lib app id >>= λ u. pure (user_reply u)
  handle (get_user_by_telegram_id_call t) =
      get_user_by_telegram_id lib app t >>= λ u. pure (user_reply u)
  handle (list_users_call n a) = list_users lib app n a >>= λ us. pure (users_reply us)
  handle (create_user_call r) = create_user lib app r >>= λ u. pure (user_reply u)
  handle (update_user_call id n) = update_user lib app id n >>= λ u. pure (user_reply u)
  handle (set_user_permissions_call id ps) =
      set_user_permissions lib app id ps >>= λ u. pure (user_reply u)
  handle (disable_user_call id) = disable_user lib app id >>= λ u. pure (user_reply u)
  handle (enable_user_call id) = enable_user lib app id >>= λ u. pure (user_reply u)
  handle (change_password_call id o n) = change_password lib app id o n >>= λ _. pure empty_reply
  handle (reset_password_call id n) = reset_password lib app id n >>= λ _. pure empty_reply
  handle (bind_telegram_call id t) = bind_telegram lib app id t >>= λ u. pure (user_reply u)
  handle (create_telegram_link_call id n) =
      create_telegram_link lib app id n >>= λ l. pure (link_reply l)
  handle (redeem_telegram_link_call k t) =
      redeem_telegram_link lib app k t >>= λ u. pure (user_reply u)

  -- A call with its header `authorization`.
  unfoldable pub serve : Jwt → Wiring → Option (List String) → UserCall → M S Refusal UserReply
  serve jwt w authorization c =
      interceptor jwt w.config.jwt_secret (λ actor. handle c) w.is_public
        (record { full_method = full_method c; authorization = authorization })
