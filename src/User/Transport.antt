-- ===== src/User/Transport.antt =====
-- internal/user/transport/grpc.go: the methods of `Server`, over the service. None of them reads the
-- actor of the context. A response that comes with an error is not sent by gRPC, so a handler answers
-- a response or a refusal; what it logs is left out.
pub mod Errors
pub mod Tokens
use agency_bot.Base.{
  ℕ, ◌*◌, ℤ, pos, ◌==◌, String, Bool, true, false, Option, none, some, List, map, last?,
  if◌then◌else◌,
}
use agency_bot.Effects.{
  Err, not_found, forbidden, unauthorized, validation, conflict, other, err_text, Done, M, ◌>>=◌,
  ◌>>◌, pure, map_err,
}
use agency_bot.Externals.{Uuid, nil_uuid, Externals}
use agency_bot.Grpc.{
  Refusal, refusal, not_found_code, unauthenticated, permission_denied, invalid_argument,
  already_exists, internal,
}
use agency_bot.User.App
use agency_bot.User.App.{Service}
use agency_bot.User.Domain.{Role, admin, performer, is_admin, User}

-- `userv1.Role`
pub data RoleMessage : Type 0 where
  role_unspecified role_admin role_performer : RoleMessage

-- `userv1.User`
pub record UserMessage : Type 0 where
  pub id : String
  pub login : String
  pub full_name : String
  pub role : RoleMessage
  pub is_active : Bool
  pub telegram_id : Option ℤ
  pub permissions : List String
  pub created_at : ℕ
  pub updated_at : ℕ

pub record CreateUserRequest : Type 0 where
  pub login : String
  pub password : String
  pub full_name : String
  pub role : RoleMessage

pub record ListUsersResponse : Type 0 where
  pub users : List (Option UserMessage)
  pub next_page_token : String

pub record CreateTelegramLinkResponse : Type 0 where
  pub token : String
  pub expires_at : ℕ

-- `grpcErr`
unfoldable pub to_status : Err → Refusal
to_status not_found = refusal not_found_code (err_text not_found)
to_status unauthorized = refusal unauthenticated (err_text unauthorized)
to_status forbidden = refusal permission_denied (err_text forbidden)
to_status validation = refusal invalid_argument (err_text validation)
to_status conflict = refusal already_exists (err_text conflict)
to_status (other s) = refusal internal "internal error"

-- The role in `CreateUser`.
unfoldable pub requested_role : RoleMessage → Role
requested_role role_admin = admin
requested_role role_unspecified = performer
requested_role role_performer = performer

-- The call of the service in a handler, with its error as a status.
abbrev pub rpc : {S A : Type 0} → M S Err A → M S Refusal A
rpc m = map_err to_status m

module _ (lib : Externals) where
  -- `parseID`
  unfoldable pub parse_id : String → Uuid
  parse_id v = elim (lib.parse v) [ none ↦ nil_uuid | some id ↦ id ]

  -- `toProto`
  unfoldable pub to_proto : User → Option UserMessage
  to_proto u =
      if u.id == nil_uuid
      then none
      else some (record {
        id = lib.to_string u.id;
        login = u.login;
        full_name = u.full_name;
        role = if is_admin u.role then role_admin else role_performer;
        is_active = u.is_active;
        telegram_id = u.telegram_id;
        permissions = u.permissions;
        created_at = u.created_at;
        updated_at = u.updated_at;
      })

  -- The identifier of the last user, as the token of the next page.
  abbrev pub next_token : Option User → String
  next_token none = ""
  next_token (some u) = lib.to_string u.id

module _ {S : Type 0} (lib : Externals) (app : Service S) where
  -- A response with the user that the service answers.
  abbrev pub user_response : M S Err User → M S Refusal (Option UserMessage)
  user_response m = rpc m >>= λ u. pure (to_proto lib u)

  unfoldable pub authenticate : String → String → M S Refusal (Option UserMessage)
  authenticate login password = user_response (App.authenticate app login password)

  unfoldable pub get_user : String → M S Refusal (Option UserMessage)
  get_user id = user_response (App.get app (parse_id lib id))

  unfoldable pub get_user_by_telegram_id : ℤ → M S Refusal (Option UserMessage)
  get_user_by_telegram_id telegram = user_response (App.by_telegram app telegram)

  unfoldable pub list_users : ℤ → String → M S Refusal ListUsersResponse
  list_users page_size page_token = do
    users ← rpc (App.list app page_size page_token)
    pure (record {
      users = map (to_proto lib) users;
      next_page_token = next_token lib (last? users);
    })

  unfoldable pub create_user : CreateUserRequest → M S Refusal (Option UserMessage)
  create_user r =
      user_response (App.create app r.login r.password r.full_name (requested_role r.role))

  unfoldable pub update_user : String → String → M S Refusal (Option UserMessage)
  update_user id full_name = user_response (App.update_name app (parse_id lib id) full_name)

  unfoldable pub set_user_permissions : String → List String → M S Refusal (Option UserMessage)
  set_user_permissions id ps = user_response (App.permissions app (parse_id lib id) ps)

  unfoldable pub disable_user : String → M S Refusal (Option UserMessage)
  disable_user id = user_response (App.active app (parse_id lib id) false)

  unfoldable pub enable_user : String → M S Refusal (Option UserMessage)
  enable_user id = user_response (App.active app (parse_id lib id) true)

  unfoldable pub change_password : String → String → String → M S Refusal Done
  change_password id old new = rpc (App.change_password app (parse_id lib id) old new)

  unfoldable pub reset_password : String → String → M S Refusal Done
  reset_password id new = rpc (App.reset app (parse_id lib id) new)

  unfoldable pub bind_telegram : String → ℤ → M S Refusal (Option UserMessage)
  bind_telegram id telegram = user_response (App.bind_telegram app (parse_id lib id) telegram)

  -- The seconds of the request are a uint32, so that their product fits a `time.Duration`.
  unfoldable pub create_telegram_link : String → ℕ → M S Refusal CreateTelegramLinkResponse
  create_telegram_link user_id expires_in_seconds = do
    link ← rpc (
        App.create_telegram_link app (parse_id lib user_id) (pos (expires_in_seconds * 1000000000)))
    pure (record { token = link.0; expires_at = link.1 })

  unfoldable pub redeem_telegram_link : String → ℤ → M S Refusal (Option UserMessage)
  redeem_telegram_link token telegram = user_response (App.redeem_telegram_link app token telegram)
