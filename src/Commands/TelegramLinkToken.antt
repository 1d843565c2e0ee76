-- ===== src/Commands/TelegramLinkToken.antt =====
-- cmd/telegram-link-token/main.go: the command that makes a code for a Telegram account, for a user
-- who is there or for a new administrator. `log.Fatal` is an error with its text; what is printed is
-- the result.
pub mod Serving
pub mod Calls
pub mod Steps
pub mod Journey
use agency_bot.Base.{
  ℕ, ◌*◌, ◌<◌, ◌^◌, ℤ, pos, ◌≡◌, String, append, Bool, not, ◌&&◌, ◌||◌, Option, none, some, List,
  [], ◌∷◌, is_empty, if◌then◌else◌,
}
use agency_bot.Effects.{Done, M, ◌>>=◌, ◌>>◌, pure, throw, guard}
use agency_bot.Externals.{Uuid, Externals}
use agency_bot.Auth.{bearer, Claims, SigningMethod, hmac, Jwt, key_of}
use agency_bot.Config
use agency_bot.Config.{Environment}
use agency_bot.User.Transport.{
  UserMessage, CreateUserRequest, CreateTelegramLinkResponse, role_admin,
}

-- The flags, after `flag.Parse`; the duration is in nanoseconds.
pub record Flags : Type 0 where
  pub user_id : String
  pub login : String
  pub full_name : String
  pub password : String
  pub expires_in : ℤ

-- The client of the user service, whose calls are given the header `authorization`; an error is its
-- text.
pub record UserClient (S : Type 0) : Type 0 where
  pub create_user : String → CreateUserRequest → M S String (Option UserMessage)
  pub create_telegram_link : String → String → ℕ → M S String CreateTelegramLinkResponse

abbrev pub cli_claims : Claims
cli_claims = record { subject = "telegram-link-cli"; role = "ADMIN"; permissions = [] }

-- What the command uses of other code: `SignedString` with HS256, whose token the parser takes for
-- the claims before it expires, and `uint32(d.Seconds())`, which goes through a float64 and is exact on
-- the whole seconds of a uint32.
pub record Tools : Type 0 where
  pub jwt : Jwt
  pub sign : String → Claims → String
  pub parse-sign :
      (secret : String) → jwt.parse (key_of secret) (sign secret cli_claims) ≡ some cli_claims
  pub seconds : ℤ → ℕ
  pub seconds-whole : (n : ℕ) → n < 2 ^ 32 → seconds (pos (n * 1000000000)) ≡ n

-- The header with the command's own token, for the secret.
unfoldable pub header_of : Tools → String → String
header_of tools secret = append bearer (tools.sign secret cli_claims)

abbrev nil_dereference : String
nil_dereference = "runtime error: invalid memory address or nil pointer dereference"

module _ {S : Type 0} (lib : Externals) (tools : Tools) (client : UserClient S) where
  -- The identifier in the response to `CreateUser`.
  unfoldable pub created_id : Option UserMessage → M S String Uuid
  created_id none = throw nil_dereference
  created_id (some m) = elim (lib.parse m.id) [ none ↦ throw "invalid UUID" | some id ↦ pure id ]

  -- The user whom the code is for.
  unfoldable pub user_for : String → Flags → M S String Uuid
  user_for header f =
      if not (is_empty f.login)
      then (do
        guard (not (is_empty f.full_name || is_empty f.password))
            "-full-name and -password are required with -create-admin"
        created ← client.create_user header (record {
          login = f.login;
          password = f.password;
          full_name = f.full_name;
          role = role_admin;
        })
        created_id created)
      else elim (lib.parse f.user_id) [
        | none ↦ throw "-user-id must be a valid UUID"
        | some id ↦ pure id
      ]

  -- `grpc.NewClient`, with its error, if there is one.
  unfoldable pub connect : Option String → M S String Done
  connect none = pure tt
  connect (some e) = throw e

  -- `main`
  unfoldable pub main : Environment → Option String → Flags → M S String String
  main getenv connection f = do
    guard (not (not (is_empty f.user_id) && not (is_empty f.login)))
        "use either -user-id or -create-admin"
    guard (not (is_empty (Config.bot getenv).jwt_secret)) "JWT_SECRET is required"
    connect connection
    id ← user_for (header_of tools (Config.bot getenv).jwt_secret) f
    response ←
        client.create_telegram_link (header_of tools (Config.bot getenv).jwt_secret)
          (lib.to_string id) (tools.seconds f.expires_in)
    pure response.token
