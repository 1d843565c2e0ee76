-- ===== src/Tests/Tokens.antt =====
-- Witnesses about tokens and about the handlers of the user service, with a parser that knows one
-- token.
use agency_bot.Base.{
  pos, ◌≡◌, refl, String, Option, none, some, [], ◌∷◌, str_eq, if◌then◌else◌, Bool, arith,
}
use agency_bot.Effects.{M, pure, ◌>>=◌, ◌>>◌}
use agency_bot.Grpc.{Refusal}
use agency_bot.Auth.{
  Context, Claims, SigningMethod, hmac, other_method, Jwt, key_of, Call, interceptor, token_of,
}
use agency_bot.Auth.Tokens.{Admits, interceptor-Admits}
use agency_bot.User.Domain.{valid_permissions}
use agency_bot.User.Transport.{
  role_performer, CreateUserRequest, authenticate, get_user, get_user_by_telegram_id, list_users,
  create_user, update_user, set_user_permissions, disable_user, enable_user, change_password, rpc,
  to_proto, reset_password, bind_telegram, create_telegram_link, redeem_telegram_link,
}
use agency_bot.User.Transport.Errors.{FailsPublicly, handlers-FailsPublicly}
use agency_bot.User.Transport.Tokens.{any_token_lem}
use agency_bot.Order.Performers.{is_active_performer}
use agency_bot.Order.Performers.Lookup.{verdict, is_active_performer_lem}
use agency_bot.Tests.Sample.{externals, letters}
use agency_bot.Tests.Users.{service}

abbrev claims : Claims
claims = record { subject = "u"; role = "BOT"; permissions = [] }

abbrev method : String → SigningMethod
method token = if str_eq token "token" then hmac else other_method

abbrev answer : Option String → Option Claims
answer none = none
answer (some key) = some claims

pub parse-no_key :
    (key : SigningMethod → Option String) (token : String)
    → key (method token) ≡ none
    → answer (key (method token)) ≡ none
parse-no_key key token e = rw e refl

abbrev pub jwt : Jwt
jwt = record {
  method = method;
  parse = λ key token. answer (key (method token));
  parse-no_key = parse-no_key;
}

abbrev call : Call
call = record {
  full_method = "/user.v1.UserService/ResetPassword";
  authorization = some ("Bearer token" ∷ []);
}

abbrev is_login : String → Bool
is_login m = str_eq m "/user.v1.UserService/Authenticate"

abbrev who : Context → M (Unit {0}) Refusal Context
who actor = pure actor

interceptor-Admits_example :
    Admits jwt "secret" who is_login call (interceptor jwt "secret" who is_login call)
interceptor-Admits_example = interceptor-Admits jwt "secret" who is_login call

taken : jwt.parse (key_of "secret") (token_of "Bearer token") ≡ some claims
unfolding token_of
taken = refl

any_token_lem_example :
    (interceptor jwt "secret"
        (λ actor. reset_password externals service (letters 5) "a new secret")
        is_login
        call
        tt
      ≡ rpc (service.passwords.hash "a new secret" >>= λ h. service.store.password 5 h) tt)
    × (interceptor jwt "secret"
          (λ actor. set_user_permissions externals service (letters 5) [])
          is_login
          call
          tt
        ≡ (rpc (service.store.set_permissions 5 [] >> service.store.get 5) >>= λ u.
              pure (to_proto externals u))
            tt)
unfolding valid_permissions
any_token_lem_example =
    any_token_lem jwt "secret" is_login externals service call "Bearer token" claims (letters 5)
      "a new secret" 5 [] tt refl refl refl taken refl refl (omega arith) refl

abbrev request : CreateUserRequest
request = record {
  login = "boris";
  password = "secret of Boris";
  full_name = "Boris";
  role = role_performer;
}

handlers-FailsPublicly_example :
    FailsPublicly (authenticate externals service "anna" "secret")
    × FailsPublicly (get_user externals service "?")
    × FailsPublicly (get_user_by_telegram_id externals service (pos 55))
    × FailsPublicly (list_users externals service (pos 10) "anna")
    × FailsPublicly (create_user externals service request)
    × FailsPublicly (update_user externals service "?" "anna")
    × FailsPublicly (set_user_permissions externals service "?" [])
    × FailsPublicly (disable_user externals service "?")
    × FailsPublicly (enable_user externals service "?")
    × FailsPublicly (change_password externals service "?" "anna" "secret")
    × FailsPublicly (reset_password externals service "?" "anna")
    × FailsPublicly (bind_telegram externals service "?" (pos 55))
    × FailsPublicly (create_telegram_link externals service "?" 10)
    × FailsPublicly (redeem_telegram_link externals service "anna" (pos 55))
handlers-FailsPublicly_example =
    handlers-FailsPublicly externals service "?" "anna" "secret" 10 (pos 10) (pos 55) request []

is_active_performer_lem_example :
    is_active_performer externals (get_user externals service) 5 tt
    ≡ (verdict (service.store.get 5 tt).0, tt)
is_active_performer_lem_example = is_active_performer_lem externals service 5 tt
