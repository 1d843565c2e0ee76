-- ===== src/User/Transport/Tokens.antt =====
-- The user service behind the interceptor of internal/auth.
use agency_bot.Base.{
  ◌≡◌, ◌≤◌, ltb, String, Bool, true, false, some, List, [], ◌∷◌, is_empty, starts_with, arith,
}
use agency_bot.Effects.{◌>>=◌, ◌>>◌, pure, guard, map_err}
use agency_bot.Externals.{Uuid, Externals}
use agency_bot.Auth.{
  Claims, Jwt, key_of, Call, bearer, token_of, with_claims, with_header, interceptor,
}
use agency_bot.User.App
use agency_bot.User.App.{Service}
use agency_bot.User.Domain.{valid_permissions, byte_length}
use agency_bot.User.Transport.{reset_password, set_user_permissions, parse_id, rpc, to_proto}

module _ {S : Type 0} (jwt : Jwt) (secret : String) (is_public : String → Bool) (lib : Externals)
    (app : Service S) where
  -- Any token with a subject, whatever its role and permissions and whoever the subject is, lets its
  -- bearer reset the password of any user and set anybody's permissions. A password of at least twelve
  -- bytes is hashed, and the store gets the hash for the user that the request names; permissions that
  -- the program knows are set by the store for that user, who is read again for the answer. Only the
  -- hash and the store can refuse these calls.
  pub any_token_lem :
      (call : Call) (value : String) (c : Claims) (id password : String) (user : Uuid)
      (ps : List String) (t : S)
      → is_public call.full_method ≡ false
      → call.authorization ≡ some (value ∷ [])
      → starts_with value bearer ≡ true
      → jwt.parse (key_of secret) (token_of value) ≡ some c
      → is_empty c.subject ≡ false
      → lib.parse id ≡ some user
      → 12 ≤ byte_length password
      → valid_permissions ps ≡ true
      → (interceptor jwt secret (λ actor. reset_password lib app id password) is_public call t
          ≡ rpc (app.passwords.hash password >>= λ h. app.store.password user h) t)
        × (interceptor jwt secret (λ actor. set_user_permissions lib app id ps) is_public call t
            ≡ (rpc (app.store.set_permissions user ps >> app.store.get user) >>= λ u.
                  pure (to_proto lib u))
                t)
  unfolding interceptor with_header with_claims reset_password App.reset set_user_permissions
      App.permissions parse_id guard ◌>>=◌ map_err
  any_token_lem call value c id password user ps t guarded header prefix parsed named known long
        valid =
      let fits : ltb (byte_length password) 12 ≡ false = ground (arith, long) in
      (ground arith, ground arith)
