-- ===== src/Auth.antt =====
-- internal/auth/interceptor.go: the interceptor that puts the actor of a request into its context.
-- The parser of tokens is that of github.com/golang-jwt/jwt.
pub mod Headers
pub mod Tokens
use agency_bot.Base.{
  ℕ, zero, suc, ◌≡◌, String, Bool, true, false, not, ◌&&◌, ◌||◌, Option, none, some, List, [], ◌∷◌,
  is_empty, starts_with, if◌then◌else◌,
}
use agency_bot.Effects.{M, throw}
use agency_bot.Grpc.{unauthenticated, Refusal, refusal}

-- `Actor`
pub record Actor : Type 0 where
  pub user_id : String
  pub role : String
  pub permissions : List String

-- What a handler reads from its context: the actor, if there is one.
abbrev pub Context : Type 0
Context = Option Actor

-- `Claims`, with the subject of the registered claims.
pub record Claims : Type 0 where
  pub subject : String
  pub role : String
  pub permissions : List String

-- The method by which a token says that it is signed: `*jwt.SigningMethodHMAC`, or another.
pub data SigningMethod : Type 0 where
  hmac other_method : SigningMethod

-- `jwt.ParseWithClaims`, which asks the key function for the key of the token's method and refuses a
-- token for which there is none.
pub record Jwt : Type 0 where
  pub method : String → SigningMethod
  pub parse : (SigningMethod → Option String) → String → Option Claims
  pub parse-no_key :
      (key : SigningMethod → Option String) (token : String)
      → key (method token) ≡ none
      → parse key token ≡ none

-- The key function of the interceptor.
abbrev pub key_of : String → SigningMethod → Option String
key_of secret hmac = some secret
key_of secret other_method = none

-- A call as the interceptor sees it: the full name of its method, and the values of the header
-- `authorization`, if the call has metadata.
pub record Call : Type 0 where
  pub full_method : String
  pub authorization : Option (List String)

-- A text without its first characters.
abbrev drop_text : ℕ → String → String
drop_text zero s = s
drop_text (suc n) String.[] = String.[]
drop_text (suc n) (String.◌∷◌ c s) = drop_text n s

abbrev pub bearer : String
bearer = "Bearer "

-- `strings.TrimPrefix(value, "Bearer ")`, for a value with the prefix.
unfoldable pub token_of : String → String
token_of value = drop_text 7 value

abbrev pub actor_of : Claims → Actor
actor_of c = record { user_id = c.subject; role = c.role; permissions = c.permissions }

module _ {S A : Type 0} (handler : Context → M S Refusal A) where
  -- After the token is parsed: an error, or no subject.
  unfoldable pub with_claims : Option Claims → M S Refusal A
  with_claims none = throw (refusal unauthenticated "invalid token")
  with_claims (some c) =
      if is_empty c.subject
      then throw (refusal unauthenticated "invalid token")
      else handler (some (actor_of c))

module _ {S A : Type 0} (jwt : Jwt) (secret : String) (handler : Context → M S Refusal A) where
  -- The values of the header: there has to be one, with the prefix.
  unfoldable pub with_header : List String → M S Refusal A
  with_header (value ∷ []) =
      if not (starts_with value bearer)
      then throw (refusal unauthenticated "bearer token is required")
      else with_claims handler (jwt.parse (key_of secret) (token_of value))
  with_header _ = throw (refusal unauthenticated "bearer token is required")

  -- `UnaryInterceptor`. A context that has not passed it has no actor.
  unfoldable pub interceptor : (String → Bool) → Call → M S Refusal A
  interceptor is_public call =
      if is_public call.full_method then handler none else elim call.authorization [
        | none ↦ throw (refusal unauthenticated "authorization metadata is required")
        | some values ↦ with_header values
      ]
