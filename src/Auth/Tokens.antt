-- ===== src/Auth/Tokens.antt =====
-- Whom the interceptor lets through.
use agency_bot.Base.{
  ◌≡◌, refl, ap, String, Bool, true, false, Option, none, some, List, [], ◌∷◌, is_empty,
  starts_with, arith, Bool-cases, inl, inr,
}
use agency_bot.Effects.{M, throw}
use agency_bot.Grpc.{unauthenticated, Refusal, refusal}
use agency_bot.Auth.{
  Context, Claims, hmac, SigningMethod, other_method, Jwt, key_of, Call, bearer, token_of, actor_of,
  with_claims, with_header, interceptor,
}

-- How a call passes the interceptor, or does not.
pub data Admits {S A : Type 0} (jwt : Jwt) (secret : String) (handler : Context → M S Refusal A)
    (is_public : String → Bool) (call : Call) : M S Refusal A → Type 0 where
  -- The method is public, and the handler has no actor.
  by_method :
      is_public call.full_method ≡ true → Admits jwt secret handler is_public call (handler none)
  -- The header has one token, which is signed by HMAC with the secret and names a subject, who is
  -- the actor.
  by_token :
      (value : String) (c : Claims)
      → call.authorization ≡ some (value ∷ [])
      → starts_with value bearer ≡ true
      → jwt.method (token_of value) ≡ hmac
      → jwt.parse (key_of secret) (token_of value) ≡ some c
      → is_empty c.subject ≡ false
      → Admits jwt secret handler is_public call (handler (some (actor_of c)))
  -- The handler does not run.
  refused :
      (m : String) → Admits jwt secret handler is_public call (throw (refusal unauthenticated m))

module _ {S A : Type 0} (jwt : Jwt) (secret : String) (handler : Context → M S Refusal A)
    (is_public : String → Bool) (call : Call) where
  signed :
      (token : String) (c : Claims)
      → jwt.parse (key_of secret) token ≡ some c
      → jwt.method token ≡ hmac
  signed token c parsed = go (jwt.method token) refl
    where
      go : (s : SigningMethod) → jwt.method token ≡ s → jwt.method token ≡ hmac
      go hmac e = e
      go other_method e =
          absurd (ground (arith, jwt.parse-no_key (key_of secret) token (ap (key_of secret) e)))

  abbrev Result : M S Refusal A → Type 0
  Result = Admits jwt secret handler is_public call

  claims-Admits :
      (value : String)
      → call.authorization ≡ some (value ∷ [])
      → starts_with value bearer ≡ true
      → (o : Option Claims) → jwt.parse (key_of secret) (token_of value) ≡ o
      → Result (with_claims handler o)
  unfolding with_claims
  claims-Admits value header prefix none parsed = refused _
  claims-Admits value header prefix (some c) parsed = elim (Bool-cases (is_empty c.subject)) [
    | inl empty ↦ rw empty (refused _)
    | inr named ↦
        rw named (by_token value c header prefix (signed (token_of value) c parsed) parsed named)
  ]

  header-Admits :
      (values : List String)
      → call.authorization ≡ some values
      → Result (with_header jwt secret handler values)
  unfolding with_header
  header-Admits [] header = refused _
  header-Admits (value ∷ []) header = elim (Bool-cases (starts_with value bearer)) [
    | inl prefix ↦ rw prefix (claims-Admits value header prefix _ refl)
    | inr other ↦ rw other (refused _)
  ]
  header-Admits (value ∷ v ∷ vs) header = refused _

  -- The handler runs only for a method that needs no token, then without an actor, or with the actor
  -- of the claims of the call's one token, which is signed by HMAC with the secret; every other call
  -- is answered Unauthenticated and the handler does not run.
  pub interceptor-Admits : Result (interceptor jwt secret handler is_public call)
  unfolding interceptor
  interceptor-Admits = elim (Bool-cases (is_public call.full_method)) [
    | inl free ↦ rw free (by_method free)
    | inr guarded ↦ rw guarded (go call.authorization refl)
  ]
    where
      go :
          (o : Option (List String))
          → call.authorization ≡ o
          → Result (elim o [
            | none ↦ throw (refusal unauthenticated "authorization metadata is required")
            | some values ↦ with_header jwt secret handler values
          ])
      go none e = refused _
      go (some values) e = header-Admits values e
