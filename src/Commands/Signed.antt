-- ===== src/Commands/Signed.antt =====
-- Calls that carry a token, and calls that are refused.
use agency_bot.Base.{◌≡◌, String, true, false, Option, some, List, [], ◌∷◌, is_empty, starts_with}
use agency_bot.Effects.{Result, err}
use agency_bot.Auth.{Claims, Jwt, hmac, key_of, bearer, token_of}
use agency_bot.Grpc.{Refusal}

-- The header `authorization` has one value, a bearer token that is signed by HMAC with the secret and
-- has the claims, with a subject.
abbrev pub IsSigned : Jwt → String → Option (List String) → Claims → Type 0
IsSigned jwt secret authorization c =
    (value : String) × (authorization ≡ some (value ∷ []))
    × (starts_with value bearer ≡ true)
    × (jwt.method (token_of value) ≡ hmac)
    × (jwt.parse (key_of secret) (token_of value) ≡ some c)
    × (is_empty c.subject ≡ false)

-- The call is refused and nothing changes.
abbrev pub IsRefused : {S A : Type 0} → S → Result Refusal A × S → Type 0
IsRefused t r = (e : Refusal) × (r ≡ (err e, t))
