-- ===== src/Auth/Headers.antt =====
-- The header that carries a token.
use text.Mathlib.TextLemmas.{nil-append, cons-append}
use text.Mathlib.TextPositions.{starts_with-append}
use agency_bot.Base.{ℕ, zero, suc, ◌≡◌, ap, ◌∙◌, String, append, starts_with, true}
use agency_bot.Auth.{bearer, token_of, drop_text}

abbrev characters : String → ℕ
characters String.[] = zero
characters (String.◌∷◌ c s) = suc (characters s)

drop_text-append : (s t : String) → drop_text (characters s) (append s t) ≡ t
drop_text-append String.[] t = nil-append t
drop_text-append (String.◌∷◌ c s) t =
    ap (drop_text (suc (characters s))) (cons-append c s t) ∙ drop_text-append s t

pub token_of-append : (token : String) → token_of (append bearer token) ≡ token
unfolding token_of
token_of-append token = drop_text-append bearer token

pub starts_with-bearer : (token : String) → starts_with (append bearer token) bearer ≡ true
starts_with-bearer token = starts_with-append bearer token
