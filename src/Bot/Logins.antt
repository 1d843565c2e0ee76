-- ===== src/Bot/Logins.antt =====
-- The performers whom a text names in internal/bot/service.go, by their logins.
use agency_bot.Base.{
  ◌≡◌, refl, String, Bool, true, false, none, some, List, [], ◌∷◌, str_eq, trim_space, split_on,
  any, All, ◌&&◌, ◌⊎◌, if◌then◌else◌, arith,
}
use agency_bot.Effects.{ok}
use agency_bot.User.Transport.{UserMessage}
use agency_bot.Bot.Clients.{GoText}
use agency_bot.Bot.Orders.{is_performer_role, by_login, active_performers, resolve_logins}

-- The user is an active performer with the login, whatever the case of its letters.
abbrev pub has_login : GoText → String → UserMessage → Bool
has_login go l u =
    is_performer_role u.role
    && u.is_active
    && str_eq (go.to_lower u.login) (go.to_lower (trim_space l))

-- Some active performer has the login, and each of those has the identifier.
abbrev pub Names : GoText → List UserMessage → String → String → Type 0
Names go users l id =
    (any (has_login go l) users ≡ true) × All (λ u. has_login go l u ≡ true → u.id ≡ id) users

-- The logins name the users with the identifiers, in their order.
abbrev pub AllName : GoText → List UserMessage → List String → List String → Type 0
AllName go users [] [] = Unit
AllName go users [] (id ∷ ids) = ⊥
AllName go users (l ∷ ls) [] = ⊥
AllName go users (l ∷ ls) (id ∷ ids) = Names go users l id × AllName go users ls ids

-- The text names the users with the identifiers: nobody if it is a dash, and otherwise those of the
-- logins between its commas.
abbrev pub AreNamed : GoText → List UserMessage → String → List String → Type 0
AreNamed go users text ids =
    ((str_eq text "-" ≡ true) × (ids ≡ []))
    ⊎ ((str_eq text "-" ≡ false) × AllName go users (split_on b',' text) ids)

by_login_lem :
    (go : GoText) (l id : String) (users : List UserMessage)
    → All (λ u. has_login go l u ≡ true → u.id ≡ id) users
    → by_login go (go.to_lower (trim_space l)) (active_performers users)
      ≡ (if any (has_login go l) users then some id else none)
unfolding by_login active_performers
by_login_lem go l id [] h = refl
by_login_lem go l id (u ∷ users) (here, rest) =
    ground (arith, here, by_login_lem go l id users rest)

pub resolve_logins-ok :
    (go : GoText) (users : List UserMessage) (ls ids : List String)
    → AllName go users ls ids
    → resolve_logins go (active_performers users) ls ≡ ok ids
unfolding resolve_logins
resolve_logins-ok go users [] [] h = refl
resolve_logins-ok go users [] (id ∷ ids) h = absurd h
resolve_logins-ok go users (l ∷ ls) [] h = absurd h
resolve_logins-ok go users (l ∷ ls) (id ∷ ids) ((there, same), h) =
    ground (arith, by_login_lem go l id users same, there, resolve_logins-ok go users ls ids h)
