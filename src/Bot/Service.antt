-- ===== src/Bot/Service.antt =====
-- internal/bot/service.go: what the commands and the conversations share.
use agency_bot.Base.{
  ℤ, String, Bool, not, Option, none, some, List, [], ◌∷◌, any, str_eq, join, decimal, length,
  if◌then◌else◌,
}
use agency_bot.Effects.{Result, ok, err, Done, M, ◌>>=◌, ◌>>◌, pure, attempt}
use agency_bot.Auth.{Claims}
use agency_bot.User.Transport.{UserMessage}
use agency_bot.Bot.Drafts.{Draft}
use agency_bot.Bot.Clients.{Clients}

-- The claims that `auth` signs.
abbrev pub auth : String → List String → Claims
auth subject permissions = record { subject = subject; role = "BOT"; permissions = permissions }

-- The claims with which the bot asks on its own behalf.
abbrev pub bot_claims : Claims
bot_claims = auth "telegram-bot" ("USER_READ" ∷ [])

-- The claims with which it acts for a user.
abbrev pub claims_of : UserMessage → Claims
claims_of u = auth u.id u.permissions

-- `hasPermission`
unfoldable pub has_permission : List String → String → Bool
has_permission items target = any (λ x. str_eq x target) items

-- `fmt.Sprintf` of pieces
abbrev pub concat : List String → String
concat pieces = join "" pieces

-- `draftSummary`
unfoldable pub draft_summary : Draft → String
draft_summary d = concat (
    "Проверьте заказ:\nДата: "
    ∷ d.order_date
    ∷ "\nМесто: "
    ∷ d.location
    ∷ "\nСумма: "
    ∷ d.amount
    ∷ "\nКлиент: "
    ∷ d.customer_name
    ∷ "\nТелефон: "
    ∷ d.customer_phone
    ∷ "\nКонтакт: "
    ∷ d.customer_contact
    ∷ "\nКомментарий: "
    ∷ d.comment
    ∷ "\nИсполнителей: "
    ∷ decimal (length d.performer_ids)
    ∷ [])

-- The layout of dates in the conversations.
abbrev pub date_layout : String
date_layout = "02.01.2006 15:04"

-- An outcome that may lack a value: `err != nil || value == nil`.
abbrev pub present : {A : Type 0} → Result String (Option A) → Option A
present (ok o) = o
present (err e) = none

module _ {S : Type 0} (c : Clients S) where
  -- The user of a Telegram account, as every caller of `userForTelegram` looks at it: none if the
  -- call fails or answers nobody.
  unfoldable pub user_for_telegram : ℤ → M S String (Option UserMessage)
  user_for_telegram telegram =
      attempt (c.get_user_by_telegram_id bot_claims telegram) >>= λ r. pure (present r)

  -- `user == nil || !hasPermission(user.Permissions, permission)`, with what follows on either side.
  unfoldable pub with_permission :
      {A : Type 0}
      → Option UserMessage
      → String
      → M S String A
      → (UserMessage → M S String A)
      → M S String A
  with_permission none permission refuse act = refuse
  with_permission (some u) permission refuse act =
      if not (has_permission u.permissions permission) then refuse else act u

  -- The last statements of most steps.
  unfoldable pub save_and_send : ℤ → ℤ → Draft → String → M S String Done
  save_and_send chat telegram d text = c.save telegram d >> c.send chat text

  -- `cancelDraft`
  unfoldable pub cancel_draft : ℤ → ℤ → M S String Done
  cancel_draft chat telegram = c.delete telegram >> c.send chat "Создание заказа отменено."
