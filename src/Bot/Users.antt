-- ===== src/Bot/Users.antt =====
-- internal/bot/service.go: the conversation that creates a user.
use agency_bot.Base.{ℤ, String, not, ◌&&◌, [], ◌∷◌, str_eq, if◌then◌else◌}
use agency_bot.Effects.{Result, ok, err, Done, M, ◌>>=◌, ◌>>◌, pure, attempt}
use agency_bot.User.Transport.{role_admin, role_performer, CreateUserRequest}
use agency_bot.Bot.Drafts.{
  Draft, Step, date, location, amount, customer_name, customer_phone, customer_contact, comment,
  performers, confirm, login, name, role, other_step, user_kind, new_draft,
}
use agency_bot.Bot.Clients.{Clients, GoText}
use agency_bot.Bot.Service.{claims_of, concat, user_for_telegram, with_permission, save_and_send}

module _ {S : Type 0} (go : GoText) (c : Clients S) where
  -- `startUserDraft`
  unfoldable pub start_user_draft : ℤ → ℤ → M S String Done
  start_user_draft chat telegram = user_for_telegram c telegram >>= λ user.
      with_permission c user "USER_CREATE"
        (c.send chat "Создавать пользователей могут только администраторы.")
        λ _.
          save_and_send c chat telegram (new_draft user_kind login)
            "Укажите логин нового пользователя."

  -- `temporaryPassword`
  unfoldable pub temporary_password : M S String String
  temporary_password = c.random_bytes 18 >>= λ raw. pure (go.encode_url raw)

  -- The user whom `confirmUserDraft` asks for.
  abbrev pub user_request : Draft → String → CreateUserRequest
  user_request d password = record {
    login = d.user_login;
    password = password;
    full_name = d.user_full_name;
    role = if str_eq d.user_role "admin" then role_admin else role_performer;
  }

  -- What `confirmUserDraft` answers when the user service has answered.
  unfoldable pub after_create_user : ℤ → ℤ → String → Result String Done → M S String Done
  after_create_user chat telegram password (err e) =
      c.send chat "Не удалось создать пользователя. Проверьте логин."
  after_create_user chat telegram password (ok created) =
      c.delete telegram
      >> c.send chat (
          concat (
            "Пользователь создан. Временный пароль: " ∷ password
            ∷ "\nПередайте его пользователю безопасным способом." ∷ []))

  -- `confirmUserDraft`
  unfoldable pub confirm_user_draft : ℤ → ℤ → Draft → M S String Done
  confirm_user_draft chat telegram d = user_for_telegram c telegram >>= λ user.
      with_permission c user "USER_CREATE" (c.send chat "Недостаточно прав.") λ actor.
        temporary_password >>= λ password.
        attempt (c.create_user (claims_of actor) (user_request d password))
        >>= after_create_user chat telegram password

  -- The step of the role, for the text in lower case.
  unfoldable pub role_step : ℤ → ℤ → String → Draft → M S String Done
  role_step chat telegram r d =
      if not (str_eq r "admin") && not (str_eq r "performer")
      then c.send chat "Допустимые роли: admin или performer."
      else save_and_send c chat telegram (record d { user_role = r; step = confirm })
          (concat (
            "Создать пользователя " ∷ d.user_login ∷ " с ролью " ∷ r
            ∷ "? Отправьте /confirm или /cancel." ∷ []))

  -- `handleUserDraft`
  unfoldable pub user_step : Step → ℤ → ℤ → String → Draft → M S String Done
  user_step confirm chat telegram text d =
      if not (str_eq text "/confirm")
      then c.send chat "Отправьте /confirm или /cancel."
      else confirm_user_draft chat telegram d
  user_step login chat telegram text d =
      save_and_send c chat telegram (record d { user_login = text; step = name })
        "Укажите полное имя."
  user_step name chat telegram text d =
      save_and_send c chat telegram (record d { user_full_name = text; step = role })
        "Укажите роль: admin или performer."
  user_step role chat telegram text d = role_step chat telegram (go.to_lower text) d
  user_step date chat telegram text d = save_and_send c chat telegram d text
  user_step location chat telegram text d = save_and_send c chat telegram d text
  user_step amount chat telegram text d = save_and_send c chat telegram d text
  user_step customer_name chat telegram text d = save_and_send c chat telegram d text
  user_step customer_phone chat telegram text d = save_and_send c chat telegram d text
  user_step customer_contact chat telegram text d = save_and_send c chat telegram d text
  user_step comment chat telegram text d = save_and_send c chat telegram d text
  user_step performers chat telegram text d = save_and_send c chat telegram d text
  user_step (other_step s) chat telegram text d = save_and_send c chat telegram d text

  unfoldable pub handle_user_draft : ℤ → ℤ → String → Draft → M S String Done
  handle_user_draft chat telegram text d = user_step d.step chat telegram text d
