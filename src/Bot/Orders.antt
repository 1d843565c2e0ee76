-- ===== src/Bot/Orders.antt =====
-- internal/bot/service.go: the conversation that creates an order.
use agency_bot.Base.{
  ℤ, pos, String, Bool, true, false, not, ◌&&◌, Option, none, some, List, [], ◌∷◌, map, str_eq,
  is_empty, trim_space, split_on, append, join, if◌then◌else◌,
}
use agency_bot.Effects.{Result, ok, err, Done, M, ◌>>=◌, ◌>>◌, pure, throw, attempt}
use agency_bot.User.Transport.{
  UserMessage, RoleMessage, role_unspecified, role_admin, role_performer,
}
use agency_bot.Order.Transport.{OrderMessage, OrderFields}
use agency_bot.Bot.Drafts.{
  Draft, Step, date, location, amount, customer_name, customer_phone, customer_contact, comment,
  performers, confirm, login, name, role, other_step, order_kind, new_draft,
}
use agency_bot.Bot.Clients.{Time, Clients, GoText}
use agency_bot.Bot.Service.{
  bot_claims, claims_of, concat, draft_summary, date_layout, user_for_telegram, with_permission,
  save_and_send,
}

abbrev pub is_performer_role : RoleMessage → Bool
is_performer_role role_performer = true
is_performer_role role_admin = false
is_performer_role role_unspecified = false

-- The active performers of a response, in its order.
unfoldable pub active_performers : List UserMessage → List UserMessage
active_performers [] = []
active_performers (u ∷ us) =
    if is_performer_role u.role && u.is_active
    then u ∷ active_performers us
    else active_performers us

-- An answer, or "-" for none.
abbrev pub unless_dash : String → String → String
unless_dash text old = if not (str_eq text "-") then text else old

-- The fields of a request that a draft gives.
abbrev pub fields_of : Draft → Time → OrderFields
fields_of d t = record {
  order_date = t;
  location = d.location;
  amount = d.amount;
  customer_name = d.customer_name;
  customer_phone = d.customer_phone;
  customer_contact = d.customer_contact;
  comment = d.comment;
}

module _ (go : GoText) where
  -- `byLogin`: of performers whose logins agree in lower case, the last one counts.
  unfoldable pub by_login : String → List UserMessage → Option String
  by_login key [] = none
  by_login key (u ∷ us) = elim (by_login key us) [
    | some id ↦ some id
    | none ↦ if str_eq (go.to_lower u.login) key then some u.id else none
  ]

  -- The loop of `resolvePerformers` over the logins; an error is the text about the first login that
  -- nobody has.
  unfoldable pub resolve_logins : List UserMessage → List String → Result String (List String)
  resolve_logins users [] = ok []
  resolve_logins users (l ∷ ls) = elim (by_login (go.to_lower (trim_space l)) users) [
    | none ↦
        err (concat ("исполнитель " ∷ go.quoted (trim_space l) ∷ " не найден или неактивен" ∷ []))
    | some id ↦ elim (resolve_logins users ls) [ ok ids ↦ ok (id ∷ ids) | err e ↦ err e ]
  ]

-- `draft.Step == "confirm"`
abbrev pub is_last : Step → Bool
is_last confirm = true
is_last _ = false

-- What `askPerformers` says about the logins that it has found.
abbrev pub performers_question : List String → String
performers_question [] = "Активных исполнителей нет. Отправьте '-' для создания без назначения."
performers_question (l ∷ ls) =
    append "Укажите логины исполнителей через запятую или '-'. Доступно: " (join ", " (l ∷ ls))

-- A result as a call.
abbrev pub of_result : {S A : Type 0} → Result String A → M S String A
of_result (ok a) = pure a
of_result (err e) = throw e

module _ {S : Type 0} (go : GoText) (c : Clients S) where
  -- `resolvePerformers`
  unfoldable pub resolve_performers : String → M S String (List String)
  resolve_performers value =
      if str_eq value "-"
      then pure []
      else (attempt (c.list_users bot_claims (pos 100)) >>= λ r. elim r [
        | err e ↦ throw "не удалось получить исполнителей"
        | ok users ↦ of_result (resolve_logins go (active_performers users) (split_on b',' value))
      ])

  -- `askPerformers`
  unfoldable pub ask_performers : ℤ → ℤ → Draft → M S String Done
  ask_performers chat telegram d = do
    users ← c.list_users bot_claims (pos 100)
    save_and_send c chat telegram d
        (performers_question (map (λ u. u.login) (active_performers users)))

  -- `startDraft`
  unfoldable pub start_draft : ℤ → ℤ → M S String Done
  start_draft chat telegram = user_for_telegram c telegram >>= λ user. elim user [
    | none ↦ c.send chat "Сначала привяжите аккаунт: /start <код>."
    | some u ↦
        with_permission c (some u) "ORDER_CREATE"
          (c.send chat "Создавать заказы могут только администраторы.")
          λ _.
            save_and_send c chat telegram (new_draft order_kind date)
              "Новый заказ. Укажите дату и время в формате ДД.ММ.ГГГГ ЧЧ:ММ, например 25.09.2026 14:30."
  ]

  -- What `confirmDraft` answers when the order service has answered.
  unfoldable pub after_create : ℤ → ℤ → Result String OrderMessage → M S String Done
  after_create chat telegram (err e) =
      c.send chat "Не удалось создать заказ. Проверьте данные или начните заново: /neworder."
  after_create chat telegram (ok created) =
      c.delete telegram >> c.send chat (append "Заказ создан: " created.id)

  -- `confirmDraft`
  unfoldable pub confirm_draft : ℤ → ℤ → Draft → M S String Done
  confirm_draft chat telegram d = user_for_telegram c telegram >>= λ user.
      with_permission c user "ORDER_CREATE" (c.send chat "Недостаточно прав для создания заказа.")
        λ u. elim (go.parse_time date_layout d.order_date) [
          | none ↦ throw "parsing time: cannot parse"
          | some t ↦
              attempt (
                c.create_order (claims_of u)
                  (record { fields = fields_of d t; performer_ids = d.performer_ids }))
              >>= after_create chat telegram
        ]

  -- The step of the performers, when their logins are resolved.
  unfoldable pub after_resolve : ℤ → ℤ → Draft → Result String (List String) → M S String Done
  after_resolve chat telegram d (err e) = c.send chat e
  after_resolve chat telegram d (ok ids) =
      let d' = record d { performer_ids = ids; step = confirm } in
      save_and_send c chat telegram d'
        (append (draft_summary d') "\n\nОтправьте /confirm для создания или /cancel для отмены.")

  -- The switch of `handleDraft`, whose end is `save_and_send`.
  unfoldable pub order_step : Step → ℤ → ℤ → String → Draft → M S String Done
  order_step date chat telegram text d = elim (go.parse_time date_layout text) [
    | none ↦ c.send chat "Неверный формат. Пример: 25.09.2026 14:30."
    | some t ↦
        save_and_send c chat telegram (record d { order_date = text; step = location })
          "Укажите адрес или место выполнения."
  ]
  order_step location chat telegram text d =
      save_and_send c chat telegram (record d { location = text; step = amount })
        "Укажите сумму заказа."
  order_step amount chat telegram text d =
      save_and_send c chat telegram (record d { amount = text; step = customer_name })
        "Укажите имя клиента."
  order_step customer_name chat telegram text d =
      save_and_send c chat telegram (record d { customer_name = text; step = customer_phone })
        "Укажите телефон клиента."
  order_step customer_phone chat telegram text d =
      save_and_send c chat telegram (record d { customer_phone = text; step = customer_contact })
        "Укажите дополнительный контакт клиента или '-' если его нет."
  order_step customer_contact chat telegram text d =
      save_and_send c chat telegram
        (record d { customer_contact = unless_dash text d.customer_contact; step = comment })
        "Укажите комментарий или '-'."
  order_step comment chat telegram text d =
      ask_performers chat telegram
        (record d { comment = unless_dash text d.comment; step = performers })
  order_step performers chat telegram text d =
      attempt (resolve_performers text) >>= after_resolve chat telegram d
  order_step confirm chat telegram text d = save_and_send c chat telegram d text
  order_step login chat telegram text d = save_and_send c chat telegram d text
  order_step name chat telegram text d = save_and_send c chat telegram d text
  order_step role chat telegram text d = save_and_send c chat telegram d text
  order_step (other_step s) chat telegram text d = save_and_send c chat telegram d text

  -- `handleDraft` for a draft of an order.
  unfoldable pub handle_order_draft : ℤ → ℤ → String → Draft → M S String Done
  handle_order_draft chat telegram text d =
      if is_last d.step
      then (if not (str_eq text "/confirm")
          then c.send chat "Проверьте данные и отправьте /confirm или /cancel."
          else confirm_draft chat telegram d)
      else (if is_empty text
          then c.send chat "Введите значение или /cancel."
          else order_step d.step chat telegram text d)
