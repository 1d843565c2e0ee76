-- ===== src/Bot/Commands.antt =====
-- internal/bot/service.go: the commands, the choice between them and a conversation, and the loop
-- over the updates.
use agency_bot.Base.{
  ℤ, pos, ◌==ℤ◌, add_one, String, Bool, not, ◌||◌, Option, none, some, List, [], ◌∷◌, map, is_empty,
  str_eq, trim_space, split_on, fields, join, if◌then◌else◌,
}
use agency_bot.Effects.{Result, ok, err, Done, M, ◌>>=◌, ◌>>◌, pure, attempt, ignore}
use agency_bot.Order.Transport.{OrderMessage}
use agency_bot.Bot.Drafts.{Draft, Kind, order_kind, user_kind, edit_kind, other_kind}
use agency_bot.Bot.Clients.{Time, Clients, GoText, Message, Update}
use agency_bot.Bot.Service.{
  auth, claims_of, concat, present, user_for_telegram, with_permission, cancel_draft,
}
use agency_bot.Bot.Orders.{start_draft, handle_order_draft}
use agency_bot.Bot.Users.{start_user_draft, handle_user_draft}
use agency_bot.Bot.Edits.{start_edit_draft, handle_edit_draft}

module _ (go : GoText) where
  -- A line about an order in `sendOrders`.
  abbrev pub order_line : OrderMessage → String
  order_line o =
      concat (
        "• "
        ∷ go.format_time "02.01 15:04" o.order_date
        ∷ " — "
        ∷ o.location
        ∷ ", "
        ∷ o.amount
        ∷ [])

  -- A line about an order in `sendOrdersForDate`.
  abbrev pub day_line : OrderMessage → String
  day_line o = concat (
      "• "
      ∷ go.format_time "15:04" o.order_date
      ∷ " — "
      ∷ o.location
      ∷ ", "
      ∷ o.amount
      ∷ ", "
      ∷ o.customer_name
      ∷ [])

  abbrev pub is_of_day : Time → OrderMessage → Bool
  is_of_day day o =
      str_eq (go.format_time "2006-01-02" o.order_date) (go.format_time "2006-01-02" day)

  -- The loop of `sendOrdersForDate`.
  unfoldable pub day_lines : Time → List OrderMessage → List String
  day_lines day [] = []
  day_lines day (o ∷ os) =
      if not (is_of_day day o) then day_lines day os else day_line o ∷ day_lines day os

module _ {S : Type 0} (go : GoText) (c : Clients S) where
  unfoldable pub send_order_lines : ℤ → Result String (List OrderMessage) → M S String Done
  send_order_lines chat (err e) = c.send chat "Не удалось получить список заказов."
  send_order_lines chat (ok []) = c.send chat "Активных заказов нет."
  send_order_lines chat (ok (o ∷ os)) =
      c.send chat (join "\n" ("Ваши активные заказы:" ∷ map (order_line go) (o ∷ os)))

  -- `sendOrders`
  unfoldable pub send_orders : ℤ → ℤ → M S String Done
  send_orders chat telegram =
      attempt (c.get_user_by_telegram_id (auth "telegram-bot" []) telegram) >>= λ r.
      elim (present r) [
        | none ↦ c.send chat "Сначала привяжите аккаунт: /start <логин> <пароль>."
        | some u ↦
            attempt (
              c.list_performer_orders (claims_of u)
                (record { performer_id = ""; page_size = pos 20; page_token = "" }))
            >>= send_order_lines chat
      ]

  unfoldable pub send_day_lines : ℤ → Time → Result String (List OrderMessage) → M S String Done
  send_day_lines chat day (err e) = c.send chat "Не удалось получить список заказов."
  send_day_lines chat day (ok os) = elim (day_lines go day os) [
    | [] ↦ c.send chat "Заказов на эту дату нет."
    | l ∷ ls ↦
        c.send chat
          (join "\n" (concat ("Заказы на " ∷ go.format_time "02.01.2006" day ∷ ":" ∷ []) ∷ l ∷ ls))
  ]

  -- `sendOrdersForDate`
  unfoldable pub send_orders_for_date : ℤ → ℤ → String → M S String Done
  send_orders_for_date chat telegram value = elim (go.parse_time "02.01.2006" value) [
    | none ↦ c.send chat "Неверный формат даты. Пример: /ordersdate 25.09.2026"
    | some day ↦ user_for_telegram c telegram >>= λ user.
        with_permission c user "ORDER_READ_ALL"
          (c.send chat "Просматривать все заказы могут только администраторы.")
          λ u.
            attempt (c.list_orders (claims_of u) (record { page_size = pos 100; page_token = "" }))
            >>= send_day_lines chat day
  ]

  -- `sendWelcome`, which nothing calls
  unfoldable pub send_welcome : ℤ → ℤ → M S String Done
  send_welcome chat telegram =
      attempt (c.get_user_by_telegram_id (auth "telegram-bot" []) telegram) >>= λ r.
      elim (present r) [
        | none ↦ c.send chat "Чтобы начать, отправьте /start <логин> <пароль>."
        | some u ↦ c.send chat (
            concat (
              "Здравствуйте, " ∷ u.full_name
              ∷ "! Используйте /orders для просмотра активных заказов." ∷ []))
      ]

  unfoldable pub after_bind : ℤ → Result String Done → M S String Done
  after_bind chat (err e) =
      c.send chat "Не удалось привязать Telegram-аккаунт. Возможно, он уже используется."
  after_bind chat (ok done) =
      c.send chat "Аккаунт успешно привязан. Используйте /orders для просмотра заказов."

  -- `bindWithPassword`
  unfoldable pub bind_with_password : ℤ → ℤ → String → String → M S String Done
  bind_with_password chat telegram login password = attempt (c.authenticate login password) >>= λ r.
      elim (present r) [
        | none ↦ c.send chat "Неверный логин или пароль."
        | some u ↦ attempt (c.bind_telegram (claims_of u) u.id telegram) >>= after_bind chat
      ]

  -- `handleDraft`
  unfoldable pub handle_draft : Kind → ℤ → ℤ → String → Draft → M S String Done
  handle_draft user_kind chat telegram text d = handle_user_draft go c chat telegram text d
  handle_draft edit_kind chat telegram text d = handle_edit_draft go c chat telegram text d
  handle_draft order_kind chat telegram text d = handle_order_draft go c chat telegram text d
  handle_draft (other_kind k) chat telegram text d = handle_order_draft go c chat telegram text d

  abbrev help_text : String
  help_text =
      "Команды:\n/start <логин> <пароль> — привязать аккаунт\n/orders — мои активные заказы\n/ordersdate ДД.ММ.ГГГГ — все заказы за дату\n/neworder — создать заказ\n/newuser — создать пользователя\n/editorder <ID> — изменить заказ\n/cancel — отменить действие"

  unfoldable pub start_command : ℤ → ℤ → List String → M S String Done
  start_command chat telegram (login ∷ password ∷ []) =
      bind_with_password chat telegram login password
  start_command chat telegram _ = c.send chat "Для привязки отправьте: /start <логин> <пароль>"

  unfoldable pub date_command : ℤ → ℤ → List String → M S String Done
  date_command chat telegram (value ∷ []) = send_orders_for_date chat telegram value
  date_command chat telegram _ = c.send chat "Использование: /ordersdate ДД.ММ.ГГГГ"

  unfoldable pub edit_command : ℤ → ℤ → List String → M S String Done
  edit_command chat telegram (id ∷ []) = start_edit_draft go c chat telegram id
  edit_command chat telegram _ = c.send chat "Использование: /editorder <ID заказа>"

  -- The switch of `handle` on the command, with the words behind it.
  unfoldable pub run_command : ℤ → ℤ → String → List String → M S String Done
  run_command chat telegram command args =
      if str_eq command "/start"
      then start_command chat telegram args
      else (if str_eq command "/orders"
          then send_orders chat telegram
          else (if str_eq command "/ordersdate"
              then date_command chat telegram args
              else (if str_eq command "/neworder"
                  then start_draft go c chat telegram
                  else (if str_eq command "/newuser"
                      then start_user_draft go c chat telegram
                      else (if str_eq command "/editorder"
                          then edit_command chat telegram args
                          else (if str_eq command "/help"
                              then c.send chat help_text
                              else c.send chat "Неизвестная команда. Используйте /help."))))))

  -- `strings.Split(word, "@")[0]`
  abbrev first_piece : List String → String
  first_piece [] = ""
  first_piece (p ∷ ps) = p

  -- The words of a text that is not part of a conversation.
  unfoldable pub run_words : ℤ → ℤ → List String → M S String Done
  run_words chat telegram [] = pure tt
  run_words chat telegram (w ∷ ws) = run_command chat telegram (first_piece (split_on b'@' w)) ws

  -- `handle`
  unfoldable pub handle : Message → M S String Done
  handle m =
      let text = trim_space m.text in
      if str_eq text "/cancel"
      then cancel_draft c m.chat m.sender
      else (c.load m.sender >>= λ draft. elim draft [
        | some d ↦ handle_draft d.kind m.chat m.sender text d
        | none ↦ run_words m.chat m.sender (fields text)
      ])

  -- What `Run` does with the outcome of `handle`.
  unfoldable pub report : ℤ → Result String Done → M S String Done
  report chat (ok done) = pure tt
  report chat (err e) = ignore (c.send chat "Не удалось обработать команду. Попробуйте ещё раз.")

  -- A message in the loop of `Run`; one without a text or a sender is passed over.
  unfoldable pub run_message : Option Message → M S String Done
  run_message none = pure tt
  run_message (some m) =
      if is_empty m.text || m.sender ==ℤ pos 0
      then pure tt
      else (attempt (handle m) >>= report m.chat)

  -- The inner loop of `Run`, which answers the next offset.
  unfoldable pub run_updates : ℤ → List Update → M S String ℤ
  run_updates offset [] = pure offset
  run_updates offset (u ∷ us) = run_message u.message >> run_updates (add_one u.id) us

  -- One round of the outer loop; after a failed poll the offset stays.
  unfoldable pub poll : ℤ → M S String ℤ
  poll offset = attempt (c.updates offset) >>= λ r. elim r [
    | err e ↦ pure offset
    | ok us ↦ run_updates offset us
  ]
