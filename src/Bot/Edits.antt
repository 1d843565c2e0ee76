-- ===== src/Bot/Edits.antt =====
-- internal/bot/service.go: the conversation that edits an order.
use agency_bot.Base.{ℤ, String, not, Option, none, some, [], ◌∷◌, str_eq, append, if◌then◌else◌}
use agency_bot.Effects.{Result, ok, err, Done, M, ◌>>=◌, ◌>>◌, throw, attempt}
use agency_bot.Order.Transport.{OrderMessage, UpdateOrderRequest}
use agency_bot.Bot.Drafts.{
  Draft, Step, date, location, amount, customer_name, customer_phone, customer_contact, comment,
  performers, confirm, login, name, role, other_step, edit_kind, new_draft,
}
use agency_bot.Bot.Clients.{Time, Clients, GoText}
use agency_bot.Bot.Service.{
  claims_of, concat, present, draft_summary, date_layout, user_for_telegram, with_permission,
  save_and_send,
}
use agency_bot.Bot.Orders.{fields_of, unless_dash}

module _ (go : GoText) where
  -- The draft that `startEditDraft` makes of an order.
  abbrev pub draft_of : OrderMessage → Draft
  draft_of o = record (new_draft edit_kind date) {
    order_id = o.id;
    version = o.version;
    order_date = go.format_time date_layout o.order_date;
    location = o.location;
    amount = o.amount;
    customer_name = o.customer_name;
    customer_phone = o.customer_phone;
    customer_contact = o.customer_contact;
    comment = o.comment;
  }

-- The request of `confirmEditDraft`.
abbrev pub update_request : Draft → Time → UpdateOrderRequest
update_request d t = record {
  id = d.order_id;
  expected_version = d.version;
  fields = fields_of d t;
}

module _ {S : Type 0} (go : GoText) (c : Clients S) where
  -- `startEditDraft`, when the order service has answered.
  unfoldable pub edit_found : ℤ → ℤ → Option OrderMessage → M S String Done
  edit_found chat telegram none = c.send chat "Заказ не найден."
  edit_found chat telegram (some o) = save_and_send c chat telegram (draft_of go o) (
      concat (
        "Текущая дата: "
        ∷ (draft_of go o).order_date
        ∷ ". Введите новую дату ДД.ММ.ГГГГ ЧЧ:ММ или '-'."
        ∷ []))

  unfoldable pub start_edit_draft : ℤ → ℤ → String → M S String Done
  start_edit_draft chat telegram order_id = user_for_telegram c telegram >>= λ user.
      with_permission c user "ORDER_UPDATE"
        (c.send chat "Редактировать заказы могут только администраторы.")
        λ u.
          attempt (c.get_order (claims_of u) order_id) >>= λ r. edit_found chat telegram (present r)

  -- What `confirmEditDraft` answers when the order service has answered.
  unfoldable pub after_update : ℤ → ℤ → Result String Done → M S String Done
  after_update chat telegram (err e) =
      c.send chat "Не удалось сохранить заказ: он мог быть изменён другим пользователем."
  after_update chat telegram (ok done) = c.delete telegram >> c.send chat "Заказ обновлён."

  -- `confirmEditDraft`
  unfoldable pub confirm_edit_draft : ℤ → ℤ → Draft → M S String Done
  confirm_edit_draft chat telegram d = user_for_telegram c telegram >>= λ user.
      with_permission c user "ORDER_UPDATE" (c.send chat "Недостаточно прав.") λ u.
        elim (go.parse_time date_layout d.order_date) [
          | none ↦ throw "parsing time: cannot parse"
          | some t ↦
              attempt (c.update_order (claims_of u) (update_request d t))
              >>= after_update chat telegram
        ]

  -- The step of the date, for a text that is no dash.
  unfoldable pub new_date : ℤ → ℤ → String → Draft → Option Time → M S String Done
  new_date chat telegram text d none = c.send chat "Неверный формат даты."
  new_date chat telegram text d (some t) =
      save_and_send c chat telegram (record d { order_date = text; step = location })
        "Новый адрес или '-'."

  -- `handleEditDraft`
  unfoldable pub edit_step : Step → ℤ → ℤ → String → Draft → M S String Done
  edit_step confirm chat telegram text d =
      if not (str_eq text "/confirm")
      then c.send chat "Отправьте /confirm или /cancel."
      else confirm_edit_draft chat telegram d
  edit_step date chat telegram text d =
      if not (str_eq text "-")
      then new_date chat telegram text d (go.parse_time date_layout text)
      else save_and_send c chat telegram (record d { step = location }) "Новый адрес или '-'."
  edit_step location chat telegram text d =
      save_and_send c chat telegram
        (record d { location = unless_dash text d.location; step = amount }) "Новая сумма или '-'."
  edit_step amount chat telegram text d =
      save_and_send c chat telegram
        (record d { amount = unless_dash text d.amount; step = customer_name })
        "Новое имя клиента или '-'."
  edit_step customer_name chat telegram text d =
      save_and_send c chat telegram
        (record d { customer_name = unless_dash text d.customer_name; step = customer_phone })
        "Новый телефон клиента или '-'."
  edit_step customer_phone chat telegram text d =
      save_and_send c chat telegram
        (record d { customer_phone = unless_dash text d.customer_phone; step = customer_contact })
        "Новый контакт клиента или '-'."
  edit_step customer_contact chat telegram text d =
      save_and_send c chat telegram
        (record d { customer_contact = unless_dash text d.customer_contact; step = comment })
        "Новый комментарий или '-'."
  edit_step comment chat telegram text d =
      let d' = record d { comment = unless_dash text d.comment; step = confirm } in
      save_and_send c chat telegram d'
        (append (draft_summary d') "\n\nОтправьте /confirm или /cancel.")
  edit_step performers chat telegram text d = save_and_send c chat telegram d ""
  edit_step login chat telegram text d = save_and_send c chat telegram d ""
  edit_step name chat telegram text d = save_and_send c chat telegram d ""
  edit_step role chat telegram text d = save_and_send c chat telegram d ""
  edit_step (other_step s) chat telegram text d = save_and_send c chat telegram d ""

  unfoldable pub handle_edit_draft : ℤ → ℤ → String → Draft → M S String Done
  handle_edit_draft chat telegram text d = edit_step d.step chat telegram text d
