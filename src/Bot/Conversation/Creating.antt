-- ===== src/Bot/Conversation/Creating.antt =====
-- The conversation of /neworder in internal/bot/service.go, from the command to /confirm.
use agency_bot.Base.{
  ℤ, pos, ◌≡◌, refl, ◌∙◌, String, true, false, none, some, List, [], ◌∷◌, trim_space, map, append,
  split_on, fields, inl, inr, arith,
}
use agency_bot.Effects.{ok, ◌>>=◌, attempt}
use agency_bot.User.Transport.{UserMessage}
use agency_bot.Order.Transport.{CreateOrderRequest}
use agency_bot.Bot.Drafts.{
  Draft, new_draft, order_kind, date, location, amount, customer_name, customer_phone,
  customer_contact, comment, performers, confirm,
}
use agency_bot.Bot.Clients.{Time, Clients, GoText}
use agency_bot.Bot.Service.{
  draft_summary, save_and_send, bot_claims, claims_of, date_layout, has_permission,
  user_for_telegram, with_permission,
}
use agency_bot.Bot.Orders.{
  start_draft, active_performers, unless_dash, is_last, performers_question, resolve_performers,
  ask_performers, after_create, after_resolve, order_step, confirm_draft, handle_order_draft,
}
use agency_bot.Bot.Commands.{handle_draft, handle, run_words, run_command}
use agency_bot.Bot.Conversation.{
  Reliable, IsAnswer, tell, LeadsTo, LeadsTo-end, LeadsTo-next, handle-draft, handle-words,
  LeadsTo-command, confirm-IsAnswer,
}
use agency_bot.Bot.Logins.{AreNamed, resolve_logins-ok}

-- The texts that someone sends, in the order of the questions.
pub record Answers : Type 0 where
  pub date : String
  pub location : String
  pub amount : String
  pub customer_name : String
  pub customer_phone : String
  pub customer_contact : String
  pub comment : String
  pub performers : String

abbrev pub texts : Answers → List String
texts a =
    a.date ∷ a.location ∷ a.amount ∷ a.customer_name ∷ a.customer_phone ∷ a.customer_contact
    ∷ a.comment ∷ a.performers ∷ []

abbrev pub AreAnswers : Answers → Type 0
AreAnswers a =
    IsAnswer a.date
    × IsAnswer a.location
    × IsAnswer a.amount
    × IsAnswer a.customer_name
    × IsAnswer a.customer_phone
    × IsAnswer a.customer_contact
    × IsAnswer a.comment
    × IsAnswer a.performers

-- The order that the answers describe; a dash stands for no contact and for no comment.
abbrev pub wanted : Answers → Time → List String → CreateOrderRequest
wanted a t ids = record {
  fields = record {
    order_date = t;
    location = trim_space a.location;
    amount = trim_space a.amount;
    customer_name = trim_space a.customer_name;
    customer_phone = trim_space a.customer_phone;
    customer_contact = unless_dash (trim_space a.customer_contact) "";
    comment = unless_dash (trim_space a.comment) "";
  };
  performer_ids = ids;
}

-- The drafts at each step behind the first.
abbrev at_location : Answers → Draft
at_location a = record (new_draft order_kind location) { order_date = trim_space a.date }

abbrev at_amount : Answers → Draft
at_amount a = record (at_location a) { location = trim_space a.location; step = amount }

abbrev at_customer_name : Answers → Draft
at_customer_name a = record (at_amount a) { amount = trim_space a.amount; step = customer_name }

abbrev at_customer_phone : Answers → Draft
at_customer_phone a = record (at_customer_name a) {
  customer_name = trim_space a.customer_name;
  step = customer_phone;
}

abbrev at_customer_contact : Answers → Draft
at_customer_contact a = record (at_customer_phone a) {
  customer_phone = trim_space a.customer_phone;
  step = customer_contact;
}

abbrev at_comment : Answers → Draft
at_comment a = record (at_customer_contact a) {
  customer_contact = unless_dash (trim_space a.customer_contact) "";
  step = comment;
}

abbrev at_performers : Answers → Draft
at_performers a = record (at_comment a) {
  comment = unless_dash (trim_space a.comment) "";
  step = performers;
}

abbrev pub at_confirm : Answers → List String → Draft
at_confirm a ids = record (at_performers a) { performer_ids = ids; step = confirm }

module _ {S : Type 0} (go : GoText) (c : Clients S) (R : Reliable c) (chat telegram : ℤ) where
  next :
      (d d' d'' : Draft) (x q : String) (xs : List String) (s : S)
      → d.kind ≡ order_kind
      → is_last d.step ≡ false
      → IsAnswer x
      → R.view s telegram ≡ some d
      → order_step go c d.step chat telegram (trim_space x) d s
        ≡ save_and_send c chat telegram d' q s
      → ((t : S) → R.view t telegram ≡ some d' → LeadsTo go c chat telegram R xs d'' t)
      → LeadsTo go c chat telegram R (x ∷ xs) d'' s
  unfolding handle_draft handle_order_draft
  next d d' d'' x q xs s kind last y seen step rest =
      LeadsTo-next go c chat telegram R d d' d'' x xs s seen y (q, ground (arith, step)) rest

  module _ (a : Answers) (t : Time) (users : List UserMessage) (ids : List String)
      (parsed : go.parse_time date_layout (trim_space a.date) ≡ some t)
      (listed : (s : S) → c.list_users bot_claims (pos 100) s ≡ (ok users, s))
      (found : AreNamed go users (trim_space a.performers) ids) where
    dates :
        (s : S)
        → order_step go c date chat telegram (trim_space a.date) (new_draft order_kind date) s
          ≡ save_and_send c chat telegram (at_location a) "Укажите адрес или место выполнения." s
    unfolding order_step
    dates s = ground (arith, parsed)

    asks_performers :
        (s : S)
        → order_step go c comment chat telegram (trim_space a.comment) (at_comment a) s
          ≡ save_and_send c chat telegram
              (at_performers a)
              (performers_question (map (λ u. u.login) (active_performers users)))
              s
    unfolding order_step ask_performers ◌>>=◌
    asks_performers s = ground (arith, listed s)

    resolved : (s : S) → resolve_performers go c (trim_space a.performers) s ≡ (ok ids, s)
    unfolding resolve_performers attempt ◌>>=◌
    resolved s = elim found [
      | inl (dash, nobody) ↦ ground arith
      | inr (no_dash, all) ↦ ground (
        arith,
        listed s,
        resolve_logins-ok go users (split_on b',' (trim_space a.performers)) ids all,
      )
    ]

    resolves :
        (s : S)
        → order_step go c performers chat telegram (trim_space a.performers) (at_performers a) s
          ≡ save_and_send c chat telegram
              (at_confirm a ids)
              (append
                (draft_summary (at_confirm a ids))
                "\n\nОтправьте /confirm для создания или /cancel для отмены.")
              s
    unfolding order_step attempt after_resolve ◌>>=◌
    resolves s = ground (arith, resolved s)

    starts :
        (u : UserMessage) (s : S)
        → c.get_user_by_telegram_id bot_claims telegram s ≡ (ok (some u), s)
        → has_permission u.permissions "ORDER_CREATE" ≡ true
        → R.view s telegram ≡ none
        → handle go c (record { text = "/neworder"; chat = chat; sender = telegram }) s
          ≡ save_and_send c chat telegram
              (new_draft order_kind date)
              "Новый заказ. Укажите дату и время в формате ДД.ММ.ГГГГ ЧЧ:ММ, например 25.09.2026 14:30."
              s
    unfolding run_words run_command start_draft user_for_telegram with_permission attempt ◌>>=◌
        trim_space fields split_on
    starts u s known permitted fresh =
        handle-words go c chat telegram R "/neworder" s fresh refl ∙ ground (arith, known)

    answers-LeadsTo :
        (s : S)
        → AreAnswers a
        → R.view s telegram ≡ some (new_draft order_kind date)
        → LeadsTo go c chat telegram R (texts a) (at_confirm a ids) s
    unfolding order_step
    answers-LeadsTo s (y, y2, y3, y4, y5, y6, y7, y8) seen =
        next _ (at_location a) _ _ _ _ s refl refl y seen (dates s) λ s seen.
          next _ (at_amount a) _ _ _ _ s refl refl y2 seen refl λ s seen.
            next _ (at_customer_name a) _ _ _ _ s refl refl y3 seen refl λ s seen.
              next _ (at_customer_phone a) _ _ _ _ s refl refl y4 seen refl λ s seen.
                next _ (at_customer_contact a) _ _ _ _ s refl refl y5 seen refl λ s seen.
                  next _ (at_comment a) _ _ _ _ s refl refl y6 seen refl λ s seen.
                    next _ (at_performers a) _ _ _ _ s refl refl y7 seen (asks_performers s)
                      λ s seen.
                        next _ (at_confirm a ids) _ _ _ _ s refl refl y8 seen (resolves s)
                          λ s seen. LeadsTo-end go c chat telegram R _ s seen

    confirmed :
        (u : UserMessage) (s : S)
        → c.get_user_by_telegram_id bot_claims telegram s ≡ (ok (some u), s)
        → has_permission u.permissions "ORDER_CREATE" ≡ true
        → R.view s telegram ≡ some (at_confirm a ids)
        → handle go c (record { text = "/confirm"; chat = chat; sender = telegram }) s
          ≡ (attempt (c.create_order (claims_of u) (wanted a t ids))
                >>= after_create go c chat telegram)
              s
    unfolding handle_draft handle_order_draft confirm_draft user_for_telegram with_permission
        attempt ◌>>=◌ trim_space
    confirmed u s known permitted seen = ground (
      arith,
      handle-draft go c chat telegram R _ "/confirm" s seen confirm-IsAnswer,
      known,
      parsed,
    )

  -- Where the account has no draft, /neworder and eight answers lead without an error to a state in
  -- which /confirm asks the order service, under the user's own claims, for the order that the answers
  -- describe, and for no other: the texts without the spaces around them, the date as it was parsed,
  -- the active performers who have the logins, and a dash for no contact, no comment or nobody. What
  -- follows is as the service answers. It holds if the date can be parsed, each login is that of one
  -- active performer in the list of users, the user of the account may create orders, and the
  -- questions to the user service succeed.
  pub creating_lem :
      (a : Answers) (t : Time) (users : List UserMessage) (ids : List String) (u : UserMessage)
      (s : S)
      → go.parse_time date_layout (trim_space a.date) ≡ some t
      → ((s : S) → c.list_users bot_claims (pos 100) s ≡ (ok users, s))
      → AreNamed go users (trim_space a.performers) ids
      → ((s : S) → c.get_user_by_telegram_id bot_claims telegram s ≡ (ok (some u), s))
      → has_permission u.permissions "ORDER_CREATE" ≡ true
      → AreAnswers a
      → R.view s telegram ≡ none
      → (s' : S) × (tell go c chat telegram ("/neworder" ∷ texts a) s ≡ (ok tt, s'))
        × (handle go c (record { text = "/confirm"; chat = chat; sender = telegram }) s'
            ≡ (attempt (c.create_order (claims_of u) (wanted a t ids))
                  >>= after_create go c chat telegram)
                s')
  creating_lem a t users ids u s parsed listed found known permitted answers fresh =
      let (s', run, at_end) =
        LeadsTo-command go c chat telegram R (new_draft order_kind date) (at_confirm a ids)
          "/neworder" _ (texts a) s
          (starts a t users ids parsed listed found u s (known s) permitted fresh)
          λ s seen. answers-LeadsTo a t users ids parsed listed found s answers seen in
      (s', run, confirmed a t users ids parsed listed found u s' (known s') permitted at_end)
