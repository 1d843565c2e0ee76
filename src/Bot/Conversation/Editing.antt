-- ===== src/Bot/Conversation/Editing.antt =====
-- The conversation of /editorder in internal/bot/service.go, from the command to /confirm.
use agency_bot.Base.{String, List, [], ◌∷◌, trim_space}
use agency_bot.Order.Transport.{OrderMessage, UpdateOrderRequest}
use agency_bot.Bot.Drafts.{
  Draft, date, location, amount, customer_name, customer_phone, customer_contact, comment, confirm,
}
use agency_bot.Bot.Clients.{Time, Clients, GoText}
use agency_bot.Bot.Service.{date_layout}
use agency_bot.Bot.Orders.{unless_dash}
use agency_bot.Bot.Edits.{draft_of}
use agency_bot.Bot.Conversation.{IsAnswer}

-- The texts that someone sends, in the order of the questions.
pub record Changes : Type 0 where
  pub date : String
  pub location : String
  pub amount : String
  pub customer_name : String
  pub customer_phone : String
  pub customer_contact : String
  pub comment : String

abbrev pub texts : Changes → List String
texts a =
    a.date ∷ a.location ∷ a.amount ∷ a.customer_name ∷ a.customer_phone ∷ a.customer_contact
    ∷ a.comment ∷ []

abbrev pub AreAnswers : Changes → Type 0
AreAnswers a =
    IsAnswer a.date
    × IsAnswer a.location
    × IsAnswer a.amount
    × IsAnswer a.customer_name
    × IsAnswer a.customer_phone
    × IsAnswer a.customer_contact
    × IsAnswer a.comment

-- A field after an answer: a dash leaves it.
abbrev pub replaced : String → String → String
replaced text old = unless_dash (trim_space text) old

-- The change of the order that the answers describe.
abbrev pub changed : OrderMessage → Changes → Time → UpdateOrderRequest
changed o a t = record {
  id = o.id;
  expected_version = o.version;
  fields = record {
    order_date = t;
    location = replaced a.location o.location;
    amount = replaced a.amount o.amount;
    customer_name = replaced a.customer_name o.customer_name;
    customer_phone = replaced a.customer_phone o.customer_phone;
    customer_contact = replaced a.customer_contact o.customer_contact;
    comment = replaced a.comment o.comment;
  };
}

module _ (go : GoText) (o : OrderMessage) (a : Changes) where
  -- The text of the date after the first answer.
  abbrev pub date_text : String
  date_text = replaced a.date (go.format_time date_layout o.order_date)

  -- The drafts at each step behind the first.
  abbrev at_location : Draft
  at_location = record (draft_of go o) { order_date = date_text; step = location }

  abbrev at_amount : Draft
  at_amount = record at_location { location = replaced a.location o.location; step = amount }

  abbrev at_customer_name : Draft
  at_customer_name = record at_amount { amount = replaced a.amount o.amount; step = customer_name }

  abbrev at_customer_phone : Draft
  at_customer_phone = record at_customer_name {
    customer_name = replaced a.customer_name o.customer_name;
    step = customer_phone;
  }

  abbrev at_customer_contact : Draft
  at_customer_contact = record at_customer_phone {
    customer_phone = replaced a.customer_phone o.customer_phone;
    step = customer_contact;
  }

  abbrev at_comment : Draft
  at_comment = record at_customer_contact {
    customer_contact = replaced a.customer_contact o.customer_contact;
    step = comment;
  }

  abbrev at_confirm : Draft
  at_confirm = record at_comment { comment = replaced a.comment o.comment; step = confirm }
