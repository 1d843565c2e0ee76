-- ===== src/Tests/Chats.antt =====
-- Witnesses about the bot, in a chat of one account where no call fails.
use agency_bot.Base.{
  ℤ, pos, ◌≡◌, refl, String, true, Option, none, some, [], ◌∷◌, str_eq, trim_space, split_on,
  if◌then◌else◌, inr,
}
use agency_bot.Effects.{M, Done, pure, throw, ok, ◌>>=◌, attempt}
use agency_bot.User.Transport.{UserMessage, role_admin, role_performer}
use agency_bot.Order.Transport.{OrderMessage, status_planned}
use agency_bot.Bot.Drafts.{Draft, new_draft, order_kind, date}
use agency_bot.Bot.Clients.{Clients, GoText, Message}
use agency_bot.Bot.Service.{claims_of, has_permission}
use agency_bot.Bot.Orders.{after_create}
use agency_bot.Bot.Commands.{handle, poll}
use agency_bot.Bot.Polling.{poll-ok}
use agency_bot.Bot.Logins.{AreNamed}
use agency_bot.Bot.Guards.{is_order, is_user, is_edit, is_allowed, limited, handle-IsAllowed}
use agency_bot.Bot.Conversation.{Reliable, IsAnswer, tell}
use agency_bot.Bot.Conversation.Creating
use agency_bot.Bot.Conversation.Creating.{Answers, creating_lem}
use agency_bot.Bot.Conversation.Editing
use agency_bot.Bot.Conversation.Editing.{Changes}
use agency_bot.Bot.Conversation.Hiring
use agency_bot.Bot.Conversation.Hiring.{hiring_lem}

-- The draft of the account, and the last message that it got.
record Chat : Type 0 where
  draft : Option Draft
  last : String

abbrev saved : ℤ → Draft → Chat → Chat
saved t d s = record s { draft = some d }

abbrev sent : ℤ → String → Chat → Chat
sent chat text s = record s { last = text }

abbrev day : String
day = "01.02.2026 10:00"

abbrev go : GoText
go = record {
  parse_time = λ layout text. if str_eq text day then some 7 else none;
  format_time = λ layout t. day;
  to_lower = λ text. text;
  quoted = λ text. text;
  encode_url = λ raw. "password";
}

abbrev anna : UserMessage
anna = record {
  id = "u5";
  login = "anna";
  full_name = "Anna";
  role = role_performer;
  is_active = true;
  telegram_id = some (pos 55);
  permissions = "ORDER_CREATE" ∷ "ORDER_UPDATE" ∷ "USER_CREATE" ∷ [];
  created_at = 1;
  updated_at = 1;
}

abbrev shown : OrderMessage
shown = record {
  id = "o1";
  order_date = 7;
  location = "Riga";
  amount = "10.00";
  customer_name = "Boris";
  customer_phone = "1";
  customer_contact = "";
  comment = "";
  status = status_planned;
  created_by = "u5";
  updated_by = "u5";
  version = pos 3;
  performer_ids = [];
  created_at = 1;
  updated_at = 1;
}

abbrev hello : Message
hello = record { text = "/help"; chat = pos 9; sender = pos 55 }

abbrev clients : Clients Chat
clients = record {
  authenticate = λ l p. throw "unauthorized";
  get_user_by_telegram_id = λ claims t. pure (some anna);
  list_users = λ claims n. pure (anna ∷ []);
  create_user = λ claims r. pure tt;
  bind_telegram = λ claims id t. throw "conflict";
  get_order = λ claims id. pure (some shown);
  create_order = λ claims r. pure shown;
  update_order = λ claims r. pure tt;
  list_performer_orders = λ claims r. pure [];
  list_orders = λ claims r. pure [];
  send = λ chat text s. (ok tt, sent chat text s);
  updates = λ offset. pure (record { id = pos 41; message = some hello } ∷ []);
  load = λ t s. (ok s.draft, s);
  save = λ t d s. (ok tt, saved t d s);
  delete = λ t s. (ok tt, record s { draft = none });
  random_bytes = λ n. pure (1 ∷ []);
}

abbrev reliable : Reliable clients
reliable = record {
  view = λ s t. s.draft;
  saved = saved;
  sent = sent;
  load-ok = λ t s. refl;
  save-ok = λ t d s. refl;
  send-ok = λ chat text s. refl;
  view-saved = λ t d s. refl;
  view-sent = λ t chat text s. refl;
}

poll-ok_example : (poll go clients (pos 3) (record { draft = none; last = "" })).0 ≡ ok (pos 42)
poll-ok_example = poll-ok go clients (pos 3) (record { draft = none; last = "" })

abbrev new_order : Chat
new_order = record { draft = some (new_draft order_kind date); last = "" }

abbrev fresh : Chat
fresh = record { draft = none; last = "" }

abbrev refuse : {A : Type 0} → M Chat String A
refuse = throw "not asked"

abbrev confirmation : Message
confirmation = record { text = "/confirm"; chat = pos 9; sender = pos 55 }

handle-IsAllowed_example :
    handle go clients confirmation new_order
    ≡ handle go
        (limited clients
          (is_allowed clients is_order "ORDER_CREATE" confirmation new_order)
          (is_allowed clients is_user "USER_CREATE" confirmation new_order)
          (is_allowed clients is_edit "ORDER_UPDATE" confirmation new_order)
          (λ claims r. refuse)
          (λ claims r. refuse)
          (λ claims r. refuse))
        confirmation
        new_order
handle-IsAllowed_example =
    handle-IsAllowed go clients (λ claims r. refuse) (λ claims r. refuse) (λ claims r. refuse)
      confirmation new_order

abbrev answers : Answers
answers = record {
  date = " 01.02.2026 10:00";
  location = "Riga";
  amount = "10.00";
  customer_name = "Boris";
  customer_phone = "1";
  customer_contact = "-";
  comment = "-";
  performers = "anna";
}

can_create : has_permission anna.permissions "ORDER_CREATE" ≡ true
unfolding has_permission
can_create = refl

can_hire : has_permission anna.permissions "USER_CREATE" ≡ true
unfolding has_permission
can_hire = refl

parsed : go.parse_time "02.01.2006 15:04" (trim_space " 01.02.2026 10:00") ≡ some 7
unfolding trim_space
parsed = refl

are_answers : Creating.AreAnswers answers
unfolding trim_space
are_answers = (
  (refl, refl),
  (refl, refl),
  (refl, refl),
  (refl, refl),
  (refl, refl),
  (refl, refl),
  (refl, refl),
  (refl, refl),
)

are_user : IsAnswer "boris" × IsAnswer "Boris" × IsAnswer "admin"
unfolding trim_space
are_user = ((refl, refl), (refl, refl), (refl, refl))

found : AreNamed go (anna ∷ []) (trim_space "anna") ("u5" ∷ [])
unfolding trim_space split_on
found = inr (refl, ((refl, ((λ e. refl), tt)), tt))

abbrev confirm : M Chat String Done
confirm = handle go clients confirmation

creating_lem_example :
    (s' : Chat) × (tell go clients (pos 9) (pos 55) ("/neworder" ∷ Creating.texts answers) fresh
      ≡ (ok tt, s'))
    × (confirm s'
        ≡ (attempt (clients.create_order (claims_of anna) (Creating.wanted answers 7 ("u5" ∷ [])))
              >>= after_create go clients (pos 9) (pos 55))
            s')
creating_lem_example =
    creating_lem go clients reliable (pos 9) (pos 55) answers 7 (anna ∷ []) ("u5" ∷ []) anna fresh
      parsed (λ s. refl) found (λ s. refl) can_create are_answers refl

abbrev changes : Changes
changes = record {
  date = "-";
  location = "-";
  amount = "12.00";
  customer_name = "-";
  customer_phone = "-";
  customer_contact = "-";
  comment = "-";
}

role_found : Hiring.role_of (go.to_lower (trim_space "admin")) ≡ some role_admin
unfolding trim_space
role_found = refl

hiring_lem_example :
    (s' : Chat) × (tell go clients
        (pos 9)
        (pos 55)
        ("/newuser" ∷ "boris" ∷ "Boris" ∷ "admin" ∷ [])
        fresh
      ≡ (ok tt, s'))
    × (confirm s'
        ≡ Hiring.created go clients
            (pos 9)
            (pos 55)
            anna
            (Hiring.wanted "boris" "Boris" role_admin)
            s')
hiring_lem_example =
    hiring_lem go clients reliable (pos 9) (pos 55) "boris" "Boris" "admin" role_admin anna fresh
      role_found (λ s. refl) can_hire are_user refl
