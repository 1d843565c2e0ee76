-- ===== src/Notification.antt =====
-- internal/notification/service.go: events become notifications once, and a dispatcher sends them.
pub mod Adding
pub mod Added
pub mod Dedup
pub mod Sending
use agency_bot.Base.{
  ℕ, zero, suc, ℤ, ◌+◌, ◌==◌, String, Bool, true, false, not, ◌&&◌, ◌||◌, Option, none, some, List,
  [], ◌∷◌, ◌++◌, keep, take, any, find_first, str_eq, starts_with, is_empty, if◌then◌else◌, map,
}
use agency_bot.Effects.{
  Err, other, Result, ok, err, Done, M, ◌>>=◌, ◌>>◌, pure, throw, guard, for_each, on_error, World,
  now, new_uuid, error_of, err_text, exec, query, call, ignore, transact,
}
use mathlib.Core.Option
use agency_bot.Sql.{order_by, update_where, count_where}
use agency_bot.Externals.{Uuid, nil_uuid, Externals}
use agency_bot.Json.{Json, null, bool, int, text, arr, obj, Items, nil, cons, Fields, get_field}

-- `envelope`: what is read of an event; the content is absent where the event has no `data`.
pub record Incoming : Type 0 where
  pub event_id : Uuid
  pub event_type : String
  pub content : Option Json

-- `status` of a notification; the code writes no FAILED.
pub data Delivery : Type 0 where
  pending sent : Delivery

-- A row of `notifications`; the channel is always TELEGRAM.
pub record Notification : Type 0 where
  pub id : Uuid
  pub event_id : Uuid
  pub recipient_id : Uuid
  pub delivery : Delivery
  pub error_message : Option String
  pub created_at : ℕ
  pub sent_at : Option ℕ
  pub attempts : ℕ

-- A row of `notification_recipients`.
pub record Recipient : Type 0 where
  pub user_id : Uuid
  pub telegram_id : Option ℤ
  pub is_active : Bool
  pub updated_at : ℕ

-- The tables of migrations/notifications.
pub record Db : Type 0 where
  pub recipients : List Recipient
  pub processed : List Uuid
  pub notifications : List Notification

-- A message to a chat.
pub record Sent : Type 0 where
  pub chat : ℤ
  pub body : String

-- The service: its database, and the messages that Telegram has taken, oldest first.
abbrev pub Notifier : Type 0
Notifier = World Db (List Sent)

-- `json.Unmarshal` into a `uuid.UUID`: a text that parses; null leaves the zero value.
unfoldable pub read_uuid : Externals → Json → Option Uuid
read_uuid lib (text s) = lib.parse s
read_uuid lib null = some nil_uuid
read_uuid lib (bool b) = none
read_uuid lib (int n) = none
read_uuid lib (arr xs) = none
read_uuid lib (obj fs) = none

unfoldable pub read_items : Externals → Items → Option (List Uuid)
read_items lib nil = some []
read_items lib (cons x xs) =
    let rest = read_items lib xs in
    elim (read_uuid lib x) [
      | none ↦ none
      | some u ↦ elim rest [ none ↦ none | some us ↦ some (u ∷ us) ]
    ]

-- `json.Unmarshal` into a `[]uuid.UUID`.
unfoldable pub read_uuids : Externals → Json → Option (List Uuid)
read_uuids lib (arr xs) = read_items lib xs
read_uuids lib null = some []
read_uuids lib (bool b) = none
read_uuids lib (int n) = none
read_uuids lib (text s) = none
read_uuids lib (obj fs) = none

-- `json.Unmarshal` into a `map[string]json.RawMessage`.
unfoldable pub read_object : Json → Option Fields
read_object (obj fs) = some fs
read_object null = some Fields.end
read_object (bool b) = none
read_object (int n) = none
read_object (text s) = none
read_object (arr xs) = none

-- `json.Unmarshal` into a `*int64`; the outer option is the error.
unfoldable pub read_telegram : Json → Option (Option ℤ)
read_telegram (int n) = some (some n)
read_telegram null = some none
read_telegram (bool b) = none
read_telegram (text s) = none
read_telegram (arr xs) = none
read_telegram (obj fs) = none

-- `json.Unmarshal` into a `bool`.
unfoldable pub read_bool : Json → Option Bool
read_bool (bool b) = some b
read_bool null = some false
read_bool (int n) = none
read_bool (text s) = none
read_bool (arr xs) = none
read_bool (obj fs) = none

-- A value that is absent or that does not parse is an error.
unfoldable pub parsed : {S A : Type 0} → Option A → M S Err A
parsed none = throw (other "json: cannot unmarshal")
parsed (some a) = pure a

-- `INSERT INTO processed_events(event_id) VALUES($1) ON CONFLICT DO NOTHING`
unfoldable pub insert_processed : Uuid → Db → Result Err (ℕ × Db)
insert_processed id d =
    if any (λ e. e == id) d.processed
    then ok (0, d)
    else ok (1, record d { processed = d.processed ++ (id ∷ []) })

abbrev pub is_user : Uuid → Recipient → Bool
is_user id r = r.user_id == id

-- `INSERT INTO notification_recipients(user_id,is_active) VALUES($1,true) ON CONFLICT DO NOTHING`
unfoldable pub insert_recipient : Uuid → ℕ → Db → Result Err (ℕ × Db)
insert_recipient id t d =
    if any (is_user id) d.recipients
    then ok (0, d)
    else ok (
      1,
      record d {
        recipients =
            d.recipients
            ++ (record { user_id = id; telegram_id = none; is_active = true; updated_at = t } ∷ []);
      },
    )

abbrev pub update_recipients : (Recipient → Recipient) → Uuid → Db → Result Err (ℕ × Db)
update_recipients f id d = ok (
  count_where (is_user id) d.recipients,
  record d { recipients = update_where (is_user id) f d.recipients },
)

-- `UPDATE notification_recipients SET telegram_id=$2,updated_at=now() WHERE user_id=$1`
unfoldable pub set_telegram : Option ℤ → Uuid → ℕ → Db → Result Err (ℕ × Db)
set_telegram tg id t = update_recipients (λ r. record r { telegram_id = tg; updated_at = t }) id

-- `UPDATE notification_recipients SET is_active=$2,updated_at=now() WHERE user_id=$1`
unfoldable pub set_active : Bool → Uuid → ℕ → Db → Result Err (ℕ × Db)
set_active active id t = update_recipients (λ r. record r { is_active = active; updated_at = t }) id

abbrev pub is_for : Uuid → Uuid → Notification → Bool
is_for event recipient n = n.event_id == event && n.recipient_id == recipient

-- The row that `createNotifications` inserts.
abbrev pub new_notification : Uuid → Uuid → Uuid → ℕ → Notification
new_notification id event recipient t = record {
  id = id;
  event_id = event;
  recipient_id = recipient;
  delivery = pending;
  error_message = none;
  created_at = t;
  sent_at = none;
  attempts = 0;
}

-- `INSERT INTO notifications(…) VALUES(…) ON CONFLICT(event_id,recipient_id) DO NOTHING`
unfoldable pub insert_notification : Notification → Db → Result Err (ℕ × Db)
insert_notification n d =
    if any (is_for n.event_id n.recipient_id) d.notifications
    then ok (0, d)
    else (if any (λ m. m.id == n.id) d.notifications
        then err (other "ERROR: duplicate key value violates unique constraint")
        else ok (1, record d { notifications = d.notifications ++ (n ∷ []) }))

-- The part of `syncRecipient` for a field that may be absent.
unfoldable pub sync_field :
    {A : Type 0}
    → (Json → Option A)
    → (A → Uuid → ℕ → Db → Result Err (ℕ × Db))
    → Uuid
    → ℕ
    → Option Json
    → M Notifier Err Done
sync_field read write id t none = pure tt
sync_field read write id t (some raw) = do
  a ← parsed (read raw)
  exec (write a id t) >>= λ _. pure tt

-- `err != nil || userID == uuid.Nil`
unfoldable pub user_of : Externals → Fields → Option Uuid
user_of lib values = elim (get_field "user_id" values) [
  | none ↦ none
  | some raw ↦ elim (read_uuid lib raw) [
    | none ↦ none
    | some id ↦ if id == nil_uuid then none else some id
  ]
]

unfoldable pub with_content : Option Json → M Notifier Err Fields
with_content none = throw (other "unexpected end of JSON input")
with_content (some content) = parsed (read_object content)

-- One round of the loop of `createNotifications`.
unfoldable pub notify : Uuid → ℕ → Uuid → M Notifier Err Done
notify event t recipient = do
  id ← new_uuid
  exec (insert_notification (new_notification id event recipient t)) >>= λ _. pure tt

-- The list `recipients` of `createNotifications`, from the fields `performer_ids` and
-- `performer_id`: the first that is there decides.
unfoldable pub recipients_from : Externals → Option Json → Option Json → M Notifier Err (List Uuid)
recipients_from lib (some raw) single = parsed (read_uuids lib raw)
recipients_from lib none (some raw) = parsed (Option.map (λ u. u ∷ []) (read_uuid lib raw))
recipients_from lib none none = pure []

module _ (lib : Externals) where
  -- `syncRecipient`
  unfoldable pub sync_recipient : Option Json → ℕ → M Notifier Err Done
  sync_recipient content t = do
    values ← with_content content
    id ← parsed (user_of lib values)
    exec (insert_recipient id t) >>= λ _.
        sync_field read_telegram set_telegram id t (get_field "telegram_id" values)
        >> sync_field read_bool set_active id t (get_field "is_active" values)

  -- `createNotifications`
  unfoldable pub create_notifications : Incoming → ℕ → M Notifier Err Done
  create_notifications event t = do
    values ← with_content event.content
    recipients ←
        recipients_from lib (get_field "performer_ids" values) (get_field "performer_id" values)
    for_each recipients (notify event.event_id t)

  -- The branches on the type of the event.
  unfoldable pub handle : Incoming → ℕ → M Notifier Err Done
  handle event t =
      if starts_with event.event_type "user."
      then sync_recipient event.content t
      else (if starts_with event.event_type "order." then create_notifications event t else pure tt)

  -- The body of the transaction of `Process`.
  unfoldable pub process_once : Incoming → ℕ → M Notifier Err Done
  process_once event t = do
    rows ← exec (insert_processed event.event_id)
    if rows == 0 then pure tt else handle event t

  -- `Process`, of a value that decodes to `event`, or to none.
  unfoldable pub process : Option Incoming → M Notifier Err Done
  process none = throw (other "decode event")
  process (some event) = do
    guard (not (event.event_id == nil_uuid || is_empty event.event_type))
        (other "event id and type are required")
    transact (process_once event)

-- `SELECT n.id,n.event_id,r.telegram_id FROM … WHERE … ORDER BY n.created_at LIMIT 50`: for each
-- pending notification the chat of its recipient, if there is one who is active.
unfoldable pub chat_of : List Recipient → Notification → Option ℤ
chat_of [] n = none
chat_of (r ∷ rs) n =
    let rest = chat_of rs n in
    if r.user_id == n.recipient_id && r.is_active then r.telegram_id else rest

abbrev pub is_pending : Notification → Bool
is_pending n = elim n.delivery [ pending ↦ true | sent ↦ false ]

unfoldable pub with_chats : List Recipient → List Notification → List (Uuid × ℤ)
with_chats rs [] = []
with_chats rs (n ∷ ns) = elim (chat_of rs n) [
  | none ↦ with_chats rs ns
  | some chat ↦ (n.id, chat) ∷ with_chats rs ns
]

unfoldable pub select_due : Db → List (Uuid × ℤ)
select_due d =
    take 50
      (with_chats d.recipients (order_by (λ n. n.created_at) (keep is_pending d.notifications)))

abbrev pub is_notification : Uuid → Notification → Bool
is_notification id n = n.id == id

-- `UPDATE notifications SET status='SENT',sent_at=now(),attempts=attempts+1,error_message=NULL …`
unfoldable pub mark_sent : Uuid → ℕ → Db → Result Err (ℕ × Db)
mark_sent id t d = ok (
  count_where (is_notification id) d.notifications,
  record d {
    notifications =
        update_where (is_notification id)
          (λ n. record n {
            delivery = sent;
            sent_at = some t;
            attempts = n.attempts + 1;
            error_message = none;
          })
          d.notifications;
  },
)

-- `UPDATE notifications SET attempts=attempts+1,error_message=$2 WHERE id=$1`
unfoldable pub mark_failed : Uuid → String → Db → Result Err (ℕ × Db)
mark_failed id message d = ok (
  count_where (is_notification id) d.notifications,
  record d {
    notifications =
        update_where (is_notification id)
          (λ n. record n { attempts = n.attempts + 1; error_message = some message })
          d.notifications;
  },
)

-- `TelegramClient.Send`
unfoldable pub send : ℤ → String → M Notifier Err Done
send chat body =
    call >> λ w. (ok tt, record w { ext = w.ext ++ (record { chat = chat; body = body } ∷ []) })

abbrev pub notice : String
notice = "У вас новое изменение по заказу. Откройте /orders для просмотра."

-- One round of the loop of `Dispatch`.
unfoldable pub send_due : Uuid × ℤ → M Notifier Err Done
send_due (id, chat) = do
  failure ← error_of (send chat notice)
  elim failure [
    | some e ↦ ignore (exec (mark_failed id (err_text e)))
    | none ↦ now >>= λ t. exec (mark_sent id t) >>= λ _. pure tt
  ]

-- `Dispatch`
unfoldable pub dispatch : M Notifier Err Done
dispatch = query select_due >>= λ due. for_each due send_due

-- `RunDispatcher`, which only logs the error of `Dispatch`: a round, and one more after each tick that
-- comes before the context is done.
unfoldable pub dispatch_round : M Notifier Err Done
dispatch_round = on_error dispatch λ e. pure tt

unfoldable pub run_dispatcher : ℕ → M Notifier Err Done
run_dispatcher zero = dispatch_round
run_dispatcher (suc n) = dispatch_round >> run_dispatcher n
