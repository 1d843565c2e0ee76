-- ===== src/Tests/Sample.antt =====
-- Sample data: code outside the repository that keeps what is assumed of it, and small databases.
use agency_bot.Base.{
  ℕ, zero, suc, ◌+◌, pos, ◌≡◌, refl, ap, String, true, Option, none, some, [], ◌∷◌, ltb, leb,
  if◌then◌else◌,
}
use agency_bot.Effects.{Env}
use agency_bot.Externals.{Uuid, Externals}
use agency_bot.Json.{text, arr, obj, nil, cons, end, field}
use agency_bot.Event.{OutboxRow}
use agency_bot.Order.Domain.{planned, Order}
use agency_bot.Order.Tables.{OrderRow, Db}
use agency_bot.Order.Repository.{scan}
use agency_bot.Order.Lifecycle.{Session}
use agency_bot.Outbox.{Worker}
use agency_bot.Notification.{Incoming, Notifier}

-- An identifier as that many letters behind a first one.
abbrev tail : ℕ → String
tail zero = ""
tail (suc n) = String.◌∷◌ "x" (tail n)

abbrev size : String → ℕ
size String.[] = 0
size (String.◌∷◌ c s) = suc (size s)

abbrev parse_letters : String → Option Uuid
parse_letters String.[] = none
parse_letters (String.◌∷◌ c s) = some (size s)

abbrev pub letters : ℕ → String
letters n = String.◌∷◌ "u" (tail n)

size-tail : (n : ℕ) → size (tail n) ≡ n
size-tail zero = refl
size-tail (suc n) = ap suc (size-tail n)

pub parse-letters : (n : ℕ) → parse_letters (letters n) ≡ some n
parse-letters n = ap some (size-tail n)

abbrev pub externals : Externals
externals = record {
  to_string = letters;
  parse = parse_letters;
  parse-to_string = parse-letters;
  text_above = λ s t. ltb (size t) (size s);
  cast_numeric = λ s. some s;
  is_positive = λ s. true;
}

-- Nothing fails, and every identifier that is drawn is new.
abbrev pub calm : Env
calm = record { clock = λ n. 100 + n; uuids = λ n. 1000 + n; faults = λ n. none }

-- Every call from the n-th on fails.
abbrev pub failing_from : ℕ → Env
failing_from n = record calm { faults = λ k. if leb n k then some "timeout" else none }

abbrev pub stored : OrderRow
stored = record {
  id = 7;
  order_date = 50;
  location = "Riga";
  amount = "10.00";
  customer_name = "Anna";
  customer_phone = "1";
  customer_contact = "";
  comment = "";
  status = planned;
  created_by = 3;
  updated_by = 4;
  version = pos 1;
  created_at = 1;
  updated_at = 1;
}

abbrev pub db : Db
db = record { orders = stored ∷ []; performers = []; history = []; outbox = [] }

abbrev pub session : Session
session = record { db = db; ext = tt; env = calm; step = 0 }

-- The order as a request reads it, and one that is not stored yet.
abbrev pub order : Order
order = scan stored []

abbrev pub new_order : Order
new_order = record order { id = 8; created_by = 4; performer_ids = 5 ∷ 6 ∷ [] }

abbrev pub row : Uuid → ℕ → OutboxRow
row id at = record {
  id = id;
  aggregate_id = 7;
  event_type = "order.updated";
  payload = record {
    event_id = id;
    event_type = "order.updated";
    event_version = 1;
    aggregate_id = 7;
    occurred_at = at;
    producer = "order-service";
    content = obj end;
  };
  created_at = at;
  published_at = none;
  attempts = 0;
}

-- Two pending events, the later one first; the broker goes away after the first is sent.
abbrev pub worker : Worker
worker = record { db = row 31 9 ∷ row 32 5 ∷ []; ext = []; env = failing_from 5; step = 0 }

abbrev pub event : Incoming
event = record {
  event_id = 21;
  event_type = "order.created";
  content = some (obj (field "performer_ids" (arr (cons (text (letters 5)) nil)) end));
}

abbrev pub notifier : Notifier
notifier = record {
  db = record {
    recipients =
        record { user_id = 5; telegram_id = some (pos 55); is_active = true; updated_at = 1 } ∷ [];
    processed = [];
    notifications = [];
  };
  ext = [];
  env = calm;
  step = 0;
}
