-- ===== src/Tests/Processes.antt =====
-- Witnesses about the processes as cmd/ puts them together.
use agency_bot.Base.{
  ℕ, ◌+◌, ◌*◌, ◌/◌, ◌<◌, ◌^◌, ◌≡◌, refl, ℤ, pos, negsuc, String, append, true, false, Option, none,
  some, [], ◌∷◌, ◌++◌, arith, keep, map, trim_space, list_eq, if◌then◌else◌, List,
}
use agency_bot.Effects.{ok, err, unauthorized, World}
use agency_bot.Effects.Calm.{calm_world}
use agency_bot.Auth.{Claims, SigningMethod, hmac}
use agency_bot.Config
use agency_bot.Grpc.{Refusal}
use agency_bot.Config.{Environment}
use agency_bot.Commands.Access.{secret_of, serve-IsProtected}
use agency_bot.Commands.OrderService.Access.{OrderAccess}
use agency_bot.Commands.UserService.Access.{UserAccess}
use agency_bot.Commands.NotificationService.{
  Record, fetched, Consumer, Activity, polls, dispatches, run,
}
use agency_bot.Commands.NotificationService.Committed.{IsSound, IsBehindTaken, run-IsSound}
use agency_bot.Commands.OrderService
use agency_bot.Commands.OrderService.{get_order_history_call}
use agency_bot.Commands.Start.{runs, step}
use agency_bot.Commands.TelegramLinkToken.{Tools, Flags, cli_claims}
use agency_bot.Commands.TelegramLinkToken.Journey.{Bound, enrol-redeem}
use agency_bot.Commands.UserService
use agency_bot.Commands.UserService.{Platform, service, reset_password_call}
use agency_bot.Commands.UserService.Enrolment.{create-authenticate}
use agency_bot.Outbox
use agency_bot.Outbox.{message, is_pending}
use agency_bot.Outbox.Draining.{all_unlocked, run-Drains}
use agency_bot.Outbox.Queue.{queue}
use agency_bot.Event.{OutboxRow}
use agency_bot.User.App.{create, authenticate, is_acceptable, link_validity}
use agency_bot.User.Domain.{User, admin, default_permissions, valid_login}
use agency_bot.User.Password.{Bytes, costs}
use agency_bot.User.Repository.{order_texts}
use agency_bot.User.Tables.{Db}
use agency_bot.Tests.Sample.{externals, row, notifier, event, session}
use agency_bot.Tests.Requests.{server}
use agency_bot.Tests.Passwords.{argon}
use agency_bot.Tests.Tokens.{jwt}

abbrev clock : ℕ → ℕ
clock n = 100

abbrev uuids : ℕ → ℕ
uuids n = 1000 + n

run-Drains_example :
    (d' : List OutboxRow) × (k : ℕ) × (Outbox.run "orders.events" all_unlocked 0
        (calm_world clock uuids (row 31 9 ∷ row 32 5 ∷ []) [] 0)
      ≡ (
        ok tt,
        calm_world clock uuids d'
            ([] ++ map (message "orders.events") (queue (row 31 9 ∷ row 32 5 ∷ [])))
            k,
      ))
    × (keep is_pending d' ≡ [])
run-Drains_example =
    run-Drains clock uuids "orders.events" 0 (row 31 9 ∷ row 32 5 ∷ []) [] 0 refl (omega arith)

abbrev platform : Platform
platform = record {
  lib = externals;
  argon = argon;
  random = λ n. n ∷ [];
  token_text = λ b. "code";
  sha256 = λ s. append "hash of " s;
}

abbrev nobody : Db
nobody = record { users = []; permissions = []; links = []; outbox = [] }

abbrev start : World Db (Unit {0})
start = calm_world clock uuids nobody tt 0

acceptable :
    is_acceptable
      (service {X = Unit {0}} platform)
      (trim_space " anna ")
      "long password"
      (trim_space "Anna")
      admin
    ≡ true
unfolding trim_space valid_login
acceptable = refl

create-authenticate_example :
    (u : User) × (w : World Db (Unit {0})) × (salt : Bytes) × (create
        (service platform)
        " anna "
        "long password"
        "Anna"
        admin
        start
      ≡ (ok u, w))
    × (u.login ≡ trim_space " anna ")
    × (u.full_name ≡ trim_space "Anna")
    × (u.role ≡ admin)
    × (u.is_active ≡ true)
    × (u.permissions ≡ order_texts externals (default_permissions admin))
    × ((authenticate (service platform) (trim_space " anna ") "guess" w).0 ≡ (
        if list_eq (argon.id_key "guess" salt costs 32) (argon.id_key "long password" salt costs 32)
        then ok u
        else err unauthorized))
create-authenticate_example =
    create-authenticate tt clock uuids platform " anna " "long password" "Anna" "guess" admin nobody
      0 acceptable (λ k. (refl, refl, refl))

abbrev nothing_set : Environment
nothing_set key = ""

abbrev started : UserService.Startup
started = record { pool = none; ping = none; listen = none }

abbrev user_wiring : UserService.Wiring
user_wiring = record { config = Config.user nothing_set; is_public = UserService.public_methods }

abbrev order_started : OrderService.Startup
order_started = record { pool = none; ping = none; user_client = none; listen = none }

abbrev order_wiring : OrderService.Wiring
order_wiring = record { config = Config.order nothing_set; is_public = λ m. false }

user_runs : UserService.start nothing_set started ≡ runs user_wiring
unfolding UserService.start step
user_runs = refl

order_runs : OrderService.start nothing_set order_started ≡ runs order_wiring
unfolding OrderService.start step
order_runs = refl

abbrev authorization : Option (List String)
authorization = some ("Bearer token" ∷ [])

serve-IsProtected_example :
    OrderAccess externals server jwt
      (secret_of nothing_set)
      authorization
      (get_order_history_call "u")
      session
      (OrderService.serve externals server jwt order_wiring authorization
        (get_order_history_call "u")
        session)
    × UserAccess platform jwt
        (secret_of nothing_set)
        authorization
        start
        (reset_password_call "u" "new password")
        (UserService.serve externals
          (service platform)
          jwt
          user_wiring
          authorization
          (reset_password_call "u" "new password")
          start)
serve-IsProtected_example =
    serve-IsProtected externals server platform jwt nothing_set nothing_set order_started started
      order_wiring user_wiring authorization (get_order_history_call "u")
      (reset_password_call "u" "new password") session start order_runs user_runs

abbrev answer : Option String → Option Claims
answer none = none
answer (some key) = some cli_claims

no_key :
    (key : SigningMethod → Option String) (token : String)
    → key hmac ≡ none
    → answer (key hmac) ≡ none
no_key key token e = rw e refl

abbrev whole_seconds : ℤ → ℕ
whole_seconds (pos n) = n / 1000000000
whole_seconds (negsuc n) = 0

seconds-whole : (n : ℕ) → n < 2 ^ 32 → whole_seconds (pos (n * 1000000000)) ≡ n
seconds-whole n h = omega arith

abbrev tools : Tools
tools = record {
  jwt = record {
    method = λ token. hmac;
    parse = λ key token. answer (key hmac);
    parse-no_key = no_key;
  };
  sign = λ secret claims. "token";
  parse-sign = λ secret. refl;
  seconds = whole_seconds;
  seconds-whole = seconds-whole;
}

abbrev flags : Flags
flags = record {
  user_id = "";
  login = " anna ";
  full_name = "Anna";
  password = "long password";
  expires_in = pos 900000000000;
}

abbrev text_of : Refusal → String
text_of r = r.message

valid : link_validity (pos (whole_seconds flags.expires_in * 1000000000)) ≡ some 900000000000
unfolding link_validity
valid = refl

enrol-redeem_example :
    Bound tt clock uuids platform tools text_of nothing_set user_wiring flags (pos 77) start
enrol-redeem_example =
    enrol-redeem tt clock uuids platform tools text_of nothing_set started user_wiring flags nobody
      0 900000000000 (pos 77) user_runs refl acceptable (λ k. (refl, refl, refl))
      ((λ j k h. ground (arith, h)), λ k. ground arith) (λ k. (refl, refl)) valid
      (λ j i. omega arith) refl refl

abbrev message_record : Record
message_record = record { topic = "orders.events"; partition = 0; offset = 4; value = some event }

abbrev consumer : Consumer
consumer = record { notifier = notifier; commits = [] }

abbrev day : List Activity
day = polls (fetched (message_record ∷ [])) ∷ dispatches ∷ []

run-IsSound_example :
    ((run externals day consumer).0 ≡ ok tt)
    × IsSound (run externals day consumer).1
    × IsBehindTaken (run externals day consumer).1
run-IsSound_example = run-IsSound externals day consumer tt
