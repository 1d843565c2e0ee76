-- ===== src/Tests/Users.antt =====
-- Witnesses about the user service, on a store with one user.
use agency_bot.Base.{◌≡◌, true, none, [], str_eq, if◌then◌else◌}
use agency_bot.Effects.{ok, unauthorized, not_found, M, Err, Done, pure, throw}
use agency_bot.Effects.Laws.{Ends}
use agency_bot.User.Domain.{User, performer}
use agency_bot.User.App.{Service, authenticate}
use agency_bot.User.Login.{authenticate-Ends}

abbrev anna : User
anna = record {
  id = 5;
  login = "anna";
  password_hash = "hash of secret";
  full_name = "Anna";
  role = performer;
  is_active = true;
  telegram_id = none;
  permissions = [];
  created_at = 1;
  updated_at = 1;
}

abbrev done : M (Unit {0}) Err Done
done = pure tt

abbrev pub service : Service (Unit {0})
service = record {
  store = record {
    get = λ id. pure anna;
    by_login = λ login. if str_eq login "anna" then pure anna else throw not_found;
    by_telegram = λ id. throw not_found;
    list = λ n after. pure [];
    create = λ u. done;
    update_name = λ id name. done;
    set_permissions = λ id ps. done;
    set_active = λ id b. done;
    password = λ id h. done;
    bind_telegram = λ id telegram. done;
    create_telegram_link = λ h id t. done;
    redeem_telegram_link = λ h telegram. pure 5;
  };
  passwords = record { hash = λ raw. pure raw; verify = λ raw h. str_eq h "hash of secret" };
  new_token = pure "token";
  sha256 = λ s. s;
  new_uuid = pure 9;
  now = pure 100;
}

authenticate-Ends_example :
    Ends
      (λ u t'.
        (service.store.by_login "anna" tt ≡ (ok u, t'))
        × (u.is_active ≡ true)
        × (service.passwords.verify "secret" u.password_hash ≡ true))
      (λ e _. e ≡ unauthorized)
      (authenticate service "anna" "secret" tt)
authenticate-Ends_example = authenticate-Ends service "anna" "secret" tt
