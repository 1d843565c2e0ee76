-- ===== src/User/Repository.antt =====
-- internal/user/repository/postgres.go: the methods of `Repository`.
pub mod Announcements
pub mod Writes
pub mod Permissions
pub mod Redeem
pub mod Lists
pub mod Pages
pub mod Inserts
pub mod Success
pub mod LinkSuccess
use agency_bot.Base.{
  ℕ, ℤ, pos, negsuc, ltb, ◌==◌, String, Bool, not, ◌||◌, Option, none, some, List, [], ◌∷◌, map,
  keep, find_first, take, is_empty, str_eq, if◌then◌else◌,
}
use agency_bot.Effects.{
  Err, not_found, Done, M, ◌>>=◌, ◌>>◌, pure, throw, guard, for_each, World, now, new_uuid, exec,
  query, transact,
}
use agency_bot.Sql.{order_by}
use agency_bot.Externals.{Uuid, Externals}
use agency_bot.Json.{Json, null, bool, int, text, arr, obj, end, field, texts}
use agency_bot.Event.{OutboxRow}
use agency_bot.User.App.{Store}
use agency_bot.User.Domain.{User}
use agency_bot.User.Tables.{
  UserRow, PermissionRow, Db, Affected, is_telegram, is_user, insert_user, insert_permission,
  delete_permissions, update_user, renamed, activated, rehashed, touched, bind_user, insert_link,
  select_link, use_link, insert_outbox,
}

-- The user that `find` scans from a row and from the rows of its permissions.
abbrev pub scan : UserRow → List String → User
scan r ps = record {
  id = r.id;
  login = r.login;
  password_hash = r.password_hash;
  full_name = r.full_name;
  role = r.role;
  is_active = r.is_active;
  telegram_id = r.telegram_id;
  permissions = ps;
  created_at = r.created_at;
  updated_at = r.updated_at;
}

-- The limit that `List` gives to the database.
unfoldable pub clamp_limit : ℤ → ℕ
clamp_limit (pos n) = if ltb n 1 || ltb 100 n then 50 else n
clamp_limit (negsuc n) = 50

-- A row that is not there is `pgx.ErrNoRows`.
unfoldable pub or_not_found : {S A : Type 0} → Option A → M S Err A
or_not_found none = throw not_found
or_not_found (some a) = pure a

-- A pointer to a number as JSON.
abbrev pub int_or_null : Option ℤ → Json
int_or_null none = null
int_or_null (some n) = int n

-- A slice of texts as JSON; a request without permissions has a nil slice, which is null.
unfoldable pub texts_json : List String → Json
texts_json [] = null
texts_json (p ∷ ps) = arr (texts (p ∷ ps))

-- The row that `withEvent` and `RedeemTelegramLink` insert.
abbrev pub outbox_row : Uuid → Uuid → ℕ → ℕ → Uuid → String → Json → OutboxRow
outbox_row row_id event_id at t id typ content = record {
  id = row_id;
  aggregate_id = id;
  event_type = typ;
  payload = record {
    event_id = event_id;
    event_type = typ;
    event_version = 1;
    aggregate_id = id;
    occurred_at = at;
    producer = "user-service";
    content = content;
  };
  created_at = t;
  published_at = none;
  attempts = 0;
}

module _ (lib : Externals) where
  -- `ORDER BY permission_code`
  insert_text : String → List String → List String
  insert_text p [] = p ∷ []
  insert_text p (q ∷ qs) = if lib.text_above p q then q ∷ insert_text p qs else p ∷ q ∷ qs

  unfoldable pub order_texts : List String → List String
  unfolding insert_text
  order_texts [] = []
  order_texts (p ∷ ps) = insert_text p (order_texts ps)

  -- `SELECT permission_code FROM user_permissions WHERE user_id=$1 ORDER BY permission_code`
  unfoldable pub permissions_of : Uuid → List PermissionRow → List String
  permissions_of id rows = order_texts (map (λ r. r.code) (keep (λ r. r.user_id == id) rows))

  -- `SELECT id FROM users WHERE ($1='' OR id::text>$1) ORDER BY id LIMIT $2`
  unfoldable pub select_ids : ℕ → String → Db → List Uuid
  select_ids limit after d = take limit (
      map (λ r. r.id)
        (order_by (λ r. r.id)
          (keep (λ r. is_empty after || lib.text_above (lib.to_string r.id) after) d.users)))

-- The data of the events.
module _ (lib : Externals) where
  abbrev pub created_content : User → Json
  created_content u = obj (
      field "user_id" (text (lib.to_string u.id)) (
        field "telegram_id" (int_or_null u.telegram_id) (field "is_active" (bool u.is_active) end)))

  abbrev pub user_content : Uuid → Json
  user_content id = obj (field "user_id" (text (lib.to_string id)) end)

  abbrev pub name_content : Uuid → String → Json
  name_content id name =
      obj (field "user_id" (text (lib.to_string id)) (field "full_name" (text name) end))

  abbrev pub permissions_content : Uuid → List String → Json
  permissions_content id ps =
      obj (field "user_id" (text (lib.to_string id)) (field "permissions" (texts_json ps) end))

  abbrev pub active_content : Uuid → Bool → Json
  active_content id b =
      obj (field "user_id" (text (lib.to_string id)) (field "is_active" (bool b) end))

  abbrev pub telegram_content : Uuid → ℤ → Json
  telegram_content id telegram =
      obj (field "user_id" (text (lib.to_string id)) (field "telegram_id" (int telegram) end))

module _ {X : Type 0} where
  -- The event that `withEvent` and `RedeemTelegramLink` write at the end of their transactions.
  unfoldable pub write_event : ℕ → Uuid → String → Json → M (World Db X) Err Done
  write_event t id typ content = do
    event_id ← new_uuid
    at ← now
    row_id ← new_uuid
    exec (insert_outbox (outbox_row row_id event_id at t id typ content)) >>= λ _. pure tt

  -- `withEvent`
  unfoldable pub with_event :
      Uuid → String → Json → (ℕ → M (World Db X) Err Done) → M (World Db X) Err Done
  with_event id typ content fn = transact λ t. fn t >> write_event t id typ content

  -- The body of `mutate`: one statement that must find a row.
  unfoldable pub exec_one : (Db → Affected) → M (World Db X) Err Done
  exec_one stmt = exec stmt >>= λ rows. guard (not (rows == 0)) not_found

  -- `mutate`
  unfoldable pub mutate : Uuid → String → Json → (ℕ → Db → Affected) → M (World Db X) Err Done
  mutate id typ content stmt = with_event id typ content λ t. exec_one (stmt t)

  -- One round of the loops over the permissions.
  unfoldable pub add_permission : Uuid → String → M (World Db X) Err Done
  add_permission id p = exec (insert_permission id p) >>= λ _. pure tt

  -- `CreateTelegramLink`
  unfoldable pub create_telegram_link : String → Uuid → ℕ → M (World Db X) Err Done
  create_telegram_link hash id expires = exec_one (insert_link hash id expires)

module _ {X : Type 0} (lib : Externals) where
  -- `find`, by a test on the rows
  unfoldable pub find : (UserRow → Bool) → M (World Db X) Err User
  find p = do
    found ← query λ d. find_first p d.users
    row ← or_not_found found
    ps ← query λ d. permissions_of lib row.id d.permissions
    pure (scan row ps)

  -- `Get`, `ByLogin`, `ByTelegram`
  unfoldable pub get : Uuid → M (World Db X) Err User
  get id = find (is_user id)

  unfoldable pub by_login : String → M (World Db X) Err User
  by_login login = find λ r. str_eq r.login login

  unfoldable pub by_telegram : ℤ → M (World Db X) Err User
  by_telegram telegram = find λ r. is_telegram telegram r.telegram_id

  unfoldable pub get_all : List Uuid → M (World Db X) Err (List User)
  get_all [] = pure []
  get_all (id ∷ ids) = do u ← get id; us ← get_all ids; pure (u ∷ us)

  -- `List`
  unfoldable pub list : ℤ → String → M (World Db X) Err (List User)
  list limit after = query (select_ids lib (clamp_limit limit) after) >>= λ ids. get_all ids

  -- `Create`
  unfoldable pub create : User → M (World Db X) Err Done
  create u =
      with_event u.id "user.created" (created_content lib u)
        λ t. exec (insert_user u t) >>= λ _. for_each u.permissions (add_permission u.id)

  -- `UpdateName`
  unfoldable pub update_name : Uuid → String → M (World Db X) Err Done
  update_name id name =
      mutate id "user.updated" (name_content lib id name) λ t. update_user (renamed name t) id

  -- `SetPermissions`
  unfoldable pub set_permissions : Uuid → List String → M (World Db X) Err Done
  set_permissions id ps = with_event id "user.updated" (permissions_content lib id ps) λ t.
      exec_one (update_user (touched t) id)
      >> (exec (delete_permissions id) >>= λ _. for_each ps (add_permission id))

  -- `SetActive`
  unfoldable pub set_active : Uuid → Bool → M (World Db X) Err Done
  set_active id b =
      mutate id (if not b then "user.disabled" else "user.updated") (active_content lib id b)
        λ t. update_user (activated b t) id

  -- `Password`
  unfoldable pub password : Uuid → String → M (World Db X) Err Done
  password id hash =
      mutate id "user.updated" (user_content lib id) λ t. update_user (rehashed hash t) id

  -- `BindTelegram`
  unfoldable pub bind_telegram : Uuid → ℤ → M (World Db X) Err Done
  bind_telegram id telegram =
      mutate id "user.telegram_bound" (telegram_content lib id telegram)
        λ t. bind_user id telegram t

  -- `RedeemTelegramLink`
  unfoldable pub redeem_telegram_link : String → ℤ → M (World Db X) Err Uuid
  redeem_telegram_link hash telegram = transact λ t. do
    found ← query (select_link hash t)
    user_id ← or_not_found found
    exec_one (bind_user user_id telegram t)
    exec (use_link hash t) >>= λ _.
        write_event t user_id "user.telegram_bound" (telegram_content lib user_id telegram)
    pure user_id

  -- `Repository` as the `Store` of the service.
  abbrev pub repository : Store (World Db X)
  repository = record {
    get = get;
    by_login = by_login;
    by_telegram = by_telegram;
    list = list;
    create = create;
    update_name = update_name;
    set_permissions = set_permissions;
    set_active = set_active;
    password = password;
    bind_telegram = bind_telegram;
    create_telegram_link = create_telegram_link;
    redeem_telegram_link = redeem_telegram_link;
  }
