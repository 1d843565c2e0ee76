-- ===== src/User/App.antt =====
-- internal/user/app/service.go: the service over the interface `Store` and over the package
-- internal/user/password, whose `Hash` and `Verify` are the interface `Passwords`.
use agency_bot.Base.{
  ℕ, ◌+◌, ℤ, pos, negsuc, ◌==ℤ◌, ltb, ◌==◌, String, Bool, true, not, ◌&&◌, ◌||◌, Option, none, some,
  List, is_empty, trim_space, starts_with, if◌then◌else◌,
}
use agency_bot.Effects.{
  Err, err_text, unauthorized, validation, conflict, Done, M, ◌>>=◌, ◌>>◌, pure, throw, guard,
  map_err,
}
use agency_bot.Externals.{Uuid, nil_uuid}
use agency_bot.User.Domain.{
  Role, is_admin, is_performer, User, valid_permissions, default_permissions, valid_login,
  byte_length,
}

-- `Store`
pub record Store (S : Type 0) : Type 0 where
  pub get : Uuid → M S Err User
  pub by_login : String → M S Err User
  pub by_telegram : ℤ → M S Err User
  pub list : ℤ → String → M S Err (List User)
  pub create : User → M S Err Done
  pub update_name : Uuid → String → M S Err Done
  pub set_permissions : Uuid → List String → M S Err Done
  pub set_active : Uuid → Bool → M S Err Done
  pub password : Uuid → String → M S Err Done
  pub bind_telegram : Uuid → ℤ → M S Err Done
  pub create_telegram_link : String → Uuid → ℕ → M S Err Done
  pub redeem_telegram_link : String → ℤ → M S Err Uuid

-- `password.Hash` and `password.Verify`
pub record Passwords (S : Type 0) : Type 0 where
  pub hash : String → M S Err String
  pub verify : String → String → Bool

-- `Service`: the store, the passwords, and what it takes from Go's library: `rand.Read` with the
-- encoding of its bytes as a token, SHA-256, `uuid.New` and `time.Now`.
pub record Service (S : Type 0) : Type 0 where
  pub store : Store S
  pub passwords : Passwords S
  pub new_token : M S Err String
  pub sha256 : String → String
  pub new_uuid : M S Err Uuid
  pub now : M S Err ℕ

-- `strings.Contains`
abbrev contains : String → String → Bool
contains String.[] part = starts_with String.[] part
contains (String.◌∷◌ c s) part = starts_with (String.◌∷◌ c s) part || contains s part

-- `mapConflict`
unfoldable pub map_conflict : Err → Err
map_conflict e = if contains (err_text e) "duplicate key" then conflict else e

-- Durations in nanoseconds.
abbrev minute : ℕ
minute = 60000000000

abbrev day : ℕ
day = 86400000000000

-- The validity of a link: 15 minutes for 0, and none below a minute or above a day.
unfoldable pub link_validity : ℤ → Option ℕ
link_validity (negsuc n) = none
link_validity (pos n) =
    if n == 0 then some 900000000000 else (if ltb n minute || ltb day n then none else some n)

-- `User{}`, with which the code answers beside an error, is left out.
module _ {S : Type 0} (s : Service S) where
  unfoldable pub create_telegram_link : Uuid → ℤ → M S Err (String × ℕ)
  create_telegram_link user_id validity = do
    guard (not (user_id == nil_uuid)) validation
    elim (link_validity validity) [
      | none ↦ throw validation
      | some d ↦ do
        token ← s.new_token
        t ← s.now
        s.store.create_telegram_link (s.sha256 token) user_id (t + d)
        pure (token, t + d)
    ]

  unfoldable pub redeem_telegram_link : String → ℤ → M S Err User
  redeem_telegram_link token telegram_id = do
    guard (not (is_empty token || telegram_id ==ℤ pos 0)) validation
    user_id ← map_err map_conflict (s.store.redeem_telegram_link (s.sha256 token) telegram_id)
    s.store.get user_id

  unfoldable pub authenticate : String → String → M S Err User
  authenticate login raw = do
    u ← map_err (λ e. unauthorized) (s.store.by_login login)
    guard (not (not u.is_active || not (s.passwords.verify raw u.password_hash))) unauthorized
    pure u

  -- The test of `Create` on the trimmed login and name.
  abbrev pub is_acceptable : String → String → String → Role → Bool
  is_acceptable login raw full_name role = not (
      not (valid_login login)
      || ltb (byte_length raw) 12
      || is_empty full_name
      || (not (is_admin role) && not (is_performer role)))

  -- The user that `Create` stores.
  abbrev pub new_user : Uuid → String → String → String → Role → User
  new_user id login hash full_name role = record {
    id = id;
    login = login;
    password_hash = hash;
    full_name = full_name;
    role = role;
    is_active = true;
    telegram_id = none;
    permissions = default_permissions role;
    created_at = 0;
    updated_at = 0;
  }

  unfoldable pub create : String → String → String → Role → M S Err User
  create login raw full_name role = do
    guard (is_acceptable (trim_space login) raw (trim_space full_name) role) validation
    hash ← s.passwords.hash raw
    id ← s.new_uuid
    s.store.create (new_user id (trim_space login) hash (trim_space full_name) role)
    s.store.get id

  unfoldable pub get : Uuid → M S Err User
  get id = s.store.get id

  unfoldable pub by_telegram : ℤ → M S Err User
  by_telegram id = s.store.by_telegram id

  unfoldable pub list : ℤ → String → M S Err (List User)
  list limit after = s.store.list limit after

  unfoldable pub update_name : Uuid → String → M S Err User
  update_name id name = do
    guard (not (is_empty (trim_space name))) validation
    s.store.update_name id (trim_space name)
    s.store.get id

  unfoldable pub permissions : Uuid → List String → M S Err User
  permissions id ps = do
    guard (valid_permissions ps) validation
    s.store.set_permissions id ps
    s.store.get id

  unfoldable pub active : Uuid → Bool → M S Err User
  active id b = do s.store.set_active id b; s.store.get id

  -- `reset`, which `ResetPassword` only calls
  unfoldable pub reset : Uuid → String → M S Err Done
  reset id raw = do
    guard (not (ltb (byte_length raw) 12)) validation
    h ← s.passwords.hash raw
    s.store.password id h

  unfoldable pub change_password : Uuid → String → String → M S Err Done
  change_password id old raw = do
    u ← s.store.get id
    guard (s.passwords.verify old u.password_hash) unauthorized
    reset id raw

  unfoldable pub bind_telegram : Uuid → ℤ → M S Err User
  bind_telegram id telegram_id = do
    guard (not (telegram_id ==ℤ pos 0)) validation
    map_err map_conflict (s.store.bind_telegram id telegram_id)
    s.store.get id
