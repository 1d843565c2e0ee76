-- ===== src/User/Tables.antt =====
-- The tables of migrations/users and one function for each SQL statement of
-- internal/user/repository/postgres.go: the rows that it affects, or the error of a constraint.
use agency_bot.Base.{
  ℕ, ℤ, ◌==ℤ◌, ltb, ◌==◌, String, Bool, true, false, not, ◌&&◌, ◌||◌, Option, none, some, List, [],
  ◌∷◌, ◌++◌, any, find_first, str_eq, if◌then◌else◌,
}
use agency_bot.Effects.{Err, other, Result, ok, err}
use agency_bot.Sql.{count_where, update_where, delete_where}
use agency_bot.Externals.{Uuid}
use agency_bot.Event.{OutboxRow}
use agency_bot.User.Domain.{Role, unknown_role, User, rune_count}

-- A row of `users`.
pub record UserRow : Type 0 where
  pub id : Uuid
  pub login : String
  pub password_hash : String
  pub full_name : String
  pub role : Role
  pub is_active : Bool
  pub telegram_id : Option ℤ
  pub created_at : ℕ
  pub updated_at : ℕ

-- A row of `user_permissions`.
pub record PermissionRow : Type 0 where
  pub user_id : Uuid
  pub code : String

-- A row of `telegram_link_tokens`.
pub record LinkRow : Type 0 where
  pub token_hash : String
  pub user_id : Uuid
  pub expires_at : ℕ
  pub used_at : Option ℕ

-- The database of the service; `outbox` is `outbox_events`.
pub record Db : Type 0 where
  pub users : List UserRow
  pub permissions : List PermissionRow
  pub links : List LinkRow
  pub outbox : List OutboxRow

-- The outcome of a statement: the number of rows affected and the new tables.
abbrev pub Affected : Type 0
Affected = Result Err (ℕ × Db)

abbrev pub violation : String → Affected
violation text = err (other text)

abbrev pub duplicate_key : Affected
duplicate_key = violation "ERROR: duplicate key value violates unique constraint"

abbrev pub foreign_key_violation : Affected
foreign_key_violation = violation "ERROR: insert or update violates foreign key constraint"

-- `WHERE id=$1`
abbrev pub is_user : Uuid → UserRow → Bool
is_user id r = r.id == id

-- `WHERE telegram_id=$1`, which is not true of NULL.
abbrev pub is_telegram : ℤ → Option ℤ → Bool
is_telegram t none = false
is_telegram t (some s) = s ==ℤ t

-- CHECK (role IN ('ADMIN', 'PERFORMER'))
abbrev pub is_known : Role → Bool
is_known (unknown_role s) = false
is_known _ = true

-- The row that an `INSERT INTO users` writes, with the column defaults.
abbrev pub new_row : User → ℕ → UserRow
new_row u t = record {
  id = u.id;
  login = u.login;
  password_hash = u.password_hash;
  full_name = u.full_name;
  role = u.role;
  is_active = u.is_active;
  telegram_id = none;
  created_at = t;
  updated_at = t;
}

-- `INSERT INTO users(id,login,password_hash,full_name,role,is_active)`
unfoldable pub insert_user : User → ℕ → Db → Affected
insert_user u t d =
    if ltb 64 (rune_count u.login)
    then violation "ERROR: value too long for type character varying(64)"
    else (if not (is_known u.role)
        then violation "ERROR: new row violates check constraint"
        else (if any (λ r. r.id == u.id || str_eq r.login u.login) d.users
            then duplicate_key
            else ok (1, record d { users = d.users ++ (new_row u t ∷ []) })))

abbrev pub is_permission : Uuid → String → PermissionRow → Bool
is_permission id p r = r.user_id == id && str_eq r.code p

-- `INSERT INTO user_permissions(user_id,permission_code)`
unfoldable pub insert_permission : Uuid → String → Db → Affected
insert_permission id p d =
    if any (is_permission id p) d.permissions
    then duplicate_key
    else (if not (any (is_user id) d.users)
        then foreign_key_violation
        else ok (
          1,
          record d { permissions = d.permissions ++ (record { user_id = id; code = p } ∷ []) },
        ))

-- `DELETE FROM user_permissions WHERE user_id=$1`
unfoldable pub delete_permissions : Uuid → Db → Affected
delete_permissions id d = ok (
  count_where (λ r. r.user_id == id) d.permissions,
  record d { permissions = delete_where (λ r. r.user_id == id) d.permissions },
)

-- `UPDATE users SET …,updated_at=now() WHERE id=$1`, for a SET clause without constraints.
unfoldable pub update_user : (UserRow → UserRow) → Uuid → Db → Affected
update_user f id d =
    ok (count_where (is_user id) d.users, record d { users = update_where (is_user id) f d.users })

-- The SET clauses.
abbrev pub renamed : String → ℕ → UserRow → UserRow
renamed name t r = record r { full_name = name; updated_at = t }

abbrev pub activated : Bool → ℕ → UserRow → UserRow
activated b t r = record r { is_active = b; updated_at = t }

abbrev pub rehashed : String → ℕ → UserRow → UserRow
rehashed h t r = record r { password_hash = h; updated_at = t }

abbrev pub touched : ℕ → UserRow → UserRow
touched t r = record r { updated_at = t }

abbrev pub bound : ℤ → ℕ → UserRow → UserRow
bound telegram t r = record r { telegram_id = some telegram; updated_at = t }

-- `UPDATE users SET telegram_id=$2,updated_at=now() WHERE id=$1`, with the UNIQUE constraint.
unfoldable pub bind_user : Uuid → ℤ → ℕ → Db → Affected
bind_user id telegram t d =
    if any (is_user id) d.users
      && any (λ r. not (is_user id r) && is_telegram telegram r.telegram_id) d.users
    then duplicate_key
    else ok (
      count_where (is_user id) d.users,
      record d { users = update_where (is_user id) (bound telegram t) d.users },
    )

abbrev pub is_link : String → LinkRow → Bool
is_link hash r = str_eq r.token_hash hash

-- The row that an `INSERT INTO telegram_link_tokens` writes.
abbrev pub new_link : String → Uuid → ℕ → LinkRow
new_link hash id expires = record {
  token_hash = hash;
  user_id = id;
  expires_at = expires;
  used_at = none;
}

-- `INSERT INTO telegram_link_tokens(token_hash,user_id,expires_at)`
unfoldable pub insert_link : String → Uuid → ℕ → Db → Affected
insert_link hash id expires d =
    if any (is_link hash) d.links
    then duplicate_key
    else (if not (any (is_user id) d.users)
        then foreign_key_violation
        else ok (1, record d { links = d.links ++ (new_link hash id expires ∷ []) }))

abbrev pub is_unused : LinkRow → Bool
is_unused r = elim r.used_at [ none ↦ true | some t ↦ false ]

-- `WHERE token_hash=$1 AND used_at IS NULL AND expires_at > now()`
abbrev pub is_open : String → ℕ → LinkRow → Bool
is_open hash t r = is_link hash r && (is_unused r && ltb t r.expires_at)

-- `SELECT user_id FROM telegram_link_tokens WHERE …`
unfoldable pub select_link : String → ℕ → Db → Option Uuid
select_link hash t d = elim (find_first (is_open hash t) d.links) [
  | none ↦ none
  | some r ↦ some r.user_id
]

abbrev pub used : ℕ → LinkRow → LinkRow
used t r = record r { used_at = some t }

-- `UPDATE telegram_link_tokens SET used_at=now() WHERE token_hash=$1`
unfoldable pub use_link : String → ℕ → Db → Affected
use_link hash t d = ok (
  count_where (is_link hash) d.links,
  record d { links = update_where (is_link hash) (used t) d.links },
)

-- `INSERT INTO outbox_events(id,aggregate_id,event_type,payload)`
unfoldable pub insert_outbox : OutboxRow → Db → Affected
insert_outbox e d =
    if any (λ r. r.id == e.id) d.outbox
    then duplicate_key
    else ok (1, record d { outbox = d.outbox ++ (e ∷ []) })
