-- ===== src/User/Repository/Writes.antt =====
-- What `UpdateName`, `SetActive`, `Password` and `BindTelegram` do to the database.
use agency_bot.Base.{
  ℕ, ◌<◌, ℤ, ◌≡◌, ap, subst, ◌∙◌, String, Bool, true, false, not, ◌==◌, ◌&&◌, any, arith,
}
use agency_bot.Effects.{Err, ok, Done, M, World}
use agency_bot.Effects.Laws.{Ensures, Atomic, Ensures-exec, Ensures-guard_end, Ensures-mono}
use agency_bot.Sql.{any-count_where, count_where, update_where}
use agency_bot.Externals.{Uuid, Externals}
use agency_bot.Json.{Json}
use agency_bot.Event.{IsEvent}
use agency_bot.User.Tables.{
  UserRow, Db, Affected, is_user, is_telegram, renamed, activated, rehashed, bound, update_user,
  bind_user,
}
use agency_bot.User.Repository.{
  update_name, set_active, password, bind_telegram, mutate, exec_one, user_content, name_content,
  active_content, telegram_content,
}
use agency_bot.User.Repository.Announcements.{Tables, Announces, with_event-Atomic}

-- No other user has the Telegram account.
abbrev pub IsFree : Uuid → ℤ → Db → Type 0
IsFree id telegram d =
    any (λ r. not (is_user id r) && is_telegram telegram r.telegram_id) d.users ≡ false

-- The rows of `users` with the identifier, of which there is one at least, are rewritten by `f`, and
-- the other tables stay; `P` is what the statement has checked.
abbrev pub Rewrites : (Db → Type 0) → Uuid → (ℕ → UserRow → UserRow) → Db → Tables
Rewrites P id f d users permissions links =
    (t : ℕ) × P d
    × (0 < count_where (is_user id) d.users)
    × (users ≡ update_where (is_user id) (f t) d.users)
    × (permissions ≡ d.permissions)
    × (links ≡ d.links)

-- The four writes that are one UPDATE of a user, with the event that announces each.
pub data Edit : Type 0 where
  rename : String → Edit
  activate : Bool → Edit
  rehash : String → Edit
  bind : ℤ → Edit

abbrev pub edited : Edit → ℕ → UserRow → UserRow
edited (rename name) = renamed name
edited (activate b) = activated b
edited (rehash h) = rehashed h
edited (bind telegram) = bound telegram

abbrev pub event_type : Edit → String
event_type (rename name) = "user.updated"
event_type (activate true) = "user.updated"
event_type (activate false) = "user.disabled"
event_type (rehash h) = "user.updated"
event_type (bind telegram) = "user.telegram_bound"

abbrev pub event_content : Externals → Uuid → Edit → Json
event_content lib id (rename name) = name_content lib id name
event_content lib id (activate b) = active_content lib id b
event_content lib id (rehash h) = user_content lib id
event_content lib id (bind telegram) = telegram_content lib id telegram

-- What the database has checked before an edit.
abbrev pub IsAllowed : Edit → Uuid → Db → Type 0
IsAllowed (bind telegram) id d = IsFree id telegram d
IsAllowed _ id d = Unit

not_zero : (n m : ℕ) → not (n == 0) ≡ true → n ≡ m → 0 < m
not_zero n m h e = ground arith

-- A statement that rewrites the rows of one user does this.
abbrev pub DoesRewrite : (Db → Type 0) → Uuid → (UserRow → UserRow) → (Db → Affected) → Type 0
DoesRewrite P id f stmt =
    (d d' : Db) (n : ℕ)
    → stmt d ≡ ok (n, d')
    → (n ≡ count_where (is_user id) d.users)
      × (d' ≡ record d { users = update_where (is_user id) f d.users })
      × (0 < count_where (is_user id) d.users → P d)

pub update_user-DoesRewrite :
    (f : UserRow → UserRow) (id : Uuid) → DoesRewrite (λ _. Unit) id f (update_user f id)
unfolding update_user
update_user-DoesRewrite f id d d' n e = (ground arith, ground arith, λ _. tt)

pub bind_user-DoesRewrite :
    (id : Uuid) (telegram : ℤ) (t : ℕ)
    → DoesRewrite (IsFree id telegram) id (bound telegram t) (bind_user id telegram t)
unfolding bind_user
bind_user-DoesRewrite id telegram t d d' n e =
    (ground arith, ground arith, λ some_rows. ground (arith, any-count_where (is_user id) d.users))

module _ {X : Type 0} (P : Db → Type 0) (id : Uuid) (f : UserRow → UserRow)
    (stmt : Db → Affected) where
  pub exec_one-Ensures :
      (d : Db) (v : World Db X)
      → v.db ≡ d
      → DoesRewrite P id f stmt
      → Ensures
          (λ _ d' _.
            P d
            × (0 < count_where (is_user id) d.users)
            × (d' ≡ record d { users = update_where (is_user id) f d.users }))
          (exec_one stmt v)
  unfolding exec_one
  exec_one-Ensures d v e does = Ensures-exec _ stmt _ v λ n u upd _.
      let (rows, db, checked) = does v.db u.db n upd in
      Ensures-guard_end _ _ _ u λ some_rows. (
        subst P e (checked (not_zero n _ some_rows rows)),
        not_zero n _ some_rows (rows ∙ ap (λ (x : Db). count_where (is_user id) x.users) e),
        db ∙ ap (λ (x : Db). record x { users = update_where (is_user id) f x.users }) e,
      )

module _ {X : Type 0} (lib : Externals) (id : Uuid) where
  -- The method of the repository for an edit.
  abbrev pub apply : Edit → M (World Db X) Err Done
  apply (rename name) = update_name lib id name
  apply (activate b) = set_active lib id b
  apply (rehash h) = password lib id h
  apply (bind telegram) = bind_telegram lib id telegram

module _ {X : Type 0} (lib : Externals) (id : Uuid) (w : World Db X) where
  mutate-Atomic :
      (P : Db → Type 0) (f : ℕ → UserRow → UserRow) (typ : String) (content : Json)
      (stmt : ℕ → Db → Affected)
      → ((t : ℕ) → DoesRewrite P id (f t) (stmt t))
      → Atomic
          (λ _ d _. Announces (Rewrites P id f w.db) (IsEvent id typ content) w.db d)
          w.db
          (mutate id typ content stmt w)
  unfolding mutate
  mutate-Atomic P f typ content stmt does =
      with_event-Atomic (Rewrites P id f w.db) id typ content _ w λ t v e.
        Ensures-mono _ _ (exec_one-Ensures P id (f t) (stmt t) w.db v e (does t))
          λ _ d _ (checked, some_rows, db). (
            (
              t,
              checked,
              some_rows,
              ap (λ (x : Db). x.users) db,
              ap (λ (x : Db). x.permissions) db,
              ap (λ (x : Db). x.links) db,
            ),
            ap (λ (x : Db). x.outbox) db,
          )

  -- UpdateName, SetActive, Password and BindTelegram change nothing, or they rewrite the rows with the
  -- identifier, of which there is one at least, leave the other tables alone, and add one pending
  -- event; the event of a new password says nothing but whose it is. A Telegram account that is bound
  -- was nobody else's.
  pub apply-Atomic :
      (e : Edit)
      → Atomic
          (λ _ d _.
            Announces
              (Rewrites (IsAllowed e id) id (edited e) w.db)
              (IsEvent id (event_type e) (event_content lib id e))
              w.db
              d)
          w.db
          (apply lib id e w)
  unfolding update_name set_active password bind_telegram
  apply-Atomic (rename name) =
      mutate-Atomic (λ _. Unit) (renamed name) _ _ _
        λ t. update_user-DoesRewrite (renamed name t) id
  apply-Atomic (activate true) =
      mutate-Atomic (λ _. Unit) (activated true) _ _ _
        λ t. update_user-DoesRewrite (activated true t) id
  apply-Atomic (activate false) =
      mutate-Atomic (λ _. Unit) (activated false) _ _ _
        λ t. update_user-DoesRewrite (activated false t) id
  apply-Atomic (rehash h) =
      mutate-Atomic (λ _. Unit) (rehashed h) _ _ _ λ t. update_user-DoesRewrite (rehashed h t) id
  apply-Atomic (bind telegram) =
      mutate-Atomic (IsFree id telegram) (bound telegram) _ _ _
        λ t. bind_user-DoesRewrite id telegram t
