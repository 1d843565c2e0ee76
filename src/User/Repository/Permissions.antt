-- ===== src/User/Repository/Permissions.antt =====
-- What `Create` and `SetPermissions` do to the database, their loops over the permissions included.
use agency_bot.Base.{
  ℕ, ◌<◌, ◌≡◌, sym, ap, ◌∙◌, String, false, ◌==◌, ◌||◌, List, [], ◌∷◌, ◌++◌, map, any, str_eq,
  append-nil, append_assoc, arith,
}
use agency_bot.Effects.{ok, World, for_each}
use agency_bot.Effects.Laws.{Ensures, done, Atomic, Ensures-bind, Ensures-exec, Ensures-mono}
use agency_bot.Sql.{count_where, update_where, delete_where}
use agency_bot.Externals.{Uuid, Externals}
use agency_bot.Event.{IsEvent}
use agency_bot.User.Domain.{User}
use agency_bot.User.Tables.{
  PermissionRow, Db, is_user, new_row, touched, insert_user, insert_permission, delete_permissions,
  update_user,
}
use agency_bot.User.Repository.{
  create, set_permissions, add_permission, exec_one, created_content, permissions_content,
}
use agency_bot.User.Repository.Announcements.{Tables, Announces, with_event-Atomic}
use agency_bot.User.Repository.Writes.{exec_one-Ensures, update_user-DoesRewrite}

-- The rows that the loops add.
abbrev pub grants : Uuid → List String → List PermissionRow
grants id ps = map (λ p. record { user_id = id; code = p }) ps

insert_permission-ok :
    (id : Uuid) (p : String) (d d' : Db) (n : ℕ)
    → insert_permission id p d ≡ ok (n, d')
    → d' ≡ record d { permissions = d.permissions ++ (record { user_id = id; code = p } ∷ []) }
unfolding insert_permission
insert_permission-ok id p d d' n e = ground arith

insert_user-ok :
    (u : User) (t : ℕ) (d d' : Db) (n : ℕ)
    → insert_user u t d ≡ ok (n, d')
    → (any (λ r. r.id == u.id || str_eq r.login u.login) d.users ≡ false)
      × (d' ≡ record d { users = d.users ++ (new_row u t ∷ []) })
unfolding insert_user
insert_user-ok u t d d' n e = (ground arith, ground arith)

deleted :
    (id : Uuid) (d d' : Db) (n : ℕ)
    → delete_permissions id d ≡ ok (n, d')
    → d' ≡ record d { permissions = delete_where (λ r. r.user_id == id) d.permissions }
unfolding delete_permissions
deleted id d d' n e = ground arith

module _ {X : Type 0} (id : Uuid) where
  add_permissions-Ensures :
      (ps : List String) (v : World Db X)
      → Ensures
          (λ _ d _. d ≡ record v.db { permissions = v.db.permissions ++ grants id ps })
          (for_each ps (add_permission id) v)
  unfolding for_each add_permission
  add_permissions-Ensures [] v =
      done tt v (ap (λ l. record v.db { permissions = l }) (sym (append-nil v.db.permissions)))
  add_permissions-Ensures (p ∷ ps) v =
      Ensures-bind
        (λ _ d _. d ≡ record v.db {
          permissions = v.db.permissions ++ (record { user_id = id; code = p } ∷ []);
        })
        _ (add_permission id p) _ v
        (Ensures-exec _ (insert_permission id p) _ v
          λ n u ins _. done tt u (insert_permission-ok id p v.db u.db n ins))
        λ _ u e. Ensures-mono _ _ (add_permissions-Ensures ps u) λ _ d _ e'.
          e'
          ∙ (ap (λ (x : Db). record x { permissions = x.permissions ++ grants id ps }) e
              ∙ ap (λ l. record v.db { permissions = l })
                  (append_assoc v.db.permissions _ (grants id ps)))

-- The tables after `Create` and after `SetPermissions` on `d`.
abbrev pub IsCreated : User → Db → Tables
IsCreated u d users permissions links =
    (t : ℕ) × (any (λ r. r.id == u.id || str_eq r.login u.login) d.users ≡ false)
    × (users ≡ d.users ++ (new_row u t ∷ []))
    × (permissions ≡ d.permissions ++ grants u.id u.permissions)
    × (links ≡ d.links)

abbrev pub IsGranted : Uuid → List String → Db → Tables
IsGranted id ps d users permissions links =
    (t : ℕ) × (0 < count_where (is_user id) d.users)
    × (users ≡ update_where (is_user id) (touched t) d.users)
    × (permissions ≡ delete_where (λ r. r.user_id == id) d.permissions ++ grants id ps)
    × (links ≡ d.links)

module _ {X : Type 0} (lib : Externals) (w : World Db X) where
  -- Create changes nothing, or it adds a user whose identifier and login were free, active and without
  -- a Telegram account as the row says, with the user's permissions and one pending event.
  pub create_user-Atomic :
      (u : User)
      → Atomic
          (λ _ d _.
            Announces
              (IsCreated u w.db)
              (IsEvent u.id "user.created" (created_content lib u))
              w.db
              d)
          w.db
          (create lib u w)
  unfolding create
  create_user-Atomic u = with_event-Atomic (IsCreated u w.db) u.id _ _ _ w λ t v e.
      Ensures-exec _ (insert_user u t) _ v λ n z ins _.
        let (free, added) = insert_user-ok u t v.db z.db n ins in
        Ensures-mono _ _ (add_permissions-Ensures u.id u.permissions z) λ _ d _ granted.
          let same =
            granted
            ∙ ap (λ (x : Db). record x { permissions = x.permissions ++ grants u.id u.permissions })
                (added ∙ ap (λ (x : Db). record x { users = x.users ++ (new_row u t ∷ []) }) e) in
          (
            (
              t,
              ap (λ (x : Db). any (λ r. r.id == u.id || str_eq r.login u.login) x.users) (sym e)
                  ∙ free,
              ap (λ (x : Db). x.users) same,
              ap (λ (x : Db). x.permissions) same,
              ap (λ (x : Db). x.links) same,
            ),
            ap (λ (x : Db). x.outbox) same,
          )

  -- SetPermissions changes nothing, or it replaces all permissions of a user who is there by the given
  -- ones, leaves everybody else's alone, and adds one pending event.
  pub set_permissions-Atomic :
      (id : Uuid) (ps : List String)
      → Atomic
          (λ _ d _.
            Announces
              (IsGranted id ps w.db)
              (IsEvent id "user.updated" (permissions_content lib id ps))
              w.db
              d)
          w.db
          (set_permissions lib id ps w)
  unfolding set_permissions
  set_permissions-Atomic id ps = with_event-Atomic (IsGranted id ps w.db) id _ _ _ w λ t v e.
      Ensures-bind _ _ (exec_one (update_user (touched t) id)) _ v
        (exec_one-Ensures (λ _. Unit) id (touched t) (update_user (touched t) id) w.db v e
          (update_user-DoesRewrite (touched t) id))
        λ _ z (_, some_rows, rewritten). Ensures-exec _ (delete_permissions id) _ z λ n y del _.
          Ensures-mono _ _ (add_permissions-Ensures id ps y) λ _ d _ granted.
            let same =
              granted
              ∙ ap (λ (x : Db). record x { permissions = x.permissions ++ grants id ps })
                  (deleted id z.db y.db n del
                    ∙ ap
                        (λ (x : Db). record x {
                          permissions = delete_where (λ r. r.user_id == id) x.permissions;
                        })
                        rewritten) in
            (
              (
                t,
                some_rows,
                ap (λ (x : Db). x.users) same,
                ap (λ (x : Db). x.permissions) same,
                ap (λ (x : Db). x.links) same,
              ),
              ap (λ (x : Db). x.outbox) same,
            )
