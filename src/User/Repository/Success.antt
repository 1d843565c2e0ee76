-- ===== src/User/Repository/Success.antt =====
-- The calls of internal/user/repository/postgres.go that create and find a user, when none fails.
use agency_bot.Base.{
  ℕ, ◌<◌, ◌≡◌, refl, ap, ◌∙◌, sym, String, Bool, true, false, ◌==◌, ==_refl, ◌||◌, some, List, [],
  ◌∷◌, ◌++◌, ◌+◌, any, any-append, every, find_first, map, str_eq, ltb, arith, append_assoc,
  append-nil,
}
use agency_bot.Effects.{ok, World, exec, query, call, now, new_uuid, for_each, ◌>>=◌, pure}
use agency_bot.Effects.Calm.{bind-ok, calm_world, exec-ok, transact-ok}
use agency_bot.Externals.{Uuid, Externals}
use agency_bot.Event.{OutboxRow}
use agency_bot.Json.{Json}
use agency_bot.User.Domain.{User, rune_count}
use agency_bot.User.Tables.{
  UserRow, PermissionRow, Db, is_user, is_known, new_row, insert_user, insert_permission,
  insert_outbox,
}
use agency_bot.User.Repository.{
  create, find, scan, permissions_of, order_texts, add_permission, write_event, with_event,
  outbox_row, created_content, or_not_found,
}
use agency_bot.User.Repository.Permissions.{grants}
use agency_bot.User.Repository.Inserts.{
  distinct_texts, insert_outbox-ok, insert_permission-ok, insert_user-ok, is_free, every_free,
  all_free, find_first-new, keep-grants, keep-bare,
}

module _ {X : Type 0} (x : X) (clock : ℕ → ℕ) (uuids : ℕ → Uuid) where
  abbrev pub calm : Db → ℕ → World Db X
  calm d n = calm_world clock uuids d x n

  pub write_event-ok :
      (t : ℕ) (id : Uuid) (typ : String) (content : Json) (d : Db) (n : ℕ)
      → any (λ r. r.id == uuids (n + 1 + 1)) d.outbox ≡ false
      → write_event t id typ content (calm d n) ≡ (
        ok tt,
        calm
            (record d {
              outbox =
                  d.outbox
                  ++ (outbox_row (uuids (n + 1 + 1)) (uuids n) (clock (n + 1)) t id typ content
                      ∷ []);
            })
            (n + 1 + 1 + 1 + 1),
      )
  unfolding write_event new_uuid now ◌>>=◌
  write_event-ok t id typ content d n fresh =
      let e : OutboxRow =
        outbox_row (uuids (n + 1 + 1)) (uuids n) (clock (n + 1)) t id typ content in
      bind-ok (exec (insert_outbox e)) (λ _. pure tt) _ _ 1
        (exec-ok clock uuids (insert_outbox e) d _ x 1 (n + 1 + 1 + 1) (insert_outbox-ok e d fresh))

  add_permissions-ok :
      (id : Uuid) (ps : List String) (d : Db) (n : ℕ)
      → any (is_user id) d.users ≡ true
      → distinct_texts ps ≡ true
      → every (λ q. is_free id q d.permissions) ps ≡ true
      → (k : ℕ) × (for_each ps (add_permission id) (calm d n)
          ≡ (ok tt, calm (record d { permissions = d.permissions ++ grants id ps }) k))
  unfolding for_each add_permission
  add_permissions-ok id [] d n found once free =
      (n, ap (λ l. (ok tt, calm (record d { permissions = l }) n)) (sym (append-nil d.permissions)))
  add_permissions-ok id (p ∷ ps) d n found once free =
      let new_permission : PermissionRow = record { user_id = id; code = p } in
      let d1 : Db = record d { permissions = d.permissions ++ (new_permission ∷ []) } in
      let (k, e) =
        add_permissions-ok id ps d1 (n + 1) found (ground arith)
          (every_free id p ps d.permissions (ground arith) (ground arith)) in
      (
        k,
        bind-ok (add_permission id p) (λ _. for_each ps (add_permission id)) (calm d n)
              (calm d1 (n + 1)) tt
              (bind-ok (exec (insert_permission id p)) (λ _. pure tt) _ _ 1
                (exec-ok clock uuids (insert_permission id p) d d1 x 1 n
                  (insert_permission-ok id p d (ground arith) found)))
            ∙ (e
                ∙ ap (λ l. (ok tt, calm (record d { permissions = l }) k))
                    (append_assoc d.permissions _ (grants id ps))),
      )

  -- What the constraints ask of a user.
  abbrev pub IsAcceptable : User → Db → Type 0
  IsAcceptable u d =
      (ltb 64 (rune_count u.login) ≡ false)
      × (is_known u.role ≡ true)
      × (any (λ r. r.id == u.id || str_eq r.login u.login) d.users ≡ false)
      × (any (λ r. r.user_id == u.id) d.permissions ≡ false)
      × (distinct_texts u.permissions ≡ true)
      × ((k : ℕ) → any (λ r. r.id == uuids k) d.outbox ≡ false)

  -- The tables after `Create`.
  abbrev pub created : User → ℕ → OutboxRow → Db → Db
  created u t e d = record d {
    users = d.users ++ (new_row u t ∷ []);
    permissions = d.permissions ++ grants u.id u.permissions;
    outbox = d.outbox ++ (e ∷ []);
  }

  pub create-ok :
      (lib : Externals) (u : User) (d : Db) (n : ℕ)
      → IsAcceptable u d
      → (t : ℕ) × (e : OutboxRow) × (k : ℕ) × (m : ℕ) × (create lib u (calm d n)
          ≡ (ok tt, calm (created u t e d) k))
        × (e.id ≡ uuids m)
        × (m < k)
  unfolding create with_event
  create-ok lib u d n (short, known, new, bare, once, fresh) =
      let t : ℕ = clock (n + 1) in
      let d1 : Db = record d { users = d.users ++ (new_row u t ∷ []) } in
      let (k, granted) =
        add_permissions-ok u.id u.permissions d1 (n + 1 + 1 + 1)
          (ground (arith, any-append (is_user u.id) d.users (new_row u t ∷ []), ==_refl u.id)) once
          (all_free u.id u.permissions d.permissions bare) in
      let d2 : Db = record d1 { permissions = d.permissions ++ grants u.id u.permissions } in
      let announced =
        write_event-ok t u.id "user.created" (created_content lib u) d2 k (fresh (k + 1 + 1)) in
      (
        t,
        _,
        _,
        k + 1 + 1,
        transact-ok clock uuids _ d _ x x tt n _ (
            bind-ok _ (λ _. write_event t u.id "user.created" (created_content lib u))
              (calm d (n + 1 + 1)) (calm d2 k) tt
              (bind-ok (exec (insert_user u t)) (λ _. for_each u.permissions (add_permission u.id))
                  _ _ 1
                  (exec-ok clock uuids (insert_user u t) d d1 x 1 (n + 1 + 1)
                    (insert_user-ok u t d short known new))
                ∙ granted)
            ∙ announced),
        refl,
        omega arith,
      )

  pub find-ok :
      (lib : Externals) (p : UserRow → Bool) (d : Db) (r : UserRow) (n : ℕ)
      → find_first p d.users ≡ some r
      → find lib p (calm d n)
        ≡ (ok (scan r (permissions_of lib r.id d.permissions)), calm d (n + 1 + 1))
  unfolding find query call ◌>>=◌ or_not_found
  find-ok lib p d r n found =
      ap
        (λ o.
          (or_not_found o >>= λ row.
          query (λ (d : Db). permissions_of lib row.id d.permissions) >>= λ ps. pure (scan row ps))
            (calm d (n + 1)))
        found

  -- The user as the store answers it from then on.
  abbrev pub stored : Externals → User → ℕ → User
  stored lib u t = scan (new_row u t) (order_texts lib u.permissions)

  permissions_of-created :
      (lib : Externals) (u : User) (t : ℕ) (e : OutboxRow) (d : Db)
      → any (λ r. r.user_id == u.id) d.permissions ≡ false
      → permissions_of lib u.id (created u t e d).permissions ≡ order_texts lib u.permissions
  unfolding permissions_of
  permissions_of-created lib u t e d bare =
      ap (λ l. order_texts lib (map (λ r. r.code) l))
        (keep-bare u.id d.permissions (grants u.id u.permissions) bare)
      ∙ ap (order_texts lib) (keep-grants u.id u.permissions)

  pub find-created :
      (lib : Externals) (p : UserRow → Bool) (u : User) (t : ℕ) (e : OutboxRow) (d : Db) (n : ℕ)
      → any (λ r. r.user_id == u.id) d.permissions ≡ false
      → any p d.users ≡ false
      → p (new_row u t) ≡ true
      → find lib p (calm (created u t e d) n)
        ≡ (ok (stored lib u t), calm (created u t e d) (n + 1 + 1))
  find-created lib p u t e d n bare none_before here =
      find-ok lib p (created u t e d) (new_row u t) n
        (find_first-new p d.users (new_row u t) none_before here)
      ∙ ap (λ ps. (ok (scan (new_row u t) ps), calm (created u t e d) (n + 1 + 1)))
          (permissions_of-created lib u t e d bare)
