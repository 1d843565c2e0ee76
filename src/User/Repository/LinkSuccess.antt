-- ===== src/User/Repository/LinkSuccess.antt =====
-- The calls of internal/user/repository/postgres.go that make and redeem a link, when none fails.
use agency_bot.Base.{
  ℕ, ℤ, ◌<◌, ◌≡◌, refl, ap, ◌∙◌, String, true, false, ◌==◌, ◌&&◌, some, not, [], ◌∷◌, ◌++◌, ◌+◌,
  any, arith,
}
use agency_bot.Effects.{ok, World, exec, query, guard}
use agency_bot.Effects.Calm.{bind-ok, calm_world, exec-ok, query-ok, transact-ok}
use agency_bot.Sql.{count_where, update_where}
use agency_bot.Externals.{Uuid, Externals}
use agency_bot.Event.{OutboxRow}
use agency_bot.User.Tables.{
  Db, Affected, is_user, is_telegram, is_link, new_link, bound, used, insert_link, bind_user,
  select_link, use_link,
}
use agency_bot.User.Repository.{
  exec_one, create_telegram_link, redeem_telegram_link, or_not_found, telegram_content,
}
use agency_bot.User.Repository.Success.{write_event-ok}

insert_link-ok :
    (hash : String) (id : Uuid) (expires : ℕ) (d : Db)
    → any (is_link hash) d.links ≡ false
    → any (is_user id) d.users ≡ true
    → insert_link hash id expires d
      ≡ ok (1, record d { links = d.links ++ (new_link hash id expires ∷ []) })
unfolding insert_link
insert_link-ok hash id expires d new found = rw (new, found) refl

bind_user-ok :
    (id : Uuid) (telegram : ℤ) (t : ℕ) (d : Db)
    → any (λ r. not (is_user id r) && is_telegram telegram r.telegram_id) d.users ≡ false
    → bind_user id telegram t d
      ≡ ok (
        count_where (is_user id) d.users,
        record d { users = update_where (is_user id) (bound telegram t) d.users },
      )
unfolding bind_user
bind_user-ok id telegram t d free = ground (arith, free)

use_link-ok :
    (hash : String) (t : ℕ) (d : Db)
    → use_link hash t d
      ≡ ok (
        count_where (is_link hash) d.links,
        record d { links = update_where (is_link hash) (used t) d.links },
      )
unfolding use_link
use_link-ok hash t d = refl

module _ {X : Type 0} (x : X) (clock : ℕ → ℕ) (uuids : ℕ → Uuid) where
  abbrev calm : Db → ℕ → World Db X
  calm d n = calm_world clock uuids d x n

  exec_one-ok :
      (stmt : Db → Affected) (d d' : Db) (rows n : ℕ)
      → stmt d ≡ ok (rows, d')
      → 0 < rows
      → exec_one stmt (calm d n) ≡ (ok tt, calm d' (n + 1))
  unfolding exec_one guard
  exec_one-ok stmt d d' rows n e some_rows =
      bind-ok (exec stmt) _ _ _ rows (exec-ok clock uuids stmt d d' x rows n e)
      ∙ ground (arith, some_rows)

  pub create_telegram_link-ok :
      (hash : String) (id : Uuid) (expires : ℕ) (d : Db) (n : ℕ)
      → any (is_link hash) d.links ≡ false
      → any (is_user id) d.users ≡ true
      → create_telegram_link hash id expires (calm d n)
        ≡ (ok tt, calm (record d { links = d.links ++ (new_link hash id expires ∷ []) }) (n + 1))
  unfolding create_telegram_link
  create_telegram_link-ok hash id expires d n new found =
      exec_one-ok (insert_link hash id expires) d _ 1 n (insert_link-ok hash id expires d new found)
        (omega arith)

  -- The tables after the link is redeemed.
  abbrev pub redeemed : String → Uuid → ℤ → ℕ → OutboxRow → Db → Db
  redeemed hash id telegram t e d = record d {
    users = update_where (is_user id) (bound telegram t) d.users;
    links = update_where (is_link hash) (used t) d.links;
    outbox = d.outbox ++ (e ∷ []);
  }

  pub redeem_telegram_link-ok :
      (lib : Externals) (hash : String) (id : Uuid) (telegram : ℤ) (d : Db) (n : ℕ)
      → select_link hash (clock (n + 1)) d ≡ some id
      → any (λ r. not (is_user id r) && is_telegram telegram r.telegram_id) d.users ≡ false
      → 0 < count_where (is_user id) d.users
      → ((m : ℕ) → n < m → any (λ r. r.id == uuids m) d.outbox ≡ false)
      → (t : ℕ) × (e : OutboxRow) × (k : ℕ) × (redeem_telegram_link lib hash telegram (calm d n)
          ≡ (ok id, calm (redeemed hash id telegram t e d) k))
  unfolding redeem_telegram_link or_not_found
  redeem_telegram_link-ok lib hash id telegram d n selected free some_rows fresh =
      let t : ℕ = clock (n + 1) in
      let d1 : Db = record d { users = update_where (is_user id) (bound telegram t) d.users } in
      let d2 : Db = record d1 { links = update_where (is_link hash) (used t) d.links } in
      let announced =
        write_event-ok x clock uuids t id "user.telegram_bound" (telegram_content lib id telegram)
          d2 (n + 1 + 1 + 1 + 1 + 1) (fresh _ (omega arith)) in
      (
        t,
        _,
        _,
        transact-ok clock uuids _ d _ x x id n _ (
            bind-ok (query (select_link hash t)) _ (calm d (n + 1 + 1)) _ _
              (query-ok clock uuids (select_link hash t) d x (n + 1 + 1))
            ∙ (bind-ok (or_not_found (select_link hash t d)) _ (calm d (n + 1 + 1 + 1)) _ id
                  (ap (λ o. or_not_found o (calm d (n + 1 + 1 + 1))) selected)
                ∙ (bind-ok (exec_one (bind_user id telegram t)) _ (calm d (n + 1 + 1 + 1)) _ tt (
                      exec_one-ok _ d d1 _ (n + 1 + 1 + 1) (bind_user-ok id telegram t d free)
                        some_rows)
                    ∙ (bind-ok _ _ (calm d1 (n + 1 + 1 + 1 + 1)) _ tt (
                        bind-ok (exec (use_link hash t)) _ (calm d1 (n + 1 + 1 + 1 + 1))
                          (calm d2 (n + 1 + 1 + 1 + 1 + 1)) _
                          (exec-ok clock uuids (use_link hash t) d1 d2 x _ (n + 1 + 1 + 1 + 1)
                            (use_link-ok hash t d1))
                        ∙ announced))))),
      )
