-- ===== src/User/Accounts/Identity.antt =====
-- Every method keeps identifiers, logins and Telegram accounts unique.
use agency_bot.Base.{ℕ, ◌≡◌, refl, sym, subst, String, arith}
use agency_bot.Effects.{Err, Result, ok, err, exec, call, guard, ◌>>=◌}
use agency_bot.Effects.Laws.{Atomic}
use agency_bot.Sql.{update_where}
use agency_bot.Externals.{Uuid, Externals}
use agency_bot.Event.{OutboxRow}
use agency_bot.User.Tables.{Db, is_user, renamed, activated, rehashed, touched, insert_link}
use agency_bot.User.Repository.{create_telegram_link, exec_one}
use agency_bot.User.Repository.Announcements.{Tables, Holds, Announces}
use agency_bot.User.Repository.Writes.{
  Edit, rename, activate, rehash, bind, edited, IsAllowed, Rewrites, apply-Atomic,
}
use agency_bot.User.Repository.Permissions.{
  IsCreated, IsGranted, create_user-Atomic, set_permissions-Atomic,
}
use agency_bot.User.Repository.Redeem.{IsRedeemed, redeem-Atomic}
use agency_bot.User.Accounts.{
  Session, Step, creates, edits, grants, links, redeems, Reach, start, extend,
}
use agency_bot.User.Accounts.Unique.{
  IsUnique, IsUnique-append, IsUnique-update_where, IsUnique-bound,
}

-- A write keeps what its tables and its failure keep.
pub keeps-Atomic :
    {A : Type 0} (I : Db → Type 0) (T : A → Tables) (Event : A → OutboxRow → Type 0) (d : Db)
    (r : Result Err A × Session)
    → Atomic (λ a d' _. Announces (T a) (Event a) d d') d r
    → ((a : A) (d' : Db) → Holds (T a) d' → I d')
    → I d
    → I r.1.db
keeps-Atomic I T Event d (ok a, w) written f i = f a w.db written.1
keeps-Atomic I T Event d (err e, w) same f i = subst I (sym same) i

abbrev pub HasUnique : Db → Type 0
HasUnique d = IsUnique d.users

-- `CreateTelegramLink` leaves the users alone.
link-users :
    (hash : String) (id : Uuid) (expires : ℕ) (w : Session)
    → (create_telegram_link hash id expires w).1.db.users ≡ w.db.users
unfolding create_telegram_link exec_one exec call guard ◌>>=◌ insert_link
link-users hash id expires w = ground arith

edited-HasUnique :
    (e : Edit) (id : Uuid) (t : ℕ) (d : Db)
    → IsAllowed e id d
    → HasUnique d
    → IsUnique (update_where (is_user id) (edited e t) d.users)
edited-HasUnique (rename name) id t d allowed u =
    IsUnique-update_where (is_user id) (renamed name t) d.users (λ r. (refl, refl, refl)) u
edited-HasUnique (activate b) id t d allowed u =
    IsUnique-update_where (is_user id) (activated b t) d.users (λ r. (refl, refl, refl)) u
edited-HasUnique (rehash h) id t d allowed u =
    IsUnique-update_where (is_user id) (rehashed h t) d.users (λ r. (refl, refl, refl)) u
edited-HasUnique (bind telegram) id t d allowed u = IsUnique-bound id telegram t d.users allowed u

module _ (lib : Externals) where
  Step-HasUnique : {d d' : Db} → Step lib d d' → HasUnique d → HasUnique d'
  Step-HasUnique (creates u w e) i =
      keeps-Atomic HasUnique (λ _. IsCreated u w.db) _ w.db _ (create_user-Atomic lib w u)
        (λ _ d' (t, free, rows, _, _).
          subst IsUnique (sym rows)
            (IsUnique-append w.db.users _ (subst HasUnique (sym e) i) free refl))
        (subst HasUnique (sym e) i)
  Step-HasUnique (edits id edit w e) i =
      keeps-Atomic HasUnique (λ _. Rewrites (IsAllowed edit id) id (edited edit) w.db) _ w.db _
        (apply-Atomic lib id w edit)
        (λ _ d' (t, allowed, _, rows, _, _).
          subst IsUnique (sym rows)
            (edited-HasUnique edit id t w.db allowed (subst HasUnique (sym e) i)))
        (subst HasUnique (sym e) i)
  Step-HasUnique (grants id ps w e) i =
      keeps-Atomic HasUnique (λ _. IsGranted id ps w.db) _ w.db _
        (set_permissions-Atomic lib w id ps)
        (λ _ d' (t, _, rows, _, _). subst IsUnique (sym rows) (
          IsUnique-update_where (is_user id) (touched t) w.db.users (λ r. (refl, refl, refl))
            (subst HasUnique (sym e) i)))
        (subst HasUnique (sym e) i)
  Step-HasUnique (links hash id expires w e) i =
      subst IsUnique (sym (link-users hash id expires w)) (subst HasUnique (sym e) i)
  Step-HasUnique (redeems hash telegram w e) i =
      keeps-Atomic HasUnique (λ id. IsRedeemed hash telegram id w.db) _ w.db _
        (redeem-Atomic lib w hash telegram)
        (λ id d' (t, _, free, _, rows, _, _).
          subst IsUnique (sym rows)
            (IsUnique-bound id telegram t w.db.users free (subst HasUnique (sym e) i)))
        (subst HasUnique (sym e) i)

  -- If no two users share an identifier, a login or a Telegram account, then after any sequence of
  -- methods, each of which may fail at any call, no two do.
  pub Reach-HasUnique : (d d' : Db) → Reach lib d d' → HasUnique d → HasUnique d'
  Reach-HasUnique d d' r u = go r
    where
      go : {d'' : Db} → Reach lib d d'' → HasUnique d''
      go start = u
      go (extend before step) = Step-HasUnique step (go before)
