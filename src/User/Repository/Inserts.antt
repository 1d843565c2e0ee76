-- ===== src/User/Repository/Inserts.antt =====
-- The INSERT statements of internal/user/repository/postgres.go where no constraint stands against
-- them, and what is found of the rows that they add.
use agency_bot.Base.{
  ℕ, ◌≡◌, refl, String, Bool, true, false, ◌==◌, ==_refl, ◌&&◌, ◌||◌, some, not, List, [], ◌∷◌,
  ◌++◌, any, every, find_first, keep, map, str_eq, ltb, arith,
}
use agency_bot.Effects.{ok}
use agency_bot.Externals.{Uuid}
use agency_bot.Event.{OutboxRow}
use agency_bot.User.Domain.{User, rune_count}
use agency_bot.User.Tables.{
  UserRow, PermissionRow, Db, is_user, is_known, is_permission, new_row, insert_user,
  insert_permission, insert_outbox,
}
use agency_bot.User.Repository.Permissions.{grants}

-- No permission is in the list twice.
abbrev pub distinct_texts : List String → Bool
distinct_texts [] = true
distinct_texts (p ∷ ps) = not (any (λ q. str_eq p q) ps) && distinct_texts ps

pub insert_outbox-ok :
    (e : OutboxRow) (d : Db)
    → any (λ r. r.id == e.id) d.outbox ≡ false
    → insert_outbox e d ≡ ok (1, record d { outbox = d.outbox ++ (e ∷ []) })
unfolding insert_outbox
insert_outbox-ok e d new = rw (new) refl

pub insert_permission-ok :
    (id : Uuid) (p : String) (d : Db)
    → any (is_permission id p) d.permissions ≡ false
    → any (is_user id) d.users ≡ true
    → insert_permission id p d
      ≡ ok (1, record d { permissions = d.permissions ++ (record { user_id = id; code = p } ∷ []) })
unfolding insert_permission
insert_permission-ok id p d new found = rw (new, found) refl

pub insert_user-ok :
    (u : User) (t : ℕ) (d : Db)
    → ltb 64 (rune_count u.login) ≡ false
    → is_known u.role ≡ true
    → any (λ r. r.id == u.id || str_eq r.login u.login) d.users ≡ false
    → insert_user u t d ≡ ok (1, record d { users = d.users ++ (new_row u t ∷ []) })
unfolding insert_user
insert_user-ok u t d short known new = rw (short, known, new) refl

-- Whether the permission is free for the user.
abbrev pub is_free : Uuid → String → List PermissionRow → Bool
is_free id p rows = not (any (is_permission id p) rows)

free_after :
    (id : Uuid) (p q : String) (rows : List PermissionRow)
    → str_eq p q ≡ false
    → is_free id q rows ≡ true
    → is_free id q (rows ++ (record { user_id = id; code = p } ∷ [])) ≡ true
free_after id p q [] other free = ground arith
free_after id p q (r ∷ rows) other free = ground (arith, free_after id p q rows)

pub every_free :
    (id : Uuid) (p : String) (ps : List String) (rows : List PermissionRow)
    → any (λ q. str_eq p q) ps ≡ false
    → every (λ q. is_free id q rows) ps ≡ true
    → every (λ q. is_free id q (rows ++ (record { user_id = id; code = p } ∷ []))) ps ≡ true
every_free id p [] rows other free = refl
every_free id p (q ∷ ps) rows other free =
    ground (arith, every_free id p ps rows, free_after id p q rows)

bare_free :
    (id : Uuid) (q : String) (rows : List PermissionRow)
    → any (λ r. r.user_id == id) rows ≡ false
    → is_free id q rows ≡ true
bare_free id q [] bare = refl
bare_free id q (r ∷ rows) bare = ground (arith, bare_free id q rows)

pub all_free :
    (id : Uuid) (ps : List String) (rows : List PermissionRow)
    → any (λ r. r.user_id == id) rows ≡ false
    → every (λ q. is_free id q rows) ps ≡ true
all_free id [] rows bare = refl
all_free id (p ∷ ps) rows bare = ground (arith, all_free id ps rows bare, bare_free id p rows bare)

pub find_first-new :
    (p : UserRow → Bool) (rows : List UserRow) (r : UserRow)
    → any p rows ≡ false
    → p r ≡ true
    → find_first p (rows ++ (r ∷ [])) ≡ some r
find_first-new p [] r none_before here = ground arith
find_first-new p (y ∷ rows) r none_before here = ground (arith, find_first-new p rows r)

pub keep-grants :
    (id : Uuid) (ps : List String)
    → map (λ r. r.code) (keep (λ r. r.user_id == id) (grants id ps)) ≡ ps
keep-grants id [] = refl
keep-grants id (p ∷ ps) = ground (arith, keep-grants id ps, ==_refl id)

pub keep-bare :
    (id : Uuid) (rows more : List PermissionRow)
    → any (λ r. r.user_id == id) rows ≡ false
    → keep (λ r. r.user_id == id) (rows ++ more) ≡ keep (λ r. r.user_id == id) more
keep-bare id [] more bare = refl
keep-bare id (r ∷ rows) more bare = ground (arith, keep-bare id rows more)
