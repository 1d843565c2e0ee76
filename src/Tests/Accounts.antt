-- ===== src/Tests/Accounts.antt =====
-- Witnesses about the accounts: the repository of the user service on a small database.
use agency_bot.Base.{ℕ, map, pos, ◌≡◌, refl, true, none, [], ◌∷◌}
use agency_bot.Effects.{
  Err, ok, err, transact, commit, exec, query, call, now, new_uuid, guard, ◌>>=◌,
}
use agency_bot.Effects.Laws.{Atomic, Ends}
use agency_bot.User.Repository.Pages.{IsPageSize, IsPage}
use agency_bot.User.Repository.Lists.{list-Ends}
use agency_bot.Event.{IsEvent}
use agency_bot.User.Domain.{User, performer}
use agency_bot.User.Tables.{Db, UserRow, bind_user, select_link, use_link, insert_outbox}
use agency_bot.User.Repository.{
  create, list, set_permissions, redeem_telegram_link, created_content, permissions_content,
  telegram_content, exec_one, or_not_found, write_event,
}
use agency_bot.User.Repository.Announcements.{Announces}
use agency_bot.User.Repository.Writes.{
  Rewrites, bind, edited, event_type, event_content, IsAllowed, apply, apply-Atomic,
}
use agency_bot.User.Repository.Permissions.{
  IsCreated, IsGranted, create_user-Atomic, set_permissions-Atomic,
}
use agency_bot.User.Repository.Redeem.{IsRedeemed, redeem-Atomic}
use agency_bot.User.Accounts.{Session, creates, redeems, Reach, start, extend}
use agency_bot.User.Accounts.Identity.{HasUnique, Reach-HasUnique}
use agency_bot.User.Accounts.Links.{redeem_once}
use agency_bot.Tests.Sample.{externals, calm}

abbrev anna : UserRow
anna = record {
  id = 5;
  login = "anna";
  password_hash = "hash";
  full_name = "Anna";
  role = performer;
  is_active = true;
  telegram_id = none;
  created_at = 1;
  updated_at = 1;
}

abbrev boris : User
boris = record {
  id = 6;
  login = "boris";
  password_hash = "hash";
  full_name = "Boris";
  role = performer;
  is_active = true;
  telegram_id = none;
  permissions = "ORDER_READ" ∷ [];
  created_at = 0;
  updated_at = 0;
}

abbrev accounts : Db
accounts = record {
  users = anna ∷ [];
  permissions = [];
  links = record { token_hash = "h"; user_id = 5; expires_at = 1000; used_at = none } ∷ [];
  outbox = [];
}

abbrev session : Session
session = record { db = accounts; ext = tt; env = calm; step = 0 }

apply-Atomic_example :
    Atomic
      (λ _ d _.
        Announces
          (Rewrites (IsAllowed (bind (pos 55)) 5) 5 (edited (bind (pos 55))) accounts)
          (IsEvent 5 (event_type (bind (pos 55))) (event_content externals 5 (bind (pos 55))))
          accounts
          d)
      accounts
      (apply externals 5 (bind (pos 55)) session)
apply-Atomic_example = apply-Atomic externals 5 session (bind (pos 55))

create_user-Atomic_example :
    Atomic
      (λ _ d _.
        Announces
          (IsCreated boris accounts)
          (IsEvent 6 "user.created" (created_content externals boris))
          accounts
          d)
      accounts
      (create externals boris session)
create_user-Atomic_example = create_user-Atomic externals session boris

set_permissions-Atomic_example :
    Atomic
      (λ _ d _.
        Announces
          (IsGranted 5 ("ORDER_READ" ∷ []) accounts)
          (IsEvent 5 "user.updated" (permissions_content externals 5 ("ORDER_READ" ∷ [])))
          accounts
          d)
      accounts
      (set_permissions externals 5 ("ORDER_READ" ∷ []) session)
set_permissions-Atomic_example = set_permissions-Atomic externals session 5 ("ORDER_READ" ∷ [])

redeem-Atomic_example :
    Atomic
      (λ id d _.
        Announces
          (IsRedeemed "h" (pos 55) id accounts)
          (IsEvent id "user.telegram_bound" (telegram_content externals id (pos 55)))
          accounts
          d)
      accounts
      (redeem_telegram_link externals "h" (pos 55) session)
redeem-Atomic_example = redeem-Atomic externals session "h" (pos 55)

-- A new user, and then the link of the first.
abbrev later : Db
later = (create externals boris session).1.db

abbrev history :
    Reach externals accounts
      (redeem_telegram_link externals "h" (pos 55) (record session { db = later })).1.db
history =
    extend (extend start (creates boris session refl))
      (redeems "h" (pos 55) (record session { db = later }) refl)

Reach-HasUnique_example :
    HasUnique (redeem_telegram_link externals "h" (pos 55) (record session { db = later })).1.db
Reach-HasUnique_example = Reach-HasUnique externals accounts _ history (refl, refl, refl, tt)

abbrev after : Session
after = (redeem_telegram_link externals "h" (pos 55) session).1

redeemed : (redeem_telegram_link externals "h" (pos 55) session).0 ≡ ok 5
unfolding redeem_telegram_link transact commit query exec call now new_uuid guard ◌>>=◌ select_link
    or_not_found exec_one bind_user use_link write_event insert_outbox
redeemed = refl

redeem_once_example :
    (e : Err) × ((redeem_telegram_link externals "h" (pos 66) after).0 ≡ err e)
    × ((redeem_telegram_link externals "h" (pos 66) after).1.db ≡ after.db)
redeem_once_example = redeem_once externals "h" (pos 55) (pos 66) 5 session after redeemed start

list-Ends_example :
    Ends
      (λ us _.
        (n : ℕ) × IsPageSize (pos 1000) n
        × IsPage externals n "" accounts.users (map (λ u. u.id) us))
      (λ e w. Unit {0})
      (list externals (pos 1000) "" session)
list-Ends_example = list-Ends externals (pos 1000) "" session
