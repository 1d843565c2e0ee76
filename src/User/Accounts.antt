-- ===== src/User/Accounts.antt =====
-- The accounts of the user service when any number of requests run: the methods of
-- internal/user/repository/postgres.go in any order, each of which may fail at any call. A method is
-- one transaction or one statement, so a step is one method.
pub mod Unique
pub mod Links
pub mod Identity
use agency_bot.Base.{ℕ, ℤ, ◌≡◌, String, List}
use agency_bot.Effects.{World}
use agency_bot.Externals.{Uuid, Externals}
use agency_bot.User.Domain.{User}
use agency_bot.User.Tables.{Db}
use agency_bot.User.Repository.{create, set_permissions, create_telegram_link, redeem_telegram_link}
use agency_bot.User.Repository.Writes.{Edit, apply}

-- The repository of one call; its calls have no effects but those on the database.
abbrev pub Session : Type 0
Session = World Db (Unit {0})

module _ (lib : Externals) where
  pub data Step (d : Db) : Db → Type 0 where
    creates : (u : User) (w : Session) → w.db ≡ d → Step d (create lib u w).1.db
    edits : (id : Uuid) (e : Edit) (w : Session) → w.db ≡ d → Step d (apply lib id e w).1.db
    grants :
        (id : Uuid) (ps : List String) (w : Session)
        → w.db ≡ d
        → Step d (set_permissions lib id ps w).1.db
    links :
        (hash : String) (id : Uuid) (expires : ℕ) (w : Session)
        → w.db ≡ d
        → Step d (create_telegram_link hash id expires w).1.db
    redeems :
        (hash : String) (telegram : ℤ) (w : Session)
        → w.db ≡ d
        → Step d (redeem_telegram_link lib hash telegram w).1.db

  pub data Reach (d : Db) : Db → Type 0 where
    start : Reach d d
    extend : {d' d'' : Db} → Reach d d' → Step d' d'' → Reach d d''
