-- ===== src/Commands/TelegramLinkToken/Steps.antt =====
-- The steps of a new administrator from cmd/telegram-link-token to the bound Telegram account, in the
-- user service, when no call fails.
use agency_bot.Base.{
  ℕ, ℤ, pos, ◌==ℤ◌, ◌+◌, ◌<◌, ◌≡◌, refl, ap, ◌∙◌, String, true, false, ◌==◌, ==_refl, ◌&&◌, not,
  some, none, List, [], ◌∷◌, ◌++◌, any, any-append, any-or_false, arith, is_empty, trim_space, ltb,
  str_eq,
}
use agency_bot.Effects.{ok, World}
use agency_bot.Effects.Calm.{bind-ok, calm_world, map_err-ok}
use agency_bot.Externals.{Uuid, nil_uuid}
use agency_bot.Event.{OutboxRow}
use agency_bot.Auth.{interceptor}
use agency_bot.Commands.TelegramLinkToken.{Tools, Flags}
use agency_bot.Commands.TelegramLinkToken.Calls.{message_of, to_proto-proper}
use agency_bot.Commands.UserService.{
  Platform, Wiring, service, handle, serve, redeem_telegram_link_call, user_reply,
}
use agency_bot.Commands.UserService.Enrolment.{IsNew, create_app-ok, enrolled}
use agency_bot.Commands.UserService.Linking.{
  create_link-ok, redeem_link-ok, select_link-ok, token_at, hash_at, linked,
}
use agency_bot.User.App
use agency_bot.User.App.{Service, is_acceptable, link_validity}
use agency_bot.User.Domain.{admin, User, valid_login, byte_length}
use agency_bot.User.Repository.{scan}
use agency_bot.User.Repository.Success.{created, stored}
use agency_bot.User.Repository.Inserts.{find_first-new}
use agency_bot.User.Tables.{Db, UserRow, new_row, is_user, is_telegram, is_link, bound}
use agency_bot.User.Transport.{redeem_telegram_link, to_status}

pub filled : (s : String) → is_empty (trim_space s) ≡ false → is_empty s ≡ false
unfolding trim_space
filled String.[] h = h
filled (String.◌∷◌ c s) h = refl

pub long_filled : (s : String) → ltb (byte_length s) 12 ≡ false → is_empty s ≡ false
long_filled String.[] h = absurd (ground (arith, h))
long_filled (String.◌∷◌ c s) h = refl

pub login_filled : (s : String) → valid_login s ≡ true → is_empty s ≡ false
unfolding valid_login
login_filled String.[] h = absurd (ground (arith, h))
login_filled (String.◌∷◌ c s) h = refl

-- No identifier is drawn twice, and none is nil.
abbrev pub IsRandom : (ℕ → Uuid) → Type 0
IsRandom uuids =
    ((j k : ℕ) → j < k → (uuids j == uuids k) ≡ false) × ((k : ℕ) → (uuids k == nil_uuid) ≡ false)

still_free :
    (id : Uuid) (telegram : ℤ) (rows : List UserRow) (r : UserRow)
    → any (λ r. is_telegram telegram r.telegram_id) rows ≡ false
    → r.telegram_id ≡ none
    → any (λ r. not (is_user id r) && is_telegram telegram r.telegram_id) (rows ++ (r ∷ [])) ≡ false
still_free id telegram [] r free unbound = ground (arith, unbound)
still_free id telegram (y ∷ rows) r free unbound =
    ground (arith, free, still_free id telegram rows r, unbound)

module _ {X : Type 0} (x : X) (clock : ℕ → ℕ) (uuids : ℕ → Uuid) (p : Platform) where
  abbrev app : Service (World Db X)
  app = service p

  abbrev calm : Db → ℕ → World Db X
  calm d n = calm_world clock uuids d x n

  -- Every code that is drawn is new, and none is empty.
  abbrev pub HasNewCodes : Db → Type 0
  HasNewCodes d =
      (k : ℕ)
      → (any (is_link (hash_at x clock uuids p k)) d.links ≡ false)
        × (is_empty (token_at x clock uuids p k) ≡ false)

  pub redeem_call-ok :
      (tools : Tools) (w : Wiring) (token : String) (telegram : ℤ) (u : User) (v v' : World Db X)
      → w.is_public "/user.v1.UserService/RedeemTelegramLink" ≡ true
      → (u.id == nil_uuid) ≡ false
      → App.redeem_telegram_link app token telegram v ≡ (ok u, v')
      → serve p.lib app tools.jwt w none (redeem_telegram_link_call token telegram) v
        ≡ (ok (user_reply (some (message_of p.lib u))), v')
  unfolding serve interceptor handle redeem_telegram_link
  redeem_call-ok tools w token telegram u v v' open_to_all proper done = rw (open_to_all) (
      bind-ok (redeem_telegram_link p.lib app token telegram) _ v v' (some (message_of p.lib u)) (
        bind-ok _ _ v v' u (map_err-ok to_status _ v v' u done)
        ∙ ap (λ o. (ok o, v')) (to_proto-proper p.lib u proper)))

  -- The world after `Create`, and the user that it has made.
  pub record Created (f : Flags) (d : Db) (n : ℕ) : Type 0 where
    pub user : User
    pub t : ℕ
    pub e : OutboxRow
    pub k : ℕ
    pub m : ℕ
    pub done :
        App.create app f.login f.password f.full_name admin (calm d n)
        ≡ (ok (stored x clock uuids p.lib user t), calm (created x clock uuids user t e d) k)
    pub drawn : e.id ≡ uuids m
    pub before : m < k
    pub id : user.id ≡ uuids (n + 1 + 1)
    pub login : user.login ≡ trim_space f.login
    pub role : user.role ≡ admin
    pub active : user.is_active ≡ true

  pub created_by :
      (f : Flags) (d : Db) (n : ℕ)
      → is_acceptable app (trim_space f.login) f.password (trim_space f.full_name) admin ≡ true
      → IsNew uuids (trim_space f.login) d
      → Created f d n
  created_by f d n fine new =
      let (t, e, k, m, done, drawn, before) =
        create_app-ok x clock uuids p f.login f.password f.full_name admin d n fine new in
      record {
        user = enrolled x clock uuids p f.login f.password f.full_name admin n;
        t = t;
        e = e;
        k = k;
        m = m;
        done = done;
        drawn = drawn;
        before = before;
        id = refl;
        login = refl;
        role = refl;
        active = refl;
      }

  module _ (f : Flags) (d : Db) (n : ℕ) (telegram : ℤ) (v : ℕ) (c : Created f d n)
      (new : IsNew uuids (trim_space f.login) d) (random : IsRandom uuids)
      (codes : HasNewCodes d) where
    open c use {user, t, e, k, m}

    abbrev pub d1 : Db
    d1 = created x clock uuids user t e d

    abbrev pub d2 : Db
    d2 = linked x clock uuids p user.id v k d1

    pub user-proper : (user.id == nil_uuid) ≡ false
    user-proper = rw (c.id) (random.1 (n + 1 + 1))

    user-there : any (is_user user.id) d1.users ≡ true
    user-there =
        any-append (is_user user.id) d.users (new_row user t ∷ []) ∙ ground (arith, ==_refl user.id)

    user-absent : any (is_user user.id) d.users ≡ false
    user-absent =
        rw (c.id)
          (any-or_false (λ r. r.id == uuids (n + 1 + 1)) (λ r. str_eq r.login (trim_space f.login))
            d.users (new (n + 1 + 1)).0).0

    pub link-ok :
        (validity : ℤ)
        → link_validity validity ≡ some v
        → App.create_telegram_link app user.id validity (calm d1 k) ≡ (
          ok (token_at x clock uuids p (k + 1), clock (k + 1 + 1) + v),
          calm d2 (k + 1 + 1 + 1 + 1),
        )
    link-ok validity valid =
        create_link-ok x clock uuids p user.id validity v d1 k user-proper valid (codes (k + 1)).0
          user-there

    rows_apart : (j : ℕ) → k + 1 + 1 + 1 + 1 < j → any (λ r. r.id == uuids j) d2.outbox ≡ false
    rows_apart j later =
        any-append (λ r. r.id == uuids j) d.outbox (e ∷ [])
        ∙ ground (arith, (new j).2, c.drawn, random.0 m j (omega (arith, later, c.before)))

    pub bound-ok :
        ((j i : ℕ) → clock i < clock j + v)
        → (telegram ==ℤ pos 0) ≡ false
        → any (λ r. is_telegram telegram r.telegram_id) d.users ≡ false
        → (t' : ℕ) × (ps : List String) × (w : World Db X) × (App.redeem_telegram_link app
              (token_at x clock uuids p (k + 1))
              telegram
              (calm d2 (k + 1 + 1 + 1 + 1))
            ≡ (ok (scan (bound telegram t' (new_row user t)) ps), w))
    bound-ok soon proper free =
        redeem_link-ok x clock uuids p (token_at x clock uuids p (k + 1)) user.id telegram
          (new_row user t) d2 (k + 1 + 1 + 1 + 1) (codes (k + 1)).1 proper
          (select_link-ok x clock uuids p (hash_at x clock uuids p (k + 1)) user.id
            (clock (k + 1 + 1) + v) (clock (k + 1 + 1 + 1 + 1 + 1)) d1 (codes (k + 1)).0
            (soon (k + 1 + 1) (k + 1 + 1 + 1 + 1 + 1)))
          (still_free user.id telegram d.users (new_row user t) free refl)
          (find_first-new (is_user user.id) d.users (new_row user t) user-absent (==_refl user.id))
          rows_apart
