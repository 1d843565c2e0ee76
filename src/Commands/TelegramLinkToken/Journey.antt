-- ===== src/Commands/TelegramLinkToken/Journey.antt =====
-- A new administrator from the command to the bound Telegram account: cmd/telegram-link-token in front
-- of cmd/user-service.
use agency_bot.Base.{
  ℕ, ℤ, pos, ◌==ℤ◌, ◌+◌, ◌*◌, ◌<◌, ◌≡◌, refl, sym, subst, if◌then◌else◌, ap, String, true, false,
  some, none, any, arith, is_empty, trim_space,
}
use agency_bot.Effects.{ok, World}
use agency_bot.Effects.Calm.{calm_world}
use agency_bot.Externals.{Uuid}
use agency_bot.Grpc.{Refusal}
use agency_bot.Config
use agency_bot.Config.{Environment}
use agency_bot.Commands.Access.{user_wiring}
use agency_bot.Commands.Start.{runs}
use agency_bot.Commands.TelegramLinkToken.{Tools, Flags, main}
use agency_bot.Commands.TelegramLinkToken.Calls.{
  message_of, create_call-ok, link_call-ok, user_for-ok, main-ok,
}
use agency_bot.Commands.TelegramLinkToken.Serving.{client}
use agency_bot.Commands.TelegramLinkToken.Steps.{
  Created, created_by, IsRandom, HasNewCodes, redeem_call-ok, link-ok, bound-ok, user-proper,
  filled, long_filled, login_filled,
}
use agency_bot.Commands.UserService
use agency_bot.Commands.UserService.{
  Platform, Wiring, service, serve, redeem_telegram_link_call, user_reply,
}
use agency_bot.Commands.UserService.Enrolment.{IsNew}
use agency_bot.Commands.UserService.Linking.{token_at}
use agency_bot.User.App.{is_acceptable, link_validity}
use agency_bot.User.Domain.{admin, is_admin, User}
use agency_bot.User.Repository.{scan}
use agency_bot.User.Repository.Success.{stored}
use agency_bot.User.Tables
use agency_bot.User.Tables.{Db, new_row, is_telegram}
use agency_bot.User.Transport.{UserMessage, role_admin, role_performer, requested_role}

module _ {X : Type 0} (x : X) (clock : ℕ → ℕ) (uuids : ℕ → Uuid) (p : Platform) (tools : Tools)
    (text : Refusal → String) (getenv : Environment) where
  abbrev calm : Db → ℕ → World Db X
  calm d n = calm_world clock uuids d x n

  abbrev wiring : Wiring
  wiring = record { config = Config.user getenv; is_public = UserService.public_methods }

  -- What the command and then the redemption of its code come to.
  abbrev pub Bound : Wiring → Flags → ℤ → World Db X → Type 0
  Bound w f telegram v =
      (code : String) × (v' : World Db X) × (v2 : World Db X) × (m : UserMessage) × (main p.lib
          tools (client p.lib (service p) tools w text) getenv none f v
        ≡ (ok code, v'))
      × (serve p.lib (service p) tools.jwt w none (redeem_telegram_link_call code telegram) v'
          ≡ (ok (user_reply (some m)), v2))
      × (m.login ≡ trim_space f.login)
      × (m.role ≡ role_admin)
      × (m.is_active ≡ true)
      × (m.telegram_id ≡ some telegram)

  created-Bound :
      (f : Flags) (d : Db) (n v : ℕ) (telegram : ℤ) (c : Created x clock uuids p f d n)
      → is_empty f.user_id ≡ true
      → is_acceptable
          (service {X = X} p)
          (trim_space f.login)
          f.password
          (trim_space f.full_name)
          admin
        ≡ true
      → IsNew uuids (trim_space f.login) d
      → IsRandom uuids
      → HasNewCodes x clock uuids p d
      → link_validity (pos (tools.seconds f.expires_in * 1000000000)) ≡ some v
      → ((j i : ℕ) → clock i < clock j + v)
      → (telegram ==ℤ pos 0) ≡ false
      → any (λ r. is_telegram telegram r.telegram_id) d.users ≡ false
      → Bound wiring f telegram (calm d n)
  unfolding Config.user Config.bot requested_role
  created-Bound f d n v telegram c one fine new random codes valid soon proper free =
      let created =
        create_call-ok p.lib (service p) tools text wiring
          (record {
            login = f.login;
            password = f.password;
            full_name = f.full_name;
            role = role_admin;
          })
          (stored x clock uuids p.lib c.user c.t) (calm d n) _ refl
          (user-proper x clock uuids p f d n telegram v c new random codes) c.done in
      let linked =
        link-ok x clock uuids p f d n telegram v c new random codes
          (pos (tools.seconds f.expires_in * 1000000000)) valid in
      let (t', ps, v2, bound) =
        bound-ok x clock uuids p f d n telegram v c new random codes soon proper free in
      let u : User = scan (Tables.bound telegram t' (new_row c.user c.t)) ps in
      (
        token_at x clock uuids p (c.k + 1),
        _,
        v2,
        message_of p.lib u,
        main-ok p.lib tools (client p.lib (service p) tools wiring text) getenv f c.user.id _ _ _ _
            one
            (user_for-ok p.lib tools (client p.lib (service p) tools wiring text) getenv f
              (message_of p.lib (stored x clock uuids p.lib c.user c.t)) c.user.id _ _
              (filled f.login (login_filled (trim_space f.login) (ground (arith, fine))))
              (filled f.full_name (ground (arith, fine)))
              (long_filled f.password (ground (arith, fine))) created
              (p.lib.parse-to_string c.user.id))
            (link_call-ok p.lib (service p) tools text wiring c.user.id (tools.seconds f.expires_in)
              _ _ _ refl linked),
        redeem_call-ok x clock uuids p tools wiring (token_at x clock uuids p (c.k + 1)) telegram u
            _ v2 refl (user-proper x clock uuids p f d n telegram v c new random codes) bound,
        c.login,
        ap (λ r. if is_admin r then role_admin else role_performer) c.role,
        c.active,
        refl,
      )

  -- The command with -create-admin in front of a user service that runs in the same environment, with
  -- no call that fails: if the login, the name and the password are acceptable, nobody has the trimmed
  -- login, the identifiers and codes that are drawn are new, and the validity of the code is allowed,
  -- then the command prints a code. While it is valid, its redemption without a token, for a
  -- Telegram account that nobody has, answers the new administrator, active, with the account.
  pub enrol-redeem :
      (startup : UserService.Startup) (w : Wiring) (f : Flags) (d : Db) (n v : ℕ) (telegram : ℤ)
      → UserService.start getenv startup ≡ runs w
      → is_empty f.user_id ≡ true
      → is_acceptable
          (service {X = X} p)
          (trim_space f.login)
          f.password
          (trim_space f.full_name)
          admin
        ≡ true
      → IsNew uuids (trim_space f.login) d
      → IsRandom uuids
      → HasNewCodes x clock uuids p d
      → link_validity (pos (tools.seconds f.expires_in * 1000000000)) ≡ some v
      → ((j i : ℕ) → clock i < clock j + v)
      → (telegram ==ℤ pos 0) ≡ false
      → any (λ r. is_telegram telegram r.telegram_id) d.users ≡ false
      → Bound w f telegram (calm d n)
  enrol-redeem startup w f d n v telegram started one fine new random codes valid soon proper free =
      subst (λ w. Bound w f telegram (calm d n)) (sym (user_wiring getenv startup w started))
        (created-Bound f d n v telegram (created_by x clock uuids p f d n fine new) one fine new
          random codes valid soon proper free)
