-- ===== src/Commands/TelegramLinkToken/Calls.antt =====
-- The calls of cmd/telegram-link-token to the user service, where the service succeeds.
use agency_bot.Base.{
  ℕ, pos, ◌*◌, ◌≡◌, refl, ap, ◌∙◌, String, true, false, ◌==◌, not, some, none, is_empty,
  if◌then◌else◌, arith,
}
use agency_bot.Effects.{ok, M, pure, throw}
use agency_bot.Effects.Calm.{bind-ok, guard-ok, map_err-ok}
use agency_bot.Externals.{Uuid, Externals, nil_uuid}
use agency_bot.Grpc.{Refusal}
use agency_bot.Config
use agency_bot.Config.{Environment, env-set, env, development_secret}
use agency_bot.Commands.TelegramLinkToken.{
  Tools, Flags, UserClient, main, user_for, created_id, connect, header_of,
}
use agency_bot.Commands.TelegramLinkToken.Serving.{client, serve-signed}
use agency_bot.Commands.UserService.{
  Wiring, handle, create_user_call, create_telegram_link_call, user_reply, link_reply,
}
use agency_bot.User.App
use agency_bot.User.App.{Service}
use agency_bot.User.Domain.{is_admin, User}
use agency_bot.User.Transport.{
  UserMessage, CreateTelegramLinkResponse, role_admin, role_performer, to_proto, parse_id,
  CreateUserRequest, create_user, create_telegram_link, requested_role, to_status,
}

-- The user as a message.
abbrev pub message_of : Externals → User → UserMessage
message_of lib u = record {
  id = lib.to_string u.id;
  login = u.login;
  full_name = u.full_name;
  role = if is_admin u.role then role_admin else role_performer;
  is_active = u.is_active;
  telegram_id = u.telegram_id;
  permissions = u.permissions;
  created_at = u.created_at;
  updated_at = u.updated_at;
}

pub to_proto-proper :
    (lib : Externals) (u : User)
    → (u.id == nil_uuid) ≡ false
    → to_proto lib u ≡ some (message_of lib u)
unfolding to_proto
to_proto-proper lib u proper = rw (proper) refl

module _ {S : Type 0} (lib : Externals) (app : Service S) (tools : Tools) (text : Refusal → String)
    (w : Wiring) where
  abbrev net : UserClient S
  net = client lib app tools w text

  abbrev header : String
  header = header_of tools w.config.jwt_secret

  pub create_call-ok :
      (r : CreateUserRequest) (u : User) (v v' : S)
      → w.is_public "/user.v1.UserService/CreateUser" ≡ false
      → (u.id == nil_uuid) ≡ false
      → App.create app r.login r.password r.full_name (requested_role r.role) v ≡ (ok u, v')
      → net.create_user header r v ≡ (ok (some (message_of lib u)), v')
  unfolding handle create_user
  create_call-ok r u v v' guarded proper done =
      bind-ok _ _ v v' (user_reply (some (message_of lib u))) (
        map_err-ok text _ v v' _ (
          ap (λ m. m v) (serve-signed lib app tools w text (create_user_call r) guarded)
          ∙ bind-ok (create_user lib app r) _ v v' (some (message_of lib u)) (
              bind-ok _ _ v v' u (map_err-ok to_status _ v v' u done)
              ∙ ap (λ o. (ok o, v')) (to_proto-proper lib u proper))))

  pub link_call-ok :
      (id : Uuid) (seconds : ℕ) (link : String × ℕ) (v v' : S)
      → w.is_public "/user.v1.UserService/CreateTelegramLink" ≡ false
      → App.create_telegram_link app id (pos (seconds * 1000000000)) v ≡ (ok link, v')
      → net.create_telegram_link header (lib.to_string id) seconds v
        ≡ (ok (record { token = link.0; expires_at = link.1 }), v')
  unfolding handle create_telegram_link parse_id
  link_call-ok id seconds link v v' guarded done =
      bind-ok _ _ v v' (link_reply (record { token = link.0; expires_at = link.1 })) (
        map_err-ok text _ v v' _ (
          ap (λ m. m v)
            (serve-signed lib app tools w text
              (create_telegram_link_call (lib.to_string id) seconds) guarded)
          ∙ bind-ok (create_telegram_link lib app (lib.to_string id) seconds) _ v v'
              (record { token = link.0; expires_at = link.1 })
              (bind-ok _ _ v v' link
                (map_err-ok to_status _ v v' link (rw (lib.parse-to_string id, parse_id) done)))))

-- What the command does with a client that succeeds.
module _ {S : Type 0} (lib : Externals) (tools : Tools) (c : UserClient S)
    (getenv : Environment) where
  abbrev own_header : String
  own_header = header_of tools (Config.bot getenv).jwt_secret

  secret-set : not (is_empty (Config.bot getenv).jwt_secret) ≡ true
  unfolding Config.bot
  secret-set = ap not (env-set getenv "JWT_SECRET" development_secret refl)

  pub user_for-ok :
      (f : Flags) (m : UserMessage) (id : Uuid) (v v' : S)
      → is_empty f.login ≡ false
      → is_empty f.full_name ≡ false
      → is_empty f.password ≡ false
      → c.create_user own_header
          (record {
            login = f.login;
            password = f.password;
            full_name = f.full_name;
            role = role_admin;
          })
          v
        ≡ (ok (some m), v')
      → lib.parse m.id ≡ some id
      → user_for lib tools c own_header f v ≡ (ok id, v')
  unfolding user_for created_id
  user_for-ok f m id v v' login name password done parsed = rw (login) (
      guard-ok _ _ _ v (ground (arith, name, password))
      ∙ (bind-ok (c.create_user own_header _) (created_id lib tools c) v v' (some m) done
          ∙ ap
              (λ o.
                (elim o as (λ _. M S String Uuid) [ none ↦ throw "invalid UUID" | some u ↦ pure u ])
                  v')
              parsed))

  pub main-ok :
      (f : Flags) (id : Uuid) (link : CreateTelegramLinkResponse) (v v' v2 : S)
      → is_empty f.user_id ≡ true
      → user_for lib tools c own_header f v ≡ (ok id, v')
      → c.create_telegram_link own_header (lib.to_string id) (tools.seconds f.expires_in) v'
        ≡ (ok link, v2)
      → main lib tools c getenv none f v ≡ (ok link.token, v2)
  unfolding main connect
  main-ok f id link v v' v2 one user done =
      guard-ok _ _ _ v (ground (arith, one))
      ∙ (guard-ok _ _ _ v secret-set
          ∙ (bind-ok (connect lib tools c none) _ v v tt refl
              ∙ (bind-ok (user_for lib tools c own_header f) _ v v' id user
                  ∙ bind-ok
                      (c.create_telegram_link own_header (lib.to_string id)
                        (tools.seconds f.expires_in))
                      _ v' v2 link done)))
