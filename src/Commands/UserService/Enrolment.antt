-- ===== src/Commands/UserService/Enrolment.antt =====
-- A user who is created can log in: internal/user/app over its repository and its passwords, when no
-- call fails.
use agency_bot.Base.{
  ℕ, ◌+◌, ◌<◌, ◌≡◌, refl, ap, ◌∙◌, String, true, false, ◌==◌, ==_refl, ◌||◌, any, any-or_false,
  str_eq, ltb, arith, if◌then◌else◌, list_eq, trim_space, eq_refl,
}
use agency_bot.Effects.{
  ok, err, unauthorized, validation, World, call, new_uuid, guard, map_err, ◌>>=◌,
}
use agency_bot.Effects.Calm.{guard-ok, bind-ok, calm_world}
use agency_bot.Externals.{Uuid}
use agency_bot.Event.{OutboxRow}
use agency_bot.User.App.{Service, create, authenticate, is_acceptable, new_user}
use agency_bot.User.Domain.{
  Role, admin, performer, unknown_role, User, is_admin, is_performer, valid_login,
  default_permissions, rune_count,
}
use agency_bot.User.Tables.{Db, is_known, is_user}
use agency_bot.User.Password.{Bytes, costs, hash_with, hash}
use agency_bot.User.Password.RoundTrip.{verify-hash_eq}
use agency_bot.User.Repository
use agency_bot.User.Repository.{order_texts, by_login, get}
use agency_bot.User.Repository.Success.{IsAcceptable, create-ok, find-created, stored, created}
use agency_bot.User.Repository.Inserts.{distinct_texts}
use agency_bot.Commands.UserService.{Platform, service, read_random}

valid_login-short : (login : String) → valid_login login ≡ true → ltb 64 (rune_count login) ≡ false
unfolding valid_login
valid_login-short String.[] h = absurd (ground (arith, h))
valid_login-short (String.◌∷◌ c s) h = ground arith

default_permissions-distinct : (role : Role) → distinct_texts (default_permissions role) ≡ true
unfolding default_permissions
default_permissions-distinct admin = refl
default_permissions-distinct performer = refl
default_permissions-distinct (unknown_role s) = refl

-- Nobody has the login, and no identifier that is drawn is in use.
abbrev pub IsNew : (ℕ → Uuid) → String → Db → Type 0
IsNew uuids login d =
    (k : ℕ)
    → (any (λ r. r.id == uuids k || str_eq r.login login) d.users ≡ false)
      × (any (λ r. r.user_id == uuids k) d.permissions ≡ false)
      × (any (λ r. r.id == uuids k) d.outbox ≡ false)

known_role : (role : Role) → (is_admin role || is_performer role) ≡ true → is_known role ≡ true
known_role admin h = refl
known_role performer h = refl
known_role (unknown_role s) h = absurd (ground (arith, h))

authenticate_lem :
    {S : Type 0} (s : Service S) (login raw : String) (t t' : S) (u : User)
    → s.store.by_login login t ≡ (ok u, t')
    → u.is_active ≡ true
    → (authenticate s login raw t).0
      ≡ (if s.passwords.verify raw u.password_hash then ok u else err unauthorized)
unfolding authenticate guard map_err ◌>>=◌
authenticate_lem s login raw t t' u found active = ground arith

module _ {X : Type 0} (x : X) (clock : ℕ → ℕ) (uuids : ℕ → Uuid) (p : Platform) where
  abbrev app : Service (World Db X)
  app = service p

  abbrev calm : Db → ℕ → World Db X
  calm d n = calm_world clock uuids d x n

  hash-ok :
      (raw : String) (d : Db) (n : ℕ)
      → hash p.argon (read_random p) raw (calm d n)
        ≡ (ok (hash_with p.argon raw (p.random (n + 1))), calm d (n + 1 + 1))
  unfolding hash read_random call ◌>>=◌
  hash-ok raw d n = refl

  -- The user that `Create` makes in a world after `n` calls.
  abbrev pub enrolled : String → String → String → Role → ℕ → User
  enrolled login raw name role n =
      new_user app (uuids (n + 1 + 1)) (trim_space login) (hash_with p.argon raw (p.random (n + 1)))
        (trim_space name) role

  is_acceptable-IsAcceptable :
      (login raw name : String) (role : Role) (d : Db) (n : ℕ)
      → is_acceptable app (trim_space login) raw (trim_space name) role ≡ true
      → IsNew uuids (trim_space login) d
      → IsAcceptable x clock uuids (enrolled login raw name role n) d
  is_acceptable-IsAcceptable login raw name role d n fine new = (
    valid_login-short (trim_space login) (ground arith),
    known_role role (ground arith),
    (new (n + 1 + 1)).0,
    (new (n + 1 + 1)).1,
    default_permissions-distinct role,
    λ k. (new k).2,
  )

  pub create_app-ok :
      (login raw name : String) (role : Role) (d : Db) (n : ℕ)
      → is_acceptable app (trim_space login) raw (trim_space name) role ≡ true
      → IsNew uuids (trim_space login) d
      → (t : ℕ) × (e : OutboxRow) × (k : ℕ) × (m : ℕ) × (create app login raw name role (calm d n)
          ≡ (
            ok (stored x clock uuids p.lib (enrolled login raw name role n) t),
            calm (created x clock uuids (enrolled login raw name role n) t e d) k,
          ))
        × (e.id ≡ uuids m)
        × (m < k)
  unfolding create get new_uuid
  create_app-ok login raw name role d n fine new =
      let u : User = enrolled login raw name role n in
      let acceptable : IsAcceptable x clock uuids u d =
        is_acceptable-IsAcceptable login raw name role d n fine new in
      let (t, e, k, m, done, id, before) =
        create-ok x clock uuids p.lib u d (n + 1 + 1 + 1) acceptable in
      (
        t,
        e,
        k + 1 + 1,
        m,
        guard-ok _ validation _ (calm d n) fine
            ∙ (bind-ok (hash p.argon (read_random p) raw) _ (calm d n) _ _ (hash-ok raw d n)
                ∙ (bind-ok new_uuid _ (calm d (n + 1 + 1)) _ (uuids (n + 1 + 1)) refl
                    ∙ (bind-ok (Repository.create p.lib u) (λ _. get p.lib u.id)
                          (calm d (n + 1 + 1 + 1)) _ tt done
                        ∙ find-created x clock uuids p.lib (is_user u.id) u t e d k acceptable.3
                            (any-or_false (is_user u.id) (λ r. str_eq r.login u.login) d.users
                              acceptable.2).0
                            (==_refl u.id)))),
        id,
        omega (arith, before),
      )

  by_login-ok :
      (u : User) (t : ℕ) (e : OutboxRow) (d : Db) (n : ℕ)
      → IsAcceptable x clock uuids u d
      → by_login p.lib u.login (calm (created x clock uuids u t e d) n)
        ≡ (ok (stored x clock uuids p.lib u t), calm (created x clock uuids u t e d) (n + 1 + 1))
  unfolding by_login
  by_login-ok u t e d n acceptable =
      find-created x clock uuids p.lib (λ r. str_eq r.login u.login) u t e d n acceptable.3
        (any-or_false (is_user u.id) (λ r. str_eq r.login u.login) d.users acceptable.2).1
        (eq_refl u.login)

  -- When no call fails, the values are acceptable, nobody has the trimmed login and no identifier
  -- that is drawn is in use, then Create answers an active user with the trimmed login and name, the
  -- role and the role's permissions. Authenticate answers that user for the trimmed login and any
  -- password from which argon2 derives the same key with the salt that was drawn, and refuses every
  -- other password as unauthorized.
  pub create-authenticate :
      (login raw name other : String) (role : Role) (d : Db) (n : ℕ)
      → is_acceptable app (trim_space login) raw (trim_space name) role ≡ true
      → IsNew uuids (trim_space login) d
      → (u : User) × (w : World Db X) × (salt : Bytes) × (create app login raw name role (calm d n)
          ≡ (ok u, w))
        × (u.login ≡ trim_space login)
        × (u.full_name ≡ trim_space name)
        × (u.role ≡ role)
        × (u.is_active ≡ true)
        × (u.permissions ≡ order_texts p.lib (default_permissions role))
        × ((authenticate app (trim_space login) other w).0 ≡ (
            if list_eq (p.argon.id_key other salt costs 32) (p.argon.id_key raw salt costs 32)
            then ok u
            else err unauthorized))
  create-authenticate login raw name other role d n fine new =
      let u : User = enrolled login raw name role n in
      let acceptable : IsAcceptable x clock uuids u d =
        is_acceptable-IsAcceptable login raw name role d n fine new in
      let (t, e, k, m, done, id, before) = create_app-ok login raw name role d n fine new in
      (
        stored x clock uuids p.lib u t,
        calm (created x clock uuids u t e d) k,
        p.random (n + 1),
        done,
        refl,
        refl,
        refl,
        refl,
        refl,
        authenticate_lem app u.login other _ _ (stored x clock uuids p.lib u t)
              (by_login-ok u t e d k acceptable) refl
            ∙ ap (λ b. if b then ok (stored x clock uuids p.lib u t) else err unauthorized)
                (verify-hash_eq p.argon raw other (p.random (n + 1))),
      )
