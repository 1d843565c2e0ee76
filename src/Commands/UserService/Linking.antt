-- ===== src/Commands/UserService/Linking.antt =====
-- The links of internal/user/app for a user who has just been created, when no call fails.
use agency_bot.Base.{
  ℕ, ℤ, pos, ◌==ℤ◌, ◌+◌, ◌<◌, ◌≡◌, refl, ap, ◌∙◌, String, Bool, true, false, ◌==◌, ◌&&◌, not,
  Option, some, none, List, [], ◌∷◌, ◌++◌, any, find_first, eq_refl, arith, is_empty, Bool-cases,
  inl, inr,
}
use agency_bot.Effects.{Err, M, throw, ok, validation, World, now, call, map_err, ◌>>=◌, ◌>>◌, pure}
use agency_bot.Effects.Calm.{bind-ok, calm_world, guard-ok, map_err-ok}
use agency_bot.Sql.{count_where, update_where}
use agency_bot.Externals.{Uuid, nil_uuid}
use agency_bot.User.App.{
  Service, create_telegram_link, redeem_telegram_link, link_validity, map_conflict,
}
use agency_bot.User.Tables.{
  Db, UserRow, LinkRow, is_user, is_telegram, is_link, is_open, new_link, bound, select_link,
}
use agency_bot.User.Repository
use agency_bot.User.Repository.{scan, permissions_of, get}
use agency_bot.User.Repository.Success.{find-ok}
use agency_bot.User.Repository.LinkSuccess.{
  create_telegram_link-ok, redeem_telegram_link-ok, redeemed,
}
use agency_bot.Commands.UserService.{Platform, service, read_random}

find_first-update_where :
    (p : UserRow → Bool) (f : UserRow → UserRow) (rows : List UserRow) (r : UserRow)
    → ((r : UserRow) → p (f r) ≡ p r)
    → find_first p rows ≡ some r
    → find_first p (update_where p f rows) ≡ some (f r)
find_first-update_where p f [] r keeps found = absurd (ground (arith, found))
find_first-update_where p f (y ∷ rows) r keeps found = elim (Bool-cases (p y)) [
  | inl here ↦ ground (arith, here, found, keeps y)
  | inr other ↦
      ground (
        arith,
        other,
        found,
        find_first-update_where p f rows r keeps (ground (arith, other, found)),
      )
]

some_rows :
    (id : Uuid) (rows : List UserRow) (row : UserRow)
    → find_first (is_user id) rows ≡ some row
    → 0 < count_where (is_user id) rows
some_rows id [] row found = absurd (ground (arith, found))
some_rows id (y ∷ rows) row found = elim (Bool-cases (is_user id y)) [
  | inl here ↦ ground (arith, here)
  | inr other ↦ ground (arith, other, some_rows id rows row (ground (arith, other, found)))
]

module _ {X : Type 0} (x : X) (clock : ℕ → ℕ) (uuids : ℕ → Uuid) (p : Platform) where
  abbrev app : Service (World Db X)
  app = service p

  abbrev calm : Db → ℕ → World Db X
  calm d n = calm_world clock uuids d x n

  -- The token that a link gets, and the hash that is stored of it.
  abbrev pub token_at : ℕ → String
  token_at n = p.token_text (p.random n)

  abbrev pub hash_at : ℕ → String
  hash_at n = p.sha256 (token_at n)

  abbrev pub linked : Uuid → ℕ → ℕ → Db → Db
  linked id v n d = record d {
    links = d.links ++ (new_link (hash_at (n + 1)) id (clock (n + 1 + 1) + v) ∷ []);
  }

  new_token-ok :
      (d : Db) (n : ℕ) → app.new_token (calm d n) ≡ (ok (token_at (n + 1)), calm d (n + 1 + 1))
  unfolding read_random call ◌>>=◌
  new_token-ok d n = refl

  now-ok : (d : Db) (n : ℕ) → app.now (calm d n) ≡ (ok (clock n), calm d (n + 1))
  unfolding now
  now-ok d n = refl

  pub create_link-ok :
      (id : Uuid) (validity : ℤ) (v : ℕ) (d : Db) (n : ℕ)
      → (id == nil_uuid) ≡ false
      → link_validity validity ≡ some v
      → any (is_link (hash_at (n + 1))) d.links ≡ false
      → any (is_user id) d.users ≡ true
      → create_telegram_link app id validity (calm d n)
        ≡ (ok (token_at (n + 1), clock (n + 1 + 1) + v), calm (linked id v n d) (n + 1 + 1 + 1 + 1))
  unfolding create_telegram_link
  create_link-ok id validity v d n proper valid new found =
      guard-ok _ validation _ (calm d n) (ap not proper)
      ∙ (ap
            (λ o.
              (elim o as (λ _. M (World Db X) Err (String × ℕ)) [
                | none ↦ throw validation
                | some c ↦ app.new_token >>= λ token. app.now >>= λ t.
                    app.store.create_telegram_link (p.sha256 token) id (t + c)
                    >> pure (token, t + c)
              ])
                (calm d n))
            valid
          ∙ (bind-ok app.new_token _ (calm d n) _ (token_at (n + 1)) (new_token-ok d n)
              ∙ (bind-ok app.now _ (calm d (n + 1 + 1)) _ (clock (n + 1 + 1)) (now-ok d (n + 1 + 1))
                  ∙ bind-ok
                      (Repository.create_telegram_link (hash_at (n + 1)) id (clock (n + 1 + 1) + v))
                      _ (calm d (n + 1 + 1 + 1)) _ tt
                      (create_telegram_link-ok x clock uuids (hash_at (n + 1)) id
                        (clock (n + 1 + 1) + v) d (n + 1 + 1 + 1) new found))))

  find_first-link :
      (hash : String) (id : Uuid) (expires t : ℕ) (rows : List LinkRow)
      → any (is_link hash) rows ≡ false
      → t < expires
      → find_first (is_open hash t) (rows ++ (new_link hash id expires ∷ []))
        ≡ some (new_link hash id expires)
  find_first-link hash id expires t [] new soon = ground (arith, eq_refl hash, soon)
  find_first-link hash id expires t (r ∷ rows) new soon =
      ground (arith, find_first-link hash id expires t rows, new, soon)

  pub select_link-ok :
      (hash : String) (id : Uuid) (expires t : ℕ) (d : Db)
      → any (is_link hash) d.links ≡ false
      → t < expires
      → select_link hash t (record d { links = d.links ++ (new_link hash id expires ∷ []) })
        ≡ some id
  unfolding select_link
  select_link-ok hash id expires t d new soon =
      ap (λ o. elim o as (λ _. Option Uuid) [ none ↦ none | some r ↦ some r.user_id ])
        (find_first-link hash id expires t d.links new soon)

  -- Nobody but the user has the account.
  abbrev pub IsFreeFor : Uuid → ℤ → Db → Type 0
  IsFreeFor id telegram d =
      any (λ r. not (is_user id r) && is_telegram telegram r.telegram_id) d.users ≡ false

  pub redeem_link-ok :
      (token : String) (id : Uuid) (telegram : ℤ) (row : UserRow) (d : Db) (n : ℕ)
      → is_empty token ≡ false
      → (telegram ==ℤ pos 0) ≡ false
      → select_link (p.sha256 token) (clock (n + 1)) d ≡ some id
      → IsFreeFor id telegram d
      → find_first (is_user id) d.users ≡ some row
      → ((m : ℕ) → n < m → any (λ r. r.id == uuids m) d.outbox ≡ false)
      → (t : ℕ) × (ps : List String) × (v : World Db X) × (redeem_telegram_link app token telegram
            (calm d n)
          ≡ (ok (scan (bound telegram t row) ps), v))
  unfolding redeem_telegram_link get
  redeem_link-ok token id telegram row d n nonempty proper selected free found fresh =
      let (t, e, k, done) =
        redeem_telegram_link-ok x clock uuids p.lib (p.sha256 token) id telegram d n selected free
          (some_rows id d.users row found) fresh in
      (
        t,
        _,
        _,
        guard-ok _ validation _ (calm d n) (ground (arith, nonempty, proper))
            ∙ (bind-ok
                  (map_err map_conflict
                    (Repository.redeem_telegram_link p.lib (p.sha256 token) telegram))
                  _ (calm d n) _ id (map_err-ok _ _ _ _ _ done)
                ∙ find-ok x clock uuids p.lib (is_user id)
                    (redeemed x clock uuids (p.sha256 token) id telegram t e d)
                    (bound telegram t row) k
                    (find_first-update_where (is_user id) (bound telegram t) d.users row (λ r. refl)
                      found)),
      )
