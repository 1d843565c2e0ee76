-- ===== src/User/Repository/Redeem.antt =====
-- What `RedeemTelegramLink` does to the database.
use agency_bot.Base.{ℕ, ◌<◌, ℤ, ◌≡◌, refl, sym, ap, ◌∙◌, String, Option, none, some, arith}
use agency_bot.Effects.{Err, ok, M, World, ◌>>=◌}
use agency_bot.Effects.Laws.{
  Ensures, done, failed, Atomic, Ensures-bind, Ensures-exec, Ensures-query, Atomic-transact,
}
use agency_bot.Sql.{count_where, update_where}
use agency_bot.Externals.{Uuid, Externals}
use agency_bot.Event.{IsEvent}
use agency_bot.User.Tables.{Db, is_user, is_link, bound, used, bind_user, select_link, use_link}
use agency_bot.User.Repository.{redeem_telegram_link, or_not_found, exec_one, telegram_content}
use agency_bot.User.Repository.Announcements.{Tables, Announces, write_event-Announces}
use agency_bot.User.Repository.Writes.{IsFree, exec_one-Ensures, bind_user-DoesRewrite}

-- The tables after the link with the hash has bound the account `telegram` to the user `id`.
abbrev pub IsRedeemed : String → ℤ → Uuid → Db → Tables
IsRedeemed hash telegram id d users permissions links =
    (t : ℕ) × (select_link hash t d ≡ some id)
    × IsFree id telegram d
    × (0 < count_where (is_user id) d.users)
    × (users ≡ update_where (is_user id) (bound telegram t) d.users)
    × (permissions ≡ d.permissions)
    × (links ≡ update_where (is_link hash) (used t) d.links)

use_link-ok :
    (hash : String) (t : ℕ) (d d' : Db) (n : ℕ)
    → use_link hash t d ≡ ok (n, d')
    → d' ≡ record d { links = update_where (is_link hash) (used t) d.links }
unfolding use_link
use_link-ok hash t d d' n e = ground arith

module _ {X A B : Type 0} (Q : B → Db → X → Type 0) where
  Ensures-or_not_found :
      (o : Option A) (k : A → M (World Db X) Err B) (w : World Db X)
      → ((a : A) → o ≡ some a → Ensures Q (k a w))
      → Ensures Q ((or_not_found o >>= k) w)
  unfolding or_not_found ◌>>=◌
  Ensures-or_not_found none k w next = failed _ w
  Ensures-or_not_found (some a) k w next = next a refl

module _ {X : Type 0} (lib : Externals) (w : World Db X) where
  -- RedeemTelegramLink changes nothing, or there is a link with the hash that is unused and has not
  -- expired when the transaction begins: then the user of the link, who exists, has the Telegram
  -- account, which was nobody else's, the link is used, and one pending event announces it.
  pub redeem-Atomic :
      (hash : String) (telegram : ℤ)
      → Atomic
          (λ id d _.
            Announces
              (IsRedeemed hash telegram id w.db)
              (IsEvent id "user.telegram_bound" (telegram_content lib id telegram))
              w.db
              d)
          w.db
          (redeem_telegram_link lib hash telegram w)
  unfolding redeem_telegram_link
  redeem-Atomic hash telegram = Atomic-transact _ _ w λ t v e _.
      Ensures-query _ (select_link hash t) _ v λ u e' _.
        Ensures-or_not_found _ (select_link hash t v.db) _ u λ id found.
          Ensures-bind _ _ (exec_one (bind_user id telegram t)) _ u
            (exec_one-Ensures (IsFree id telegram) id (bound telegram t) (bind_user id telegram t)
              w.db u (e' ∙ e) (bind_user-DoesRewrite id telegram t))
            λ _ z (free, some_rows, rewritten).
              let content = telegram_content lib id telegram in
              Ensures-bind
                (λ _ d _.
                  Announces (IsRedeemed hash telegram id w.db)
                    (IsEvent id "user.telegram_bound" content) w.db d)
                _ _ _ z
                (Ensures-exec _ (use_link hash t) _ z λ n y marked _.
                  let same =
                    use_link-ok hash t z.db y.db n marked
                    ∙ ap
                        (λ (x : Db). record x {
                          links = update_where (is_link hash) (used t) x.links;
                        })
                        rewritten in
                  write_event-Announces (IsRedeemed hash telegram id w.db) w.db t id _ content y
                    (
                      t,
                      ap (select_link hash t) (sym e) ∙ found,
                      free,
                      some_rows,
                      ap (λ (x : Db). x.users) same,
                      ap (λ (x : Db). x.permissions) same,
                      ap (λ (x : Db). x.links) same,
                    )
                    (ap (λ (x : Db). x.outbox) same))
                λ _ y announced. done id y announced
