-- ===== src/User/Accounts/Links.antt =====
-- A link that was redeemed stays used.
use agency_bot.Base.{
  ℕ, ℤ, ◌≡◌, refl, sym, subst, ◌∙◌, String, Bool, true, false, ◌&&◌, none, some, List, [], ◌∷◌,
  ◌++◌, any, any-append, find_first, str_eq, arith, Bool-cases, false≢true, eq_iff, ◌⊎◌,
  Option-cases, inl, inr,
}
use agency_bot.Effects.{Err, Result, ok, err, exec, call, guard, ◌>>=◌}
use agency_bot.Sql.{update_where, any-update_where}
use agency_bot.Externals.{Uuid, Externals}
use agency_bot.User.Tables.{
  new_link, LinkRow, Db, is_link, is_unused, is_open, used, select_link, insert_link,
}
use agency_bot.Effects.Laws.{Atomic}
use agency_bot.Event.{IsEvent}
use agency_bot.User.Repository.{
  create_telegram_link, redeem_telegram_link, exec_one, telegram_content,
}
use agency_bot.User.Repository.Announcements.{Announces}
use agency_bot.User.Repository.Writes.{edited, IsAllowed, Rewrites, apply-Atomic}
use agency_bot.User.Repository.Permissions.{
  IsCreated, IsGranted, create_user-Atomic, set_permissions-Atomic,
}
use agency_bot.User.Repository.Redeem.{IsRedeemed, redeem-Atomic}
use agency_bot.User.Accounts.{
  Session, Step, creates, edits, grants, links, redeems, Reach, start, extend,
}
use agency_bot.User.Accounts.Identity.{keeps-Atomic}

abbrev pub is_open_link : String → LinkRow → Bool
is_open_link hash r = is_link hash r && is_unused r

-- There is a link with the hash, and each is used.
abbrev pub IsSpent : String → List LinkRow → Type 0
IsSpent hash rows = (any (is_link hash) rows ≡ true) × (any (is_open_link hash) rows ≡ false)

select_link-none :
    (hash : String) (t : ℕ) (rows : List LinkRow)
    → any (is_open_link hash) rows ≡ false
    → find_first (is_open hash t) rows ≡ none
select_link-none hash t [] h = refl
select_link-none hash t (r ∷ rows) h = ground (arith, select_link-none hash t rows)

select_link-spent :
    (hash : String) (t : ℕ) (d : Db) → IsSpent hash d.links → select_link hash t d ≡ none
unfolding select_link
select_link-spent hash t d spent = rw (select_link-none hash t d.links spent.1, select_link)

-- Marking the links of any hash as used.
IsSpent-used :
    (hash other : String) (t : ℕ) (rows : List LinkRow)
    → IsSpent hash rows
    → IsSpent hash (update_where (is_link other) (used t) rows)
IsSpent-used hash other t rows (there, closed) = (
  any-update_where (is_link hash) (is_link other) (used t) rows (λ r. refl) ∙ there,
  go rows closed,
)
  where
    go :
        (rows : List LinkRow)
        → any (is_open_link hash) rows ≡ false
        → any (is_open_link hash) (update_where (is_link other) (used t) rows) ≡ false
    go [] h = refl
    go (r ∷ rows) h = ground (arith, go rows)

found-any :
    (hash : String) (k : ℕ) (rows : List LinkRow) (r : LinkRow)
    → find_first (is_open hash k) rows ≡ some r
    → any (is_link hash) rows ≡ true
found-any hash k [] r h = ground arith
found-any hash k (q ∷ rows) r h = ground (arith, found-any hash k rows r)

none_open :
    (hash : String) (t : ℕ) (rows : List LinkRow)
    → any (is_open_link hash) (update_where (is_link hash) (used t) rows) ≡ false
none_open hash t [] = refl
none_open hash t (r ∷ rows) = ground (arith, none_open hash t rows)

-- After its own use the link is spent.
redeemed-IsSpent :
    (hash : String) (t k : ℕ) (d : Db) (id : Uuid)
    → select_link hash k d ≡ some id
    → IsSpent hash (update_where (is_link hash) (used t) d.links)
unfolding select_link
redeemed-IsSpent hash t k d id h = (
  any-update_where (is_link hash) (is_link hash) (used t) d.links (λ r. refl)
      ∙ elim (Option-cases (find_first (is_open hash k) d.links)) [
        | inl missing ↦ absurd (ground arith)
        | inr (r, found) ↦ found-any hash k d.links r found
      ],
  none_open hash t d.links,
)

-- `CreateTelegramLink` adds a link at most, with a hash that is not there.
link-links :
    (other : String) (id : Uuid) (expires : ℕ) (w : Session)
    → ((create_telegram_link other id expires w).1.db.links ≡ w.db.links)
      ⊎ ((any (is_link other) w.db.links ≡ false)
          × ((create_telegram_link other id expires w).1.db.links
              ≡ w.db.links ++ (new_link other id expires ∷ [])))
unfolding create_telegram_link exec_one exec call guard ◌>>=◌ insert_link
link-links other id expires w = ground arith

IsSpent-append :
    (hash other : String) (id : Uuid) (expires : ℕ) (rows : List LinkRow)
    → any (is_link other) rows ≡ false
    → IsSpent hash rows
    → IsSpent hash (rows ++ (new_link other id expires ∷ []))
IsSpent-append hash other id expires rows absent (there, closed) =
    let ne : str_eq other hash ≡ false = elim (Bool-cases (str_eq other hash)) [
      | inl same ↦ absurd (
          false≢true (
            sym (subst (λ h. any (is_link h) rows ≡ false) ((eq_iff other hash).0 same) absent)
            ∙ there))
      | inr differ ↦ differ
    ] in
    (
      ground (arith, any-append (is_link hash) rows (new_link other id expires ∷ [])),
      ground (arith, any-append (is_open_link hash) rows (new_link other id expires ∷ [])),
    )

link-IsSpent :
    (hash other : String) (id : Uuid) (expires : ℕ) (w : Session)
    → IsSpent hash w.db.links
    → IsSpent hash (create_telegram_link other id expires w).1.db.links
link-IsSpent hash other id expires w spent = elim (link-links other id expires w) [
  | inl same ↦ subst (IsSpent hash) (sym same) spent
  | inr (absent, grown) ↦
      subst (IsSpent hash) (sym grown)
        (IsSpent-append hash other id expires w.db.links absent spent)
]

abbrev pub HasSpent : String → Db → Type 0
HasSpent hash d = IsSpent hash d.links

module _ (lib : Externals) (hash : String) where
  Step-HasSpent : {d d' : Db} → Step lib d d' → HasSpent hash d → HasSpent hash d'
  Step-HasSpent (creates u w e) i =
      keeps-Atomic (HasSpent hash) (λ _. IsCreated u w.db) _ w.db _ (create_user-Atomic lib w u)
        (λ _ d' (_, _, _, _, same).
          subst (IsSpent hash) (sym same) (subst (HasSpent hash) (sym e) i))
        (subst (HasSpent hash) (sym e) i)
  Step-HasSpent (edits id edit w e) i =
      keeps-Atomic (HasSpent hash) (λ _. Rewrites (IsAllowed edit id) id (edited edit) w.db) _ w.db
        _ (apply-Atomic lib id w edit)
        (λ _ d' (_, _, _, _, _, same).
          subst (IsSpent hash) (sym same) (subst (HasSpent hash) (sym e) i))
        (subst (HasSpent hash) (sym e) i)
  Step-HasSpent (grants id ps w e) i =
      keeps-Atomic (HasSpent hash) (λ _. IsGranted id ps w.db) _ w.db _
        (set_permissions-Atomic lib w id ps)
        (λ _ d' (_, _, _, _, same).
          subst (IsSpent hash) (sym same) (subst (HasSpent hash) (sym e) i))
        (subst (HasSpent hash) (sym e) i)
  Step-HasSpent (links other id expires w e) i =
      link-IsSpent hash other id expires w (subst (HasSpent hash) (sym e) i)
  Step-HasSpent (redeems other telegram w e) i =
      keeps-Atomic (HasSpent hash) (λ id. IsRedeemed other telegram id w.db) _ w.db _
        (redeem-Atomic lib w other telegram)
        (λ id d' (t, _, _, _, _, _, rows).
          subst (IsSpent hash) (sym rows)
            (IsSpent-used hash other t w.db.links (subst (HasSpent hash) (sym e) i)))
        (subst (HasSpent hash) (sym e) i)

  Reach-HasSpent : {d d' : Db} → Reach lib d d' → HasSpent hash d → HasSpent hash d'
  Reach-HasSpent start i = i
  Reach-HasSpent (extend before step) i = Step-HasSpent step (Reach-HasSpent before i)

  redeem_spent :
      (telegram : ℤ) (w : Session)
      → HasSpent hash w.db
      → (e : Err) × ((redeem_telegram_link lib hash telegram w).0 ≡ err e)
        × ((redeem_telegram_link lib hash telegram w).1.db ≡ w.db)
  redeem_spent telegram w spent =
      refused (redeem_telegram_link lib hash telegram w) (redeem-Atomic lib w hash telegram)
    where
      refused :
          (r : Result Err Uuid × Session)
          → Atomic
              (λ id d _.
                Announces
                  (IsRedeemed hash telegram id w.db)
                  (IsEvent id "user.telegram_bound" (telegram_content lib id telegram))
                  w.db
                  d)
              w.db
              r
          → (e : Err) × (r.0 ≡ err e) × (r.1.db ≡ w.db)
      refused (ok id, v) (_, (t, found, _, _, _, _, _), _, _) =
          absurd (ground (arith, select_link-spent hash t w.db spent))
      refused (err e, v) same = (e, refl, same)

  -- A link that was redeemed is redeemed only once: whatever methods run after it, in any order and
  -- with any failures, the same token is refused and nothing changes, for any Telegram account.
  pub redeem_once :
      (first second : ℤ) (id : Uuid) (w v : Session)
      → (redeem_telegram_link lib hash first w).0 ≡ ok id
      → Reach lib (redeem_telegram_link lib hash first w).1.db v.db
      → (e : Err) × ((redeem_telegram_link lib hash second v).0 ≡ err e)
        × ((redeem_telegram_link lib hash second v).1.db ≡ v.db)
  redeem_once first second id w v done after = redeem_spent second v (
      Reach-HasSpent after
        (spent (redeem_telegram_link lib hash first w) (redeem-Atomic lib w hash first) done))
    where
      spent :
          (r : Result Err Uuid × Session)
          → Atomic
              (λ id d _.
                Announces
                  (IsRedeemed hash first id w.db)
                  (IsEvent id "user.telegram_bound" (telegram_content lib id first))
                  w.db
                  d)
              w.db
              r
          → r.0 ≡ ok id
          → HasSpent hash r.1.db
      spent (ok a, u) (_, (t, found, _, _, _, _, rows), _, _) _ =
          subst (IsSpent hash) (sym rows) (redeemed-IsSpent hash t t w.db a found)
      spent (err e, u) _ bad = absurd (ground arith)
