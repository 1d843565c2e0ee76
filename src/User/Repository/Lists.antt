-- ===== src/User/Repository/Lists.antt =====
-- What `List` answers.
use agency_bot.Base.{
  ℕ, ℤ, ◌≡◌, refl, sym, ap₂, subst, ◌∙◌, String, Option, none, some, List, [], ◌∷◌, map, find_first,
  arith, Bool-cases, inl, inr,
}
use agency_bot.Effects.{Err, World, ◌>>=◌, pure, query}
use agency_bot.Effects.Laws.{Ends, Ends-bind, Ends-mono, query-Ends}
use agency_bot.Externals.{Uuid, Externals}
use agency_bot.User.Domain.{User}
use agency_bot.User.Tables.{UserRow, Db, is_user}
use agency_bot.User.Repository.{
  scan, clamp_limit, or_not_found, permissions_of, select_ids, find, get, get_all, list,
}
use agency_bot.User.Repository.Pages.{IsPageSize, clamp_limit-IsPageSize, IsPage, select_ids-IsPage}

found-id :
    (id : Uuid) (rows : List UserRow) (r : UserRow)
    → find_first (is_user id) rows ≡ some r
    → r.id ≡ id
found-id id [] r e = absurd (ground (arith, e))
found-id id (x ∷ rows) r e = elim (Bool-cases (is_user id x)) [
  | inl here ↦ ground (arith, here, e)
  | inr other ↦ found-id id rows r (ground (arith, other, e))
]

module _ {X : Type 0} (lib : Externals) where
  abbrev Any : Err → World Db X → Type 0
  Any e w = Unit {0}

  permissions-Ends :
      (id : Uuid) (r : UserRow) (v : World Db X)
      → r.id ≡ id
      → Ends
          (λ u _. u.id ≡ id)
          Any
          ((query (λ d. permissions_of lib r.id d.permissions) >>= λ ps. pure (scan r ps)) v)
  permissions-Ends id r v e =
      Ends-bind _ _ (λ u _. u.id ≡ id) Any _ _ v
        (query-Ends v (λ d. permissions_of lib r.id d.permissions)) (λ ps t h. e) (λ _ _ _. tt)

  row-Ends :
      (id : Uuid) (o : Option UserRow) (rows : List UserRow) (v : World Db X)
      → find_first (is_user id) rows ≡ o
      → Ends
          (λ u _. u.id ≡ id)
          Any
          ((or_not_found o >>= λ r.
              query (λ d. permissions_of lib r.id d.permissions) >>= λ ps. pure (scan r ps))
            v)
  unfolding or_not_found ◌>>=◌
  row-Ends id none rows v e = tt
  row-Ends id (some r) rows v e = permissions-Ends id r v (found-id id rows r e)

  get-Ends : (id : Uuid) (w : World Db X) → Ends (λ u _. u.id ≡ id) Any (get lib id w)
  unfolding get find
  get-Ends id w =
      Ends-bind _ _ (λ u _. u.id ≡ id) Any _ _ w
        (query-Ends w (λ d. find_first (is_user id) d.users))
        (λ o t (e, _, _). row-Ends id o w.db.users t (sym e)) (λ _ _ _. tt)

  get_all-Ends :
      (ids : List Uuid) (w : World Db X)
      → Ends (λ us _. map (λ u. u.id) us ≡ ids) Any (get_all lib ids w)
  unfolding get_all
  get_all-Ends [] w = refl
  get_all-Ends (id ∷ ids) w =
      Ends-bind (λ u _. u.id ≡ id) Any (λ us _. map (λ u. u.id) us ≡ id ∷ ids) Any _ _ w
        (get-Ends id w)
        (λ u t e.
          Ends-bind (λ us _. map (λ u. u.id) us ≡ ids) Any (λ us _. map (λ u. u.id) us ≡ id ∷ ids)
            Any _ _ t (get_all-Ends ids t) (λ us v f. ap₂ (λ (a : Uuid) (b : List Uuid). a ∷ b) e f)
            (λ _ _ _. tt))
        (λ _ _ _. tt)

  -- Where List succeeds, the identifiers of the users that it answers are a page of the table as it
  -- was when the call began, of the limit if that lies between 1 and 100 and of 50 otherwise: at most
  -- that many users behind the cursor in ascending order, and all of them unless the page is full, in
  -- which case no user that is left out has an identifier below one on the page.
  pub list-Ends :
      (limit : ℤ) (after : String) (w : World Db X)
      → Ends
          (λ us _.
            (n : ℕ) × IsPageSize limit n × IsPage lib n after w.db.users (map (λ u. u.id) us))
          Any
          (list lib limit after w)
  unfolding list
  list-Ends limit after w =
      Ends-bind _ _ Listed Any _ _ w (query-Ends w (select_ids lib (clamp_limit limit) after))
        (λ ids t (e, _, _).
          Ends-mono (λ us _. map (λ u. u.id) us ≡ ids) Listed Any Any _ (get_all-Ends ids t)
            (λ us v f. (
              clamp_limit limit,
              clamp_limit-IsPageSize limit,
              subst (IsPage lib (clamp_limit limit) after w.db.users) (sym (f ∙ e))
                  (select_ids-IsPage lib (clamp_limit limit) after w.db),
            ))
            (λ _ _ _. tt))
        (λ _ _ _. tt)
    where
      Listed : List User → World Db X → Type 0
      Listed us v =
          (n : ℕ) × IsPageSize limit n × IsPage lib n after w.db.users (map (λ u. u.id) us)
