-- ===== src/User/Repository/Pages.antt =====
-- The pages of `List` in internal/user/repository/postgres.go, as rows of the table.
use agency_bot.Base.{
  ℕ, ℤ, pos, negsuc, ◌<ℤ◌, zero, suc, ◌≤◌, ◌≡◌, ◌==◌, ==_refl, refl, sym, ap, ◌∙◌, String, Bool,
  true, ◌&&◌, ◌||◌, ltb, is_empty, List, [], ◌∷◌, map, length, take, length-take, All-take, keep,
  any, All, All-map, arith, Bool-cases, inl, inr, ◌⊎◌,
}
use agency_bot.Sql.{order_by}
use agency_bot.Sql.Sorting.{Ascends, order_by-Ascends, any-order_by}
use agency_bot.Externals.{Uuid, Externals}
use agency_bot.User.Tables.{UserRow, Db}
use agency_bot.User.Repository.{clamp_limit, select_ids}

-- The size of a page: the limit that is asked for if it lies between 1 and 100, and otherwise 50.
abbrev pub IsPageSize : ℤ → ℕ → Type 0
IsPageSize limit n =
    ((limit ≡ pos n) × (1 ≤ n) × (n ≤ 100)) ⊎ ((n ≡ 50) × ((limit <ℤ pos 1) ⊎ (pos 100 <ℤ limit)))

pub clamp_limit-IsPageSize : (limit : ℤ) → IsPageSize limit (clamp_limit limit)
unfolding clamp_limit
clamp_limit-IsPageSize (pos n) = elim (Bool-cases (ltb n 1 || ltb 100 n)) [
  | inl out ↦ rw out (inr (refl, ground (arith, out)))
  | inr fits ↦ rw fits (inl (refl, ground (arith, fits), ground (arith, fits)))
]
clamp_limit-IsPageSize (negsuc n) = inr (refl, inl (omega arith))

page_size-le : (limit : ℤ) (n : ℕ) → IsPageSize limit n → n ≤ 100
page_size-le limit n (inl (_, _, le)) = le
page_size-le limit n (inr (fifty, _)) = omega (arith, fifty)

-- The row lies behind the cursor, as a text; an empty one is before every row.
abbrev pub is_behind : Externals → String → UserRow → Bool
is_behind lib after r = is_empty after || lib.text_above (lib.to_string r.id) after

-- A page of at most `n` identifiers of users behind the cursor, in ascending order: each is of such
-- a user, and each such user is on it, or the page is full and the user's identifier is not below any
-- on it.
abbrev pub IsPage : Externals → ℕ → String → List UserRow → List Uuid → Type 0
IsPage lib n after rows ids =
    (length ids ≤ n)
    × Ascends (λ i. i) ids
    × All (λ i. any (λ r. r.id == i && is_behind lib after r) rows ≡ true) ids
    × All
        (λ r.
          is_behind lib after r ≡ true
          → (any (λ i. i == r.id) ids ≡ true) ⊎ ((length ids ≡ n) × All (λ i. i ≤ r.id) ids))
        rows

-- The first rows of a sorted column.
take-Ascends : (n : ℕ) (xs : List ℕ) → Ascends (λ i. i) xs → Ascends (λ i. i) (take n xs)
take-Ascends zero xs h = tt
take-Ascends (suc n) [] h = tt
take-Ascends (suc n) (x ∷ xs) (below, h) = (All-take (λ y. x ≤ y) n xs below, take-Ascends n xs h)

All-any : (k x : ℕ) (xs : List ℕ) → All (λ y. x ≤ y) xs → any (λ i. i == k) xs ≡ true → x ≤ k
All-any k x [] h e = absurd (ground (arith, e))
All-any k x (y ∷ xs) (le, h) e = elim (Bool-cases (y == k)) [
  | inl here ↦ ground (arith, here, le)
  | inr other ↦ All-any k x xs h (ground (arith, other, e))
]

any-take :
    (n k : ℕ) (xs : List ℕ)
    → Ascends (λ i. i) xs
    → any (λ i. i == k) xs ≡ true
    → (any (λ i. i == k) (take n xs) ≡ true)
      ⊎ ((length (take n xs) ≡ n) × All (λ i. i ≤ k) (take n xs))
any-take zero k xs h e = inr (refl, tt)
any-take (suc n) k [] h e = absurd (ground (arith, e))
any-take (suc n) k (x ∷ xs) (below, h) e = elim (Bool-cases (x == k)) [
  | inl here ↦ inl (ground (arith, here))
  | inr other ↦
      let rest : any (λ i. i == k) xs ≡ true = ground (arith, other, e) in
      elim (any-take n k xs h rest) [
        | inl there ↦ inl (ground (arith, other, there))
        | inr (full, low) ↦ inr (ap suc full, (All-any k x xs below rest, low))
      ]
]

map-Ascends :
    (rows : List UserRow) → Ascends (λ r. r.id) rows → Ascends (λ i. i) (map (λ r. r.id) rows)
map-Ascends [] h = tt
map-Ascends (r ∷ rows) (below, h) = (go rows below, map-Ascends rows h)
  where
    go : (xs : List UserRow) → All (λ y. r.id ≤ y.id) xs → All (λ i. r.id ≤ i) (map (λ y. y.id) xs)
    go [] h = tt
    go (x ∷ xs) (le, h) = (le, go xs h)

any-ids :
    (k : Uuid) (rows : List UserRow)
    → any (λ i. i == k) (map (λ r. r.id) rows) ≡ any (λ r. r.id == k) rows
any-ids k [] = refl
any-ids k (r ∷ rows) = ground (arith, any-ids k rows)

any-kept :
    (p : UserRow → Bool) (k : Uuid) (rows : List UserRow)
    → any (λ r. r.id == k) (keep p rows) ≡ any (λ r. r.id == k && p r) rows
any-kept p k [] = refl
any-kept p k (r ∷ rows) = ground (arith, any-kept p k rows)

-- Each entry of a column is found in it.
All-found : (xs : List ℕ) → All (λ i. any (λ j. j == i) xs ≡ true) xs
All-found [] = tt
All-found (x ∷ xs) =
    (ground (arith, ==_refl x), All-map _ _ xs (λ i e. ground (arith, e)) (All-found xs))

module _ (lib : Externals) (after : String) (rows : List UserRow) where
  -- The column from which the page is taken.
  abbrev column : List Uuid
  column = map (λ r. r.id) (order_by (λ r. r.id) (keep (is_behind lib after) rows))

  column-Ascends : Ascends (λ i. i) column
  column-Ascends = map-Ascends _ (order_by-Ascends (λ r. r.id) (keep (is_behind lib after) rows))

  any-column :
      (k : Uuid) → any (λ i. i == k) column ≡ any (λ r. r.id == k && is_behind lib after r) rows
  any-column k =
      any-ids k (order_by (λ r. r.id) (keep (is_behind lib after) rows))
      ∙ (any-order_by (λ r. r.id) (λ r. r.id == k) (keep (is_behind lib after) rows)
          ∙ any-kept (is_behind lib after) k rows)

  -- Each row that is behind the cursor is found.
  All-behind :
      (xs : List UserRow)
      → All
          (λ r.
            is_behind lib after r ≡ true
            → any (λ x. x.id == r.id && is_behind lib after x) xs ≡ true)
          xs
  All-behind [] = tt
  All-behind (x ∷ xs) = (
    λ e. ground (arith, ==_refl x.id, e),
    All-map _ _ xs (λ r h e. ground (arith, h e)) (All-behind xs),
  )

pub select_ids-IsPage :
    (lib : Externals) (n : ℕ) (after : String) (d : Db)
    → IsPage lib n after d.users (select_ids lib n after d)
unfolding select_ids
select_ids-IsPage lib n after d = (
  length-take n (column lib after d.users),
  take-Ascends n (column lib after d.users) (column-Ascends lib after d.users),
  All-take _ n (column lib after d.users) (
      All-map _ _ (column lib after d.users) (λ i e. sym (any-column lib after d.users i) ∙ e)
        (All-found (column lib after d.users))),
  All-map _ _ d.users
      (λ r h behind.
        any-take n r.id (column lib after d.users) (column-Ascends lib after d.users)
          (any-column lib after d.users r.id ∙ h behind))
      (All-behind lib after d.users d.users),
)
