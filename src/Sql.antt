-- ===== src/Sql.antt =====
-- SQL statements on a table given as the list of its rows, in the order of insertion. ORDER BY is a
-- stable sort: rows with equal keys keep that order.
pub mod Keys
pub mod Sorting
use agency_bot.Base.{
  ℕ, ◌<◌, ◌≡◌, refl, false, arith, any, Bool, true, not, List, [], ◌∷◌, keep, length, leb,
  if◌then◌else◌,
}

module _ {A : Type 0} where
  -- The number of rows that a WHERE clause selects.
  abbrev pub count_where : (A → Bool) → List A → ℕ
  count_where p rows = length (keep p rows)

  -- `UPDATE … SET … WHERE …`
  abbrev pub update_where : (A → Bool) → (A → A) → List A → List A
  update_where p f [] = []
  update_where p f (x ∷ xs) = (if p x then f x else x) ∷ update_where p f xs

  -- `DELETE … WHERE …`
  abbrev pub delete_where : (A → Bool) → List A → List A
  delete_where p = keep λ x. not (p x)

  pub any-count_where : (p : A → Bool) (rows : List A) → 0 < count_where p rows → any p rows ≡ true
  any-count_where p [] h = absurd (omega (arith, h))
  any-count_where p (x ∷ rows) h = ground (arith, any-count_where p rows)

  pub any-update_where :
      (q p : A → Bool) (f : A → A) (rows : List A)
      → ((x : A) → q (f x) ≡ q x)
      → any q (update_where p f rows) ≡ any q rows
  any-update_where q p f [] keeps = refl
  any-update_where q p f (x ∷ rows) keeps =
      ground (arith, any-update_where q p f rows keeps, keeps x)

  -- An UPDATE that selects no row changes nothing.
  pub update_where-none :
      (p : A → Bool) (f : A → A) (rows : List A) → any p rows ≡ false → update_where p f rows ≡ rows
  update_where-none p f [] h = refl
  update_where-none p f (x ∷ rows) h = ground (arith, update_where-none p f rows)

  pub insert_by : (A → ℕ) → A → List A → List A
  insert_by key x [] = x ∷ []
  insert_by key x (y ∷ ys) = if leb (key x) (key y) then x ∷ y ∷ ys else y ∷ insert_by key x ys

  insert_by_desc : (A → ℕ) → A → List A → List A
  insert_by_desc key x [] = x ∷ []
  insert_by_desc key x (y ∷ ys) =
      if leb (key y) (key x) then x ∷ y ∷ ys else y ∷ insert_by_desc key x ys

  -- `ORDER BY key DESC`
  unfoldable pub order_by_desc : (A → ℕ) → List A → List A
  unfolding insert_by_desc
  order_by_desc key [] = []
  order_by_desc key (x ∷ xs) = insert_by_desc key x (order_by_desc key xs)

  -- `ORDER BY key`
  unfoldable pub order_by : (A → ℕ) → List A → List A
  unfolding insert_by
  order_by key [] = []
  order_by key (x ∷ xs) = insert_by key x (order_by key xs)
