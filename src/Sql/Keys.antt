-- ===== src/Sql/Keys.antt =====
-- Primary keys: tables no two rows of which have the same key.
use agency_bot.Base.{
  ℕ, zero, suc, ◌≡◌, refl, ap, Bool, true, false, not, ◌&&◌, List, [], ◌∷◌, arith, keep, take, drop,
  any, ◌==◌, ==_refl,
}
use agency_bot.Sql.{order_by, insert_by, update_where, any-update_where}
use agency_bot.Sql.Sorting.{any-keep, any-insert_by, any-order_by}

module _ {A : Type 0} (id : A → ℕ) where
  abbrev pub has_key : ℕ → A → Bool
  has_key k x = id x == k

  abbrev pub distinct : List A → Bool
  distinct [] = true
  distinct (x ∷ xs) = not (any (has_key (id x)) xs) && distinct xs

  -- The row has the key of none of the given ones.
  abbrev pub outside : List A → A → Bool
  outside xs y = not (any (λ x. has_key (id x) y) xs)

  pub distinct-keep :
      (p : A → Bool) (xs : List A) → distinct xs ≡ true → distinct (keep p xs) ≡ true
  distinct-keep p [] h = refl
  distinct-keep p (x ∷ xs) h = ground (arith, distinct-keep p xs, any-keep (has_key (id x)) p xs)

  pub distinct-update_where :
      (p : A → Bool) (f : A → A) (xs : List A)
      → ((x : A) → id (f x) ≡ id x)
      → distinct (update_where p f xs) ≡ distinct xs
  distinct-update_where p f [] keeps = refl
  distinct-update_where p f (x ∷ xs) keeps = ground (
    arith,
    keeps x,
    distinct-update_where p f xs keeps,
    any-update_where (has_key (id x)) p f xs (λ y. ap (λ k. k == id x) (keeps y)),
  )

  module _ (key : A → ℕ) where
    distinct-insert_by :
        (x : A) (xs : List A)
        → any (has_key (id x)) xs ≡ false
        → distinct xs ≡ true
        → distinct (insert_by key x xs) ≡ true
    unfolding insert_by
    distinct-insert_by x [] f h = refl
    distinct-insert_by x (y ∷ xs) f h =
        ground (arith, distinct-insert_by x xs, any-insert_by key (has_key (id y)) x xs)

    pub distinct-order_by : (xs : List A) → distinct xs ≡ true → distinct (order_by key xs) ≡ true
    unfolding order_by
    distinct-order_by [] h = refl
    distinct-order_by (x ∷ xs) h =
        distinct-insert_by x (order_by key xs)
          (ground (arith, any-order_by key (has_key (id x)) xs))
          (ground (arith, distinct-order_by xs))

  keep-outside :
      (x : A) (rows xs : List A)
      → any (has_key (id x)) xs ≡ false
      → keep (outside (x ∷ rows)) xs ≡ keep (outside rows) xs
  keep-outside x rows [] h = refl
  keep-outside x rows (y ∷ xs) h = ground (arith, keep-outside x rows xs)

  keep-all : (xs : List A) → keep (outside []) xs ≡ xs
  keep-all [] = refl
  keep-all (x ∷ xs) = ap (λ l. x ∷ l) (keep-all xs)

  -- Without the keys of its first rows, a table is what follows them.
  pub keep-take :
      (n : ℕ) (xs : List A) → distinct xs ≡ true → keep (outside (take n xs)) xs ≡ drop n xs
  keep-take zero xs h = keep-all xs
  keep-take (suc n) [] h = refl
  keep-take (suc n) (x ∷ xs) h =
      ground (arith, ==_refl (id x), keep-take n xs, keep-outside x (take n xs) xs)
