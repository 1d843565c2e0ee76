-- ===== src/Sql/Sorting.antt =====
-- ORDER BY as a sort: it keeps the rows, and it commutes with a WHERE clause.
use agency_bot.Base.{
  ℕ, suc, ◌≤◌, ◌≡◌, refl, sym, ap, ◌∙◌, Bool, true, false, ◌&&◌, ◌||◌, List, [], ◌∷◌, arith, keep,
  any, length, leb, if◌then◌else◌, All, All-map, subst, ◌⊎◌, inl, inr,
}
use agency_bot.Sql.{order_by, insert_by}

le_cases : (m n : ℕ) → ((m ≤ n) × (leb m n ≡ true)) ⊎ ((n ≤ m) × (leb m n ≡ false))
le_cases m n = ground arith

module _ {A : Type 0} where
  pub any-keep : (q p : A → Bool) (xs : List A) → any q xs ≡ false → any q (keep p xs) ≡ false
  any-keep q p [] h = refl
  any-keep q p (x ∷ xs) h = ground (arith, any-keep q p xs)

  pub keep-keep : (p q : A → Bool) (xs : List A) → keep q (keep p xs) ≡ keep (λ x. p x && q x) xs
  keep-keep p q [] = refl
  keep-keep p q (x ∷ xs) = ground (arith, keep-keep p q xs)

  module _ (key : A → ℕ) where
    pub any-insert_by :
        (q : A → Bool) (x : A) (ys : List A) → any q (insert_by key x ys) ≡ (q x || any q ys)
    unfolding insert_by
    any-insert_by q x [] = refl
    any-insert_by q x (y ∷ ys) = ground (arith, any-insert_by q x ys)

    pub any-order_by : (q : A → Bool) (xs : List A) → any q (order_by key xs) ≡ any q xs
    unfolding order_by
    any-order_by q [] = refl
    any-order_by q (x ∷ xs) =
        any-insert_by q x (order_by key xs) ∙ ap (λ b. q x || b) (any-order_by q xs)

    -- Rows in ascending order of their keys.
    abbrev pub Ascends : List A → Type 0
    Ascends [] = Unit
    Ascends (x ∷ xs) = All (λ y. key x ≤ key y) xs × Ascends xs

    keep-below :
        (p : A → Bool) (x : A) (ys : List A)
        → All (λ y. key x ≤ key y) ys
        → x ∷ keep p ys ≡ insert_by key x (keep p ys)
    unfolding insert_by
    keep-below p x [] h = refl
    keep-below p x (y ∷ ys) h = ground (arith, keep-below p x ys h.1, h.0)

    All-below :
        (x y : A) (ys : List A)
        → key x ≤ key y
        → All (λ z. key y ≤ key z) ys
        → All (λ z. key x ≤ key z) ys
    All-below x y ys le = All-map _ _ ys (λ z g. omega (arith, le, g))

    All-insert_by :
        (P : A → Type 0) (x : A) (ys : List A) → P x → All P ys → All P (insert_by key x ys)
    unfolding insert_by
    All-insert_by P x [] h hs = (h, hs)
    All-insert_by P x (y ∷ ys) h hs =
        elim (leb (key x) (key y))
          as (λ b. All P (if b then x ∷ y ∷ ys else y ∷ insert_by key x ys)) [
            | true ↦ (h, hs)
            | false ↦ (hs.0, All-insert_by P x ys h hs.1)
          ]

    Ascends-insert_by : (x : A) (ys : List A) → Ascends ys → Ascends (insert_by key x ys)
    unfolding insert_by
    Ascends-insert_by x [] h = (tt, tt)
    Ascends-insert_by x (y ∷ ys) h = elim (le_cases (key x) (key y)) [
      | inl (le, e) ↦
          subst (λ b. Ascends (if b then x ∷ y ∷ ys else y ∷ insert_by key x ys)) (sym e)
            ((le, All-below x y ys le h.0), h)
      | inr (le, e) ↦
          subst (λ b. Ascends (if b then x ∷ y ∷ ys else y ∷ insert_by key x ys)) (sym e)
            (All-insert_by _ x ys le h.0, Ascends-insert_by x ys h.1)
    ]

    pub order_by-Ascends : (xs : List A) → Ascends (order_by key xs)
    unfolding order_by
    order_by-Ascends [] = tt
    order_by-Ascends (x ∷ xs) = Ascends-insert_by x (order_by key xs) (order_by-Ascends xs)

    keep-insert_by :
        (p : A → Bool) (x : A) (ys : List A)
        → Ascends ys
        → keep p (insert_by key x ys) ≡ (if p x then insert_by key x (keep p ys) else keep p ys)
    unfolding insert_by
    keep-insert_by p x [] h = ground arith
    keep-insert_by p x (y ∷ ys) h = elim (le_cases (key x) (key y)) [
      | inl (le, e) ↦ ground (
        arith,
        e,
        keep-below p x ys (All-below x y ys le h.0),
        keep-below p x (y ∷ ys) (le, All-below x y ys le h.0),
      )
      | inr (le, e) ↦ ground (arith, e, keep-insert_by p x ys h.1)
    ]

    -- Sorting before or after a WHERE clause makes no difference.
    pub order_by-keep :
        (p : A → Bool) (xs : List A) → order_by key (keep p xs) ≡ keep p (order_by key xs)
    unfolding order_by
    order_by-keep p [] = refl
    order_by-keep p (x ∷ xs) =
        ground
          (arith, order_by-keep p xs, keep-insert_by p x (order_by key xs) (order_by-Ascends xs))

    length-insert_by : (x : A) (ys : List A) → length (insert_by key x ys) ≡ suc (length ys)
    unfolding insert_by
    length-insert_by x [] = refl
    length-insert_by x (y ∷ ys) = ground (arith, length-insert_by x ys)

    pub length-order_by : (xs : List A) → length (order_by key xs) ≡ length xs
    unfolding order_by
    length-order_by [] = refl
    length-order_by (x ∷ xs) = length-insert_by x (order_by key xs) ∙ ap suc (length-order_by xs)
