-- ===== src/User/Accounts/Unique.antt =====
-- Identifiers, logins and Telegram accounts stay unique.
use agency_bot.Base.{
  ℕ, ℤ, ◌==ℤ◌, ==ℤ_iff, ◌≡◌, refl, ap, subst, ◌∙◌, String, Bool, false, not, ◌==◌, ◌&&◌, ◌||◌,
  Option, none, some, List, [], ◌∷◌, ◌++◌, any, any-append, str_eq, eq_iff, arith, if◌then◌else◌,
  Bool-cases, inl, inr,
}
use agency_bot.Sql.{update_where, any-update_where, update_where-none}
use agency_bot.Externals.{Uuid}
use agency_bot.User.Tables.{UserRow, is_user, is_telegram, bound}

-- Whether a row has the Telegram account; nobody has none.
abbrev pub is_taken : Option ℤ → List UserRow → Bool
is_taken none rows = false
is_taken (some t) rows = any (λ r. is_telegram t r.telegram_id) rows

abbrev pub has_login : String → UserRow → Bool
has_login login r = str_eq r.login login

-- No two users share an identifier, a login or a Telegram account.
abbrev pub IsUnique : List UserRow → Type 0
IsUnique [] = Unit
IsUnique (r ∷ rows) =
    (any (is_user r.id) rows ≡ false)
    × (any (has_login r.login) rows ≡ false)
    × (is_taken r.telegram_id rows ≡ false)
    × IsUnique rows

is_taken-append :
    (t : Option ℤ) (rows : List UserRow) (n : UserRow)
    → n.telegram_id ≡ none
    → is_taken t (rows ++ (n ∷ [])) ≡ is_taken t rows
is_taken-append none rows n h = refl
is_taken-append (some t) rows n h =
    ground (arith, any-append (λ r. is_telegram t r.telegram_id) rows (n ∷ []))

pub IsUnique-append :
    (rows : List UserRow) (n : UserRow)
    → IsUnique rows
    → any (λ r. r.id == n.id || str_eq r.login n.login) rows ≡ false
    → n.telegram_id ≡ none
    → IsUnique (rows ++ (n ∷ []))
IsUnique-append [] n u h e = ground arith
IsUnique-append (r ∷ rows) n u h e = (
  ground (arith, any-append (is_user r.id) rows (n ∷ [])),
  ground (
    arith,
    any-append (has_login r.login) rows (n ∷ []),
    eq_iff n.login r.login,
    eq_iff r.login n.login,
  ),
  is_taken-append r.telegram_id rows n e ∙ u.2,
  IsUnique-append rows n u.3 (ground arith) e,
)

is_taken-update_where :
    (t : Option ℤ) (p : UserRow → Bool) (f : UserRow → UserRow) (rows : List UserRow)
    → ((r : UserRow) → (f r).telegram_id ≡ r.telegram_id)
    → is_taken t (update_where p f rows) ≡ is_taken t rows
is_taken-update_where none p f rows keeps = refl
is_taken-update_where (some t) p f rows keeps =
    any-update_where (λ r. is_telegram t r.telegram_id) p f rows λ r. ap (is_telegram t) (keeps r)

pub IsUnique-update_where :
    (p : UserRow → Bool) (f : UserRow → UserRow) (rows : List UserRow)
    → ((r : UserRow)
        → ((f r).id ≡ r.id) × ((f r).login ≡ r.login) × ((f r).telegram_id ≡ r.telegram_id))
    → IsUnique rows
    → IsUnique (update_where p f rows)
IsUnique-update_where p f [] keeps u = tt
IsUnique-update_where p f (r ∷ rows) keeps u =
    let r' : UserRow = if p r then f r else r in
    let (id, login, telegram) = keeps r in
    let id' : r'.id ≡ r.id = ground arith in
    let login' : r'.login ≡ r.login = ground arith in
    let telegram' : r'.telegram_id ≡ r.telegram_id = ground arith in
    (
      ap (λ i. any (is_user i) (update_where p f rows)) id'
          ∙ (any-update_where (is_user r.id) p f rows (λ q. ap (λ i. i == r.id) (keeps q).0) ∙ u.0),
      ap (λ l. any (has_login l) (update_where p f rows)) login'
          ∙ (any-update_where (has_login r.login) p f rows
                (λ q. ap (λ l. str_eq l r.login) (keeps q).1)
              ∙ u.1),
      ap (λ t. is_taken t (update_where p f rows)) telegram'
          ∙ (is_taken-update_where r.telegram_id p f rows (λ q. (keeps q).2) ∙ u.2),
      IsUnique-update_where p f rows keeps u.3,
    )

-- Another user has the Telegram account.
abbrev pub has_other : Uuid → ℤ → UserRow → Bool
has_other id telegram r = not (is_user id r) && is_telegram telegram r.telegram_id

is_taken-bound :
    (id : Uuid) (telegram : ℤ) (t : ℕ) (rows : List UserRow) (s : ℤ)
    → (telegram ==ℤ s) ≡ false
    → any (λ r. is_telegram s r.telegram_id) rows ≡ false
    → any (λ r. is_telegram s r.telegram_id) (update_where (is_user id) (bound telegram t) rows)
      ≡ false
is_taken-bound id telegram t [] s ne h = refl
is_taken-bound id telegram t (r ∷ rows) s ne h =
    ground (arith, is_taken-bound id telegram t rows s ne)

is_taken-free :
    (id : Uuid) (telegram : ℤ) (rows : List UserRow)
    → any (is_user id) rows ≡ false
    → any (has_other id telegram) rows ≡ false
    → any (λ r. is_telegram telegram r.telegram_id) rows ≡ false
is_taken-free id telegram [] h k = refl
is_taken-free id telegram (r ∷ rows) h k = ground (arith, is_taken-free id telegram rows)

-- The row of another user keeps an account that is free.
kept-free :
    (id : Uuid) (telegram : ℤ) (t : ℕ) (o : Option ℤ) (rows : List UserRow)
    → is_telegram telegram o ≡ false
    → is_taken o rows ≡ false
    → is_taken o (update_where (is_user id) (bound telegram t) rows) ≡ false
kept-free id telegram t none rows h k = refl
kept-free id telegram t (some s) rows h k =
    is_taken-bound id telegram t rows s (ground (arith, ==ℤ_iff telegram s, ==ℤ_iff s telegram)) k

pub IsUnique-bound :
    (id : Uuid) (telegram : ℤ) (t : ℕ) (rows : List UserRow)
    → any (has_other id telegram) rows ≡ false
    → IsUnique rows
    → IsUnique (update_where (is_user id) (bound telegram t) rows)
IsUnique-bound id telegram t [] free u = tt
IsUnique-bound id telegram t (r ∷ rows) free u =
    let rows' : List UserRow = update_where (is_user id) (bound telegram t) rows in
    let ids : any (is_user r.id) rows' ≡ false =
      any-update_where (is_user r.id) (is_user id) (bound telegram t) rows (λ q. refl) ∙ u.0 in
    let logins : any (has_login r.login) rows' ≡ false =
      any-update_where (has_login r.login) (is_user id) (bound telegram t) rows (λ q. refl) ∙ u.1 in
    let rest = IsUnique-bound id telegram t rows (ground arith) u.3 in
    elim (Bool-cases (is_user id r)) [
      | inl hit ↦
          let alone : any (is_user id) rows ≡ false =
            subst (λ i. any (is_user i) rows ≡ false) (ground arith) u.0 in
          let same = update_where-none (is_user id) (bound telegram t) rows alone in
          rw hit (
            ids,
            logins,
            ap (is_taken (some telegram)) same
                ∙ is_taken-free id telegram rows alone (ground arith),
            rest,
          )
      | inr miss ↦
          rw miss (ids, logins, kept-free id telegram t r.telegram_id rows (ground arith) u.2, rest)
    ]
