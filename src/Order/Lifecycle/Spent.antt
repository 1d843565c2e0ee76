-- ===== src/Order/Lifecycle/Spent.antt =====
-- Rows of an order behind a version, and what the statements of internal/order/repository/postgres.go
-- do to them.
use agency_bot.Base.{
  ℤ, ◌<ℤ◌, ◌<◌, lt-add_one, add_one, ==ℤ_iff, ◌≡◌, refl, sym, ap, ◌∙◌, subst, Bool, true, false,
  List, [], ◌∷◌, ◌++◌, any, All, All-append, arith, Bool-cases, inl, inr,
}
use agency_bot.Sql.{count_where, update_where}
use agency_bot.Sql.Keys.{distinct, has_key}
use agency_bot.Externals.{Uuid}
use agency_bot.Order.Tables.{OrderRow, is_version, has_order}

-- The identifier of a row; no two rows of the table have the same, which is its primary key.
abbrev pub key : OrderRow → Uuid
key r = r.id

-- A row of the order `id` has a version above `v`.
abbrev IsBehind : Uuid → ℤ → OrderRow → Type 0
IsBehind id v r = r.id ≡ id → v <ℤ r.version

-- The order is there, and the version `v` of it is over.
abbrev pub IsOver : Uuid → ℤ → List OrderRow → Type 0
IsOver id v rows = (has_order id rows ≡ true) × All (IsBehind id v) rows

pub has_order-update_where :
    (id : Uuid) (p : OrderRow → Bool) (f : OrderRow → OrderRow) (rows : List OrderRow)
    → ((r : OrderRow) → ((f r).id ≡ r.id) × ((f r).version ≡ add_one r.version))
    → has_order id (update_where p f rows) ≡ has_order id rows
has_order-update_where id p f [] h = refl
has_order-update_where id p f (r ∷ rows) h =
    ground (arith, h r, has_order-update_where id p f rows h)

-- A row behind the version stays so under a write.
IsBehind-bumped :
    (id : Uuid) (v : ℤ) (r s : OrderRow)
    → s.id ≡ r.id
    → s.version ≡ add_one r.version
    → IsBehind id v r
    → IsBehind id v s
IsBehind-bumped id v r s same next h e =
    let le : v <ℤ r.version = h (sym same ∙ e) in
    let lt : r.version <ℤ s.version =
      subst (λ x. r.version <ℤ x) (sym next) (lt-add_one r.version) in
    omega (arith, le, lt)

pub All-update_where :
    (id : Uuid) (v : ℤ) (p : OrderRow → Bool) (f : OrderRow → OrderRow) (rows : List OrderRow)
    → ((r : OrderRow) → ((f r).id ≡ r.id) × ((f r).version ≡ add_one r.version))
    → All (IsBehind id v) rows
    → All (IsBehind id v) (update_where p f rows)
All-update_where id v p f [] h _ = tt
All-update_where id v p f (r ∷ rows) h (here, rest) = elim (Bool-cases (p r)) [
  | inl hit ↦
      rw hit
        (IsBehind-bumped id v r (f r) (h r).0 (h r).1 here, All-update_where id v p f rows h rest)
  | inr miss ↦ rw miss (here, All-update_where id v p f rows h rest)
]

-- Rows of other orders.
All-absent :
    (id : Uuid) (v : ℤ) (rows : List OrderRow)
    → any (has_key key id) rows ≡ false
    → All (IsBehind id v) rows
All-absent id v [] h = tt
All-absent id v (r ∷ rows) h =
    (λ e. absurd (ground (arith, e, h)), All-absent id v rows (ground (arith, h)))

pub count-any :
    (id : Uuid) (v : ℤ) (rows : List OrderRow)
    → 0 < count_where (is_version id v) rows
    → any (has_key key id) rows ≡ true
count-any id v [] h = absurd (omega (arith, h))
count-any id v (r ∷ rows) h = ground (arith, count-any id v rows)

-- The write that a version lets through ends that version.
pub IsOver-first :
    (id : Uuid) (v : ℤ) (f : OrderRow → OrderRow) (rows : List OrderRow)
    → ((r : OrderRow) → ((f r).id ≡ r.id) × ((f r).version ≡ add_one r.version))
    → distinct key rows ≡ true
    → 0 < count_where (is_version id v) rows
    → All (IsBehind id v) (update_where (is_version id v) f rows)
IsOver-first id v f [] h unique there = tt
IsOver-first id v f (r ∷ rows) h unique there = elim (Bool-cases (is_version id v r)) [
  | inl hit ↦
      let same : r.version ≡ v = (==ℤ_iff r.version v).0 (ground arith) in
      let named : r.id ≡ id = ground arith in
      let lt : v <ℤ (f r).version =
        subst (λ x. v <ℤ x) (sym ((h r).1 ∙ ap add_one same)) (lt-add_one v) in
      rw hit (
        λ _. lt,
        All-update_where id v (is_version id v) f rows h (
            All-absent id v rows
              (subst (λ k. any (has_key key k) rows ≡ false) named (ground arith))),
      )
  | inr miss ↦
      let behind : 0 < count_where (is_version id v) rows = ground arith in
      rw miss (
        λ e. absurd (ground (arith, count-any id v rows behind, e)),
        IsOver-first id v f rows h (ground arith) behind,
      )
]

pub stale :
    (id : Uuid) (v : ℤ) (rows : List OrderRow)
    → All (IsBehind id v) rows
    → count_where (is_version id v) rows ≡ 0
stale id v [] h = refl
stale id v (r ∷ rows) (here, rest) = elim (Bool-cases (is_version id v r)) [
  | inl hit ↦ absurd (
      let same : r.version ≡ v = (==ℤ_iff r.version v).0 (ground arith) in
      let lt : v <ℤ v = subst (λ x. v <ℤ x) same (here (ground arith)) in omega (arith, lt))
  | inr miss ↦ rw miss (stale id v rows rest)
]

has_order-append :
    (id : Uuid) (rows : List OrderRow) (r : OrderRow)
    → has_order id rows ≡ true
    → has_order id (rows ++ (r ∷ [])) ≡ true
has_order-append id [] r h = absurd (ground (arith, h))
has_order-append id (x ∷ rows) r h = ground (arith, h, has_order-append id rows r)

pub IsOver-append :
    (id : Uuid) (v : ℤ) (rows : List OrderRow) (r : OrderRow)
    → has_order r.id rows ≡ false
    → IsOver id v rows
    → IsOver id v (rows ++ (r ∷ []))
IsOver-append id v rows r fresh (there, behind) = (
  has_order-append id rows r there,
  All-append (IsBehind id v) rows (r ∷ []) behind (
    λ e.
        absurd (
          let no : has_order id rows ≡ false = subst (λ k. has_order k rows ≡ false) e fresh in cc),
    tt,
  ),
)
