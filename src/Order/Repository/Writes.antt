-- ===== src/Order/Repository/Writes.antt =====
-- What each of `Create`, `Update`, `Status` and `Assign` does to the database.
use agency_bot.Base.{
  ℕ, ◌<◌, ◌≡◌, String, some, List, [], ◌∷◌, ◌++◌, arith, any, Bool, true, false, not, ◌==◌,
  if◌then◌else◌, Option-cases, inl, inr,
}
use agency_bot.Effects.{ok, World}
use agency_bot.Effects.Laws.{
  Ensures, done, Atomic, Ensures-bind, Ensures-exec, Ensures-exec_end, Ensures-guard,
}
use agency_bot.Sql.{count_where, update_where, delete_where}
use agency_bot.Externals.{Uuid, Externals}
use agency_bot.Event.{IsEvent}
use agency_bot.Order.Domain.{Status, Time, Order, Changes}
use agency_bot.Order.Tables.{
  OrderRow, PerformerRow, Db, has_order, is_version, edited, moved, new_row, is_assignment,
  new_assignment, update_order, update_status, insert_order, insert_performer, delete_performer,
}
use agency_bot.Order.Repository.{
  update, status, assign, assign_rows, updated_content, status_content, assigned_content,
  status_change, performer_change,
}
use agency_bot.Order.Repository.Audit.{IsEntry, Writes, tx-Atomic, write_history-Enters}

-- `d'` is `d` with other orders and performers.
abbrev pub Rewrites : Db → Db → List OrderRow → List PerformerRow → Type 0
Rewrites d d' orders performers =
    (d'.orders ≡ orders)
    × (d'.performers ≡ performers)
    × (d'.history ≡ d.history)
    × (d'.outbox ≡ d.outbox)

module _ (lib : Externals) (o : Order) (t : Time) (d₀ d d' : Db) (n : ℕ) (same : d ≡ d₀) where
  pub insert_order-ok :
      insert_order lib o t d ≡ ok (n, d')
      → (amount : String) × (lib.cast_numeric o.amount ≡ some amount)
        × (has_order o.id d₀.orders ≡ false)
        × Rewrites d₀ d' (d₀.orders ++ (new_row o amount t ∷ [])) d₀.performers
  unfolding insert_order
  insert_order-ok e = elim (Option-cases (lib.cast_numeric o.amount)) [
    | inl bad ↦ absurd (ground arith)
    | inr (amount, good) ↦ (amount, good, ground arith, ground arith)
  ]

  update_order-ok :
      update_order lib o t d ≡ ok (n, d')
      → (amount : String) × (lib.cast_numeric o.amount ≡ some amount)
        × (n ≡ count_where (is_version o.id o.version) d₀.orders)
        × Rewrites d₀ d'
            (update_where (is_version o.id o.version) (edited o amount t) d₀.orders)
            d₀.performers
  unfolding update_order
  update_order-ok e = elim (Option-cases (lib.cast_numeric o.amount)) [
    | inl bad ↦ absurd (ground arith)
    | inr (amount, good) ↦ (amount, good, ground arith, ground arith)
  ]

  update_status-ok :
      (next : Status)
      → update_status o next t d ≡ ok (n, d')
      → (n ≡ count_where (is_version o.id o.version) d₀.orders)
        × Rewrites d₀ d'
            (update_where (is_version o.id o.version) (moved o next t) d₀.orders)
            d₀.performers
  unfolding update_status
  update_status-ok next e = (ground arith, ground arith)

module _ (t : Time) (d₀ d d' : Db) (n : ℕ) (same : d ≡ d₀) where
  pub insert_performer-ok :
      (id p by : Uuid)
      → insert_performer id p by t d ≡ ok (n, d')
      → (any (is_assignment id p) d₀.performers ≡ false)
        × Rewrites d₀ d' d₀.orders (d₀.performers ++ (new_assignment id p by t ∷ []))
  unfolding insert_performer
  insert_performer-ok id p by e = (ground arith, ground arith)

  delete_performer-ok :
      (id p : Uuid)
      → delete_performer id p d ≡ ok (n, d')
      → (n ≡ count_where (is_assignment id p) d₀.performers)
        × Rewrites d₀ d' d₀.orders (delete_where (is_assignment id p) d₀.performers)
  unfolding delete_performer
  delete_performer-ok id p e = (ground arith, ground arith)

not_zero : (n m : ℕ) → not (n == 0) ≡ true → n ≡ m → 0 < m
not_zero n m h e = ground arith

-- The tables after `Update`, `Status` and `Assign` on `d`.
abbrev pub IsUpdated : Externals → Order → Db → List OrderRow → List PerformerRow → Type 0
IsUpdated lib o d orders performers =
    (t : Time) × (amount : String) × (lib.cast_numeric o.amount ≡ some amount)
    × (0 < count_where (is_version o.id o.version) d.orders)
    × (orders ≡ update_where (is_version o.id o.version) (edited o amount t) d.orders)
    × (performers ≡ d.performers)

abbrev pub IsMoved : Order → Status → Db → List OrderRow → List PerformerRow → Type 0
IsMoved o next d orders performers =
    (t : Time) × (0 < count_where (is_version o.id o.version) d.orders)
    × (orders ≡ update_where (is_version o.id o.version) (moved o next t) d.orders)
    × (performers ≡ d.performers)

abbrev pub IsAssigned : Order → Uuid → Bool → Db → List OrderRow → List PerformerRow → Type 0
IsAssigned o p true d orders performers =
    (t : Time) × (any (is_assignment o.id p) d.performers ≡ false)
    × (orders ≡ d.orders)
    × (performers ≡ d.performers ++ (new_assignment o.id p o.updated_by t ∷ []))
IsAssigned o p false d orders performers =
    (0 < count_where (is_assignment o.id p) d.performers)
    × (orders ≡ d.orders)
    × (performers ≡ delete_where (is_assignment o.id p) d.performers)

module _ {X : Type 0} (lib : Externals) (o : Order) (w : World Db X) where
  -- `Update` changes nothing, or it rewrites the rows with the order's identifier and version, of
  -- which there is one at least, with the amount as the database stores it, and adds one history
  -- entry and one pending event.
  pub update-Atomic :
      (changes : Changes)
      → Atomic
          (λ _ d _.
            Writes
              (IsUpdated lib o w.db)
              (IsEntry o.id o.updated_by "ORDER_UPDATED" changes)
              (IsEvent o.id "order.updated" (updated_content lib o changes))
              w.db
              d)
          w.db
          (update lib o changes w)
  unfolding update
  update-Atomic changes = tx-Atomic (IsUpdated lib o w.db) _ o.id _ _ _ w λ t v e.
      Ensures-exec _ (update_order lib o t) _ v λ n u upd _. Ensures-guard _ _ _ _ u λ some_rows.
        let (amount, cast, rows, rewritten) = update_order-ok lib o t w.db v.db u.db n e upd in
        write_history-Enters (IsUpdated lib o w.db) w.db t o.id o.updated_by "ORDER_UPDATED" _ u
          (t, amount, cast, not_zero n _ some_rows rows, rewritten.0, rewritten.1) rewritten.2
          rewritten.3

  -- `Status` changes nothing, or it sets the status of the rows with the order's identifier and
  -- version, of which there is one at least, and adds one history entry and one pending event.
  pub status-Atomic :
      (next : Status)
      → Atomic
          (λ _ d _.
            Writes
              (IsMoved o next w.db)
              (IsEntry o.id o.updated_by "STATUS_CHANGED" (status_change o.status next))
              (IsEvent o.id "order.status_changed" (status_content lib o next))
              w.db
              d)
          w.db
          (status lib o next w)
  unfolding status
  status-Atomic next = tx-Atomic (IsMoved o next w.db) _ o.id _ _ _ w λ t v e.
      Ensures-exec _ (update_status o next t) _ v λ n u upd _. Ensures-guard _ _ _ _ u λ some_rows.
        let (rows, rewritten) = update_status-ok lib o t w.db v.db u.db n e next upd in
        write_history-Enters (IsMoved o next w.db) w.db t o.id o.updated_by "STATUS_CHANGED" _ u
          (t, not_zero n _ some_rows rows, rewritten.0, rewritten.1) rewritten.2 rewritten.3

  assign_rows-Ensures :
      (p : Uuid) (add : Bool) (t : Time) (v : World Db X)
      → v.db ≡ w.db
      → Ensures
          (λ _ d _.
            IsAssigned o p add w.db d.orders d.performers
            × (d.history ≡ w.db.history)
            × (d.outbox ≡ w.db.outbox))
          (assign_rows t o p add v)
  unfolding assign_rows
  assign_rows-Ensures p true t v e =
      Ensures-exec_end _ (insert_performer o.id p o.updated_by t) v λ n u ins _.
        let (absent, rewritten) =
          insert_performer-ok t w.db v.db u.db n e o.id p o.updated_by ins in
        ((t, absent, rewritten.0, rewritten.1), rewritten.2, rewritten.3)
  assign_rows-Ensures p false t v e = Ensures-exec _ (delete_performer o.id p) _ v λ n u del _.
      Ensures-guard _ _ _ _ u λ some_rows.
        let (rows, rewritten) = delete_performer-ok t w.db v.db u.db n e o.id p del in
        done n u ((not_zero n _ some_rows rows, rewritten.0, rewritten.1), rewritten.2, rewritten.3)

  -- `Assign` changes nothing, or it adds a performer who was not assigned, or removes one who was,
  -- and adds one history entry and one pending event.
  pub assign-Atomic :
      (p : Uuid) (add : Bool)
      → Atomic
          (λ _ d _.
            Writes
              (IsAssigned o p add w.db)
              (IsEntry o.id o.updated_by
                (if add then "PERFORMER_ASSIGNED" else "PERFORMER_UNASSIGNED")
                (performer_change (lib.to_string p)))
              (IsEvent o.id
                (if add then "order.performer_assigned" else "order.performer_unassigned")
                (assigned_content lib o p))
              w.db
              d)
          w.db
          (assign lib o p add w)
  unfolding assign
  assign-Atomic p add = tx-Atomic (IsAssigned o p add w.db) _ o.id _ _ _ w λ t v e.
      Ensures-bind
        (λ _ d _.
          IsAssigned o p add w.db d.orders d.performers
          × (d.history ≡ w.db.history)
          × (d.outbox ≡ w.db.outbox))
        _ (assign_rows t o p add) _ v (assign_rows-Ensures p add t v e)
        λ _ u (tables, history, outbox).
          write_history-Enters (IsAssigned o p add w.db) w.db t o.id o.updated_by _ _ u tables
            history outbox
