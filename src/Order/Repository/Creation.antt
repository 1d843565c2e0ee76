-- ===== src/Order/Repository/Creation.antt =====
-- What `Create` does to the database, its loop over the performers included.
use agency_bot.Base.{
  ◌≡◌, refl, sym, ap, ◌∙◌, String, some, List, [], ◌∷◌, ◌++◌, map, false, append-nil, append_assoc,
}
use agency_bot.Effects.{World, for_each}
use agency_bot.Effects.Laws.{Ensures, done, Atomic, Ensures-bind, Ensures-exec, Ensures-mono}
use agency_bot.Externals.{Uuid, Externals}
use agency_bot.Event.{IsEvent}
use agency_bot.Order.Domain.{Time, Order}
use agency_bot.Order.Tables.{
  OrderRow, PerformerRow, Db, has_order, new_row, new_assignment, insert_order, insert_performer,
}
use agency_bot.Order.Repository.{create, add_performer, created_content}
use agency_bot.Order.Repository.Audit.{IsEntry, Writes, tx-Atomic, write_history-Enters}
use agency_bot.Order.Repository.Writes.{Rewrites, insert_order-ok, insert_performer-ok}

-- The rows that the loop of `Create` adds.
abbrev pub assignments : Order → Time → List Uuid → List PerformerRow
assignments o t ids = map (λ p. new_assignment o.id p o.created_by t) ids

-- The tables after `Create` on `d`.
abbrev pub IsCreated : Externals → Order → Db → List OrderRow → List PerformerRow → Type 0
IsCreated lib o d orders performers =
    (t : Time) × (amount : String) × (lib.cast_numeric o.amount ≡ some amount)
    × (has_order o.id d.orders ≡ false)
    × (orders ≡ d.orders ++ (new_row o amount t ∷ []))
    × (performers ≡ d.performers ++ assignments o t o.performer_ids)

module _ {X : Type 0} (o : Order) (t : Time) where
  add_performers-Ensures :
      (ids : List Uuid) (d : Db) (v : World Db X)
      → v.db ≡ d
      → Ensures
          (λ _ d' _. Rewrites d d' d.orders (d.performers ++ assignments o t ids))
          (for_each ids (add_performer o t) v)
  unfolding for_each add_performer
  add_performers-Ensures [] d v e = done tt v (
    ap (λ (x : Db). x.orders) e,
    ap (λ (x : Db). x.performers) e ∙ sym (append-nil d.performers),
    ap (λ (x : Db). x.history) e,
    ap (λ (x : Db). x.outbox) e,
  )
  add_performers-Ensures (p ∷ ids) d v e =
      Ensures-bind
        (λ _ m _.
          Rewrites d m d.orders (d.performers ++ (new_assignment o.id p o.created_by t ∷ [])))
        _ (add_performer o t p) _ v
        (Ensures-exec _ (insert_performer o.id p o.created_by t) _ v
          λ n u ins _. done tt u (insert_performer-ok t d v.db u.db n e o.id p o.created_by ins).1)
        λ _ u (orders, performers, history, outbox).
          Ensures-mono _ _ (add_performers-Ensures ids u.db u refl)
            λ _ d' _ (orders', performers', history', outbox'). (
              orders' ∙ orders,
              performers'
                  ∙ (ap (λ l. l ++ assignments o t ids) performers
                      ∙ append_assoc d.performers _ (assignments o t ids)),
              history' ∙ history,
              outbox' ∙ outbox,
            )

module _ {X : Type 0} (lib : Externals) (o : Order) (w : World Db X) where
  -- `Create` changes nothing, or it adds the order under an identifier that no row had, with
  -- version 1 and the amount as the database stores it, one assignment for each performer, one
  -- history entry and one pending event.
  pub create-Atomic :
      Atomic
        (λ _ d _.
          Writes
            (IsCreated lib o w.db)
            (IsEntry o.id o.created_by "ORDER_CREATED" [])
            (IsEvent o.id "order.created" (created_content lib o))
            w.db
            d)
        w.db
        (create lib o w)
  unfolding create
  create-Atomic = tx-Atomic (IsCreated lib o w.db) _ o.id _ _ _ w λ t v e.
      Ensures-exec _ (insert_order lib o t) _ v λ n u ins _.
        let (amount, cast, absent, rewritten) = insert_order-ok lib o t w.db v.db u.db n e ins in
        Ensures-bind
          (λ _ d _.
            Rewrites u.db d u.db.orders (u.db.performers ++ assignments o t o.performer_ids))
          _ (for_each o.performer_ids (add_performer o t)) _ u
          (add_performers-Ensures o t o.performer_ids u.db u refl)
          λ _ z (orders, performers, history, outbox).
            write_history-Enters (IsCreated lib o w.db) w.db t o.id o.created_by _ _ z
              (
                t,
                amount,
                cast,
                absent,
                orders ∙ rewritten.0,
                performers ∙ ap (λ l. l ++ assignments o t o.performer_ids) rewritten.1,
              )
              (history ∙ rewritten.2) (outbox ∙ rewritten.3)
