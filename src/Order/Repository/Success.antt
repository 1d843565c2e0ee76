-- ===== src/Order/Repository/Success.antt =====
-- When the writes of internal/order/repository/postgres.go succeed.
use agency_bot.Base.{
  ℕ, ◌<◌, ℤ, ◌==ℤ◌, max_int64, ◌≡◌, refl, ap, ◌∙◌, String, true, false, ◌==◌, some, not, List, [],
  ◌∷◌, ◌++◌, ◌+◌, any, arith,
}
use agency_bot.Effects.{ok, World, exec, now, new_uuid, guard, ◌>>=◌, ◌>>◌, conflict, pure}
use agency_bot.Effects.Calm.{bind-ok, calm_world, exec-ok, transact-ok}
use agency_bot.Sql.{count_where, update_where}
use agency_bot.Externals.{Uuid, Externals}
use agency_bot.Event.{OutboxRow}
use agency_bot.Json.{Json}
use agency_bot.Order.Domain.{Status, Order, Changes, History, Time}
use agency_bot.Order.Tables.{
  OrderRow, Db, is_version, is_known, has_order, update_order, update_status, insert_history,
  insert_outbox, update_version, Affected, edited, moved,
}
use agency_bot.Order.Repository.Versions.{VersionedWrite, edits, moves, run}
use agency_bot.Order.Repository.{
  history_row, outbox_row, update, status, tx, write_history, write_event,
}

-- No identifier that is drawn is in the tables that grow.
abbrev pub IsFresh : (ℕ → Uuid) → Db → Type 0
IsFresh uuids d =
    (n : ℕ)
    → (any (λ r. r.id == uuids n) d.history ≡ false) × (any (λ r. r.id == uuids n) d.outbox ≡ false)

has_order-update_where :
    (id : Uuid) (version : ℤ) (f : OrderRow → OrderRow) (rows : List OrderRow)
    → ((r : OrderRow) → (f r).id ≡ r.id)
    → 0 < count_where (is_version id version) rows
    → has_order id (update_where (is_version id version) f rows) ≡ true
has_order-update_where id version f [] keeps h = absurd (omega (arith, h))
has_order-update_where id version f (r ∷ rows) keeps h =
    grind (arith, keeps r, has_order-update_where id version f rows keeps)

insert_history-ok :
    (h : History) (d : Db)
    → any (λ r. r.id == h.id) d.history ≡ false
    → has_order h.order_id d.orders ≡ true
    → insert_history h d ≡ ok (1, record d { history = d.history ++ (h ∷ []) })
unfolding insert_history
insert_history-ok h d new found = rw (new, found) refl

insert_outbox-ok :
    (e : OutboxRow) (d : Db)
    → any (λ r. r.id == e.id) d.outbox ≡ false
    → insert_outbox e d ≡ ok (1, record d { outbox = d.outbox ++ (e ∷ []) })
unfolding insert_outbox
insert_outbox-ok e d new = rw (new) refl

-- The table after an UPDATE of the rows with one version.
abbrev rewritten : Order → (OrderRow → OrderRow) → Db → Db
rewritten o f d = record d { orders = update_where (is_version o.id o.version) f d.orders }

update_version-ok :
    (o : Order) (f : OrderRow → OrderRow) (d : Db)
    → (o.version ==ℤ max_int64) ≡ false
    → update_version f o.id o.version d
      ≡ ok (count_where (is_version o.id o.version) d.orders, rewritten o f d)
update_version-ok o f d small = ground arith

module _ {X : Type 0} (x : X) (clock : ℕ → ℕ) (uuids : ℕ → Uuid) where
  abbrev calm : Db → ℕ → World Db X
  calm d n = calm_world clock uuids d x n

  write_history-ok :
      (t : Time) (id actor : Uuid) (action : String) (changes : Changes) (d : Db) (n : ℕ)
      → IsFresh uuids d
      → has_order id d.orders ≡ true
      → (h : History) × (write_history t id actor action changes (calm d n)
          ≡ (ok 1, calm (record d { history = d.history ++ (h ∷ []) }) (n + 1 + 1)))
  unfolding write_history new_uuid ◌>>=◌
  write_history-ok t id actor action changes d n fresh found =
      let h : History = history_row (uuids n) t id actor action changes in
      (
        h,
        exec-ok clock uuids (insert_history h) d _ x 1 (n + 1)
            (insert_history-ok h d (fresh n).0 found),
      )

  write_event-ok :
      (t : Time) (id : Uuid) (typ : String) (content : Json) (d : Db) (n : ℕ)
      → ((k : ℕ) → any (λ r. r.id == uuids k) d.outbox ≡ false)
      → (e : OutboxRow) × (write_event t id typ content (calm d n)
          ≡ (ok tt, calm (record d { outbox = d.outbox ++ (e ∷ []) }) (n + 1 + 1 + 1 + 1)))
  unfolding write_event new_uuid now ◌>>=◌
  write_event-ok t id typ content d n fresh =
      let e : OutboxRow =
        outbox_row (uuids (n + 1 + 1)) (uuids n) (clock (n + 1)) t id typ content in
      (
        e,
        bind-ok (exec (insert_outbox e)) (λ _. pure tt) _ _ 1
            (exec-ok clock uuids (insert_outbox e) d _ x 1 (n + 1 + 1 + 1)
              (insert_outbox-ok e d (fresh (n + 1 + 1)))),
      )

  -- A transaction that rewrites a row succeeds if its statement does.
  tx-ok :
      (o : Order) (d : Db) (f : ℕ → OrderRow → OrderRow) (upd : ℕ → Db → Affected)
      (action typ : String) (changes : Changes) (content : Json) (n : ℕ)
      → 0 < count_where (is_version o.id o.version) d.orders
      → ((t : ℕ) (r : OrderRow) → (f t r).id ≡ r.id)
      → ((t : ℕ)
          → upd t d ≡ ok (count_where (is_version o.id o.version) d.orders, rewritten o (f t) d))
      → IsFresh uuids d
      → (tx o.id typ content
          (λ t. exec (upd t) >>= λ rows.
            guard (not (rows == 0)) conflict >> write_history t o.id o.updated_by action changes)
          (calm d n)).0
        ≡ ok tt
  unfolding tx guard
  tx-ok o d f upd action typ changes content n some_rows keeps upds fresh =
      let nonzero : not (count_where (is_version o.id o.version) d.orders == 0) ≡ true =
        ground arith in
      let t : ℕ = clock (n + 1) in
      let d1 : Db = rewritten o (f t) d in
      let found : has_order o.id d1.orders ≡ true =
        has_order-update_where o.id o.version (f t) d.orders (keeps t) some_rows in
      let (h, e2) =
        write_history-ok t o.id o.updated_by action changes d1 (n + 1 + 1 + 1) fresh found in
      let (e, e3) =
        write_event-ok t o.id typ content (record d1 { history = d1.history ++ (h ∷ []) })
          (n + 1 + 1 + 1 + 1 + 1) (λ k. (fresh k).1) in
      ap (λ r. r.0)
        (transact-ok clock uuids _ d _ x x tt n (n + 1 + 1 + 1 + 1 + 1 + 1 + 1 + 1 + 1) (
          bind-ok _ (λ _. write_event t o.id typ content) (calm d (n + 1 + 1)) _ 1
            (bind-ok (exec (upd t)) _ (calm d (n + 1 + 1)) _ _
                (exec-ok clock uuids (upd t) d d1 x _ (n + 1 + 1) (upds t))
              ∙ (bind-ok (guard _ conflict) _ _ _ tt (rw (nonzero) refl) ∙ e2))
          ∙ e3))

  -- What the constraints of the table ask of a write.
  abbrev pub IsAcceptable : Externals → Order → VersionedWrite → Type 0
  IsAcceptable lib o (edits changes) =
      (amount : String) × (lib.cast_numeric o.amount ≡ some amount)
      × (lib.is_positive amount ≡ true)
  IsAcceptable lib o (moves next) = is_known next ≡ true

  update_order-ok :
      (lib : Externals) (o : Order) (amount : String) (d : Db) (t : Time)
      → lib.cast_numeric o.amount ≡ some amount
      → lib.is_positive amount ≡ true
      → (o.version ==ℤ max_int64) ≡ false
      → update_order lib o t d
        ≡ ok (count_where (is_version o.id o.version) d.orders, rewritten o (edited o amount t) d)
  unfolding update_order
  update_order-ok lib o amount d t cast positive small = ground arith

  update_status-ok :
      (o : Order) (next : Status) (d : Db) (t : Time)
      → is_known next ≡ true
      → (o.version ==ℤ max_int64) ≡ false
      → update_status o next t d
        ≡ ok (count_where (is_version o.id o.version) d.orders, rewritten o (moved o next t) d)
  unfolding update_status
  update_status-ok o next d t known small = ground arith

  -- When no call fails, an update or a change of status with the version that the stored order has
  -- succeeds, if the version is below the largest BIGINT, the values meet the constraints of the
  -- table, and no identifier that is drawn is in use.
  pub run-ok :
      (lib : Externals) (a : VersionedWrite) (o : Order) (d : Db) (n : ℕ)
      → 0 < count_where (is_version o.id o.version) d.orders
      → IsAcceptable lib o a
      → (o.version ==ℤ max_int64) ≡ false
      → IsFresh uuids d
      → (run lib a o (calm d n)).0 ≡ ok tt
  unfolding update status
  run-ok lib (edits changes) o d n some_rows (amount, cast, positive) small fresh =
      tx-ok o d (edited o amount) (update_order lib o) _ _ _ _ n some_rows (λ t r. refl)
        (λ t. update_order-ok lib o amount d t cast positive small) fresh
  run-ok lib (moves next) o d n some_rows known small fresh =
      tx-ok o d (moved o next) (update_status o next) _ _ _ _ n some_rows (λ t r. refl)
        (λ t. update_status-ok o next d t known small) fresh
