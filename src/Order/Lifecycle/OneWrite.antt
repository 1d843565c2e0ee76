-- ===== src/Order/Lifecycle/OneWrite.antt =====
-- One version, one write: the version checks of internal/order/repository/postgres.go between the
-- steps of any other requests.
use agency_bot.Base.{ℤ, ◌≡◌, sym, ap, ◌∙◌, subst, Bool, true, false, List, arith, inl, inr}
use agency_bot.Effects.{Err, Result, ok, err, Done}
use agency_bot.Effects.Laws.{Atomic}
use agency_bot.Sql.{count_where}
use agency_bot.Sql.Keys.{distinct}
use agency_bot.Externals.{Uuid, Externals}
use agency_bot.Event.{OutboxRow}
use agency_bot.Order.Domain.{Order, History}
use agency_bot.Order.Tables.{OrderRow, PerformerRow, Db, is_version, new_row}
use agency_bot.Order.Repository.{create, assign}
use agency_bot.Order.Repository.Audit.{Writes}
use agency_bot.Order.Repository.Creation.{create-Atomic, IsCreated}
use agency_bot.Order.Repository.Writes.{IsAssigned, assign-Atomic}
use agency_bot.Order.Repository.Versions.{
  VersionedWrite, edits, moves, run, run-Rewrites, IsRewritten, Refuses, Refuses-stale,
}
use agency_bot.Order.Lifecycle.{
  System, Session, Step, Reach, reads, creates, updates, assigns, start, extend,
}
use agency_bot.Order.Lifecycle.Transitions.{move_status-cases}
use agency_bot.Order.Lifecycle.Spent.{
  key, IsOver, has_order-update_where, All-update_where, count-any, IsOver-first, stale,
  IsOver-append,
}

abbrev Over : Uuid → ℤ → Db → Type 0
Over id v d = IsOver id v d.orders

Over-same : (id : Uuid) (v : ℤ) (d d' : Db) → d'.orders ≡ d.orders → Over id v d → Over id v d'
Over-same id v d d' e h = subst (IsOver id v) (sym e) h

module _ (lib : Externals) (id : Uuid) (v : ℤ) where
  Over-run :
      (a : VersionedWrite) (o : Order) (w : Session)
      → Over id v w.db
      → Over id v (run lib a o w).1.db
  Over-run a o w h = go (run lib a o w) (run-Rewrites lib a o w)
    where
      go :
          (r : Result Err Done × Session)
          → Atomic (λ _ d _. IsRewritten o w.db d) w.db r
          → Over id v r.1.db
      go (ok _, t) (f, _, bumps, rows) = subst (IsOver id v) (sym rows) (
        has_order-update_where id (is_version o.id o.version) f w.db.orders bumps ∙ h.0,
        All-update_where id v (is_version o.id o.version) f w.db.orders bumps h.1,
      )
      go (err e, t) same = Over-same id v w.db t.db (ap (λ (x : Db). x.orders) same) h

  Over-Atomic :
      (Tables : List OrderRow → List PerformerRow → Type 0) (Entry : History → Type 0)
      (Event : OutboxRow → Type 0) (d : Db) (x : Result Err Done × Session)
      → Atomic (λ _ d' _. Writes Tables Entry Event d d') d x
      → ((d' : Db) → Tables d'.orders d'.performers → Over id v d')
      → Over id v d
      → Over id v x.1.db
  Over-Atomic Tables Entry Event d (ok a, w) written f h = f w.db written.2
  Over-Atomic Tables Entry Event d (err e, w) same f h =
      Over-same id v d w.db (ap (λ (x : Db). x.orders) same) h

  Over-create : (o : Order) (w : Session) → Over id v w.db → Over id v (create lib o w).1.db
  Over-create o w h =
      Over-Atomic (IsCreated lib o w.db) _ _ w.db _ (create-Atomic lib o w)
        (λ d' (t, amount, _, fresh, orders, _).
          subst (IsOver id v) (sym orders)
            (IsOver-append id v w.db.orders (new_row o amount t) fresh h))
        h

  Over-assign :
      (o : Order) (p : Uuid) (add : Bool) (w : Session)
      → Over id v w.db
      → Over id v (assign lib o p add w).1.db
  Over-assign o p true w h =
      Over-Atomic (IsAssigned o p true w.db) _ _ w.db _ (assign-Atomic lib o w p true)
        (λ d' (_, _, orders, _). Over-same id v w.db d' orders h) h
  Over-assign o p false w h =
      Over-Atomic (IsAssigned o p false w.db) _ _ w.db _ (assign-Atomic lib o w p false)
        (λ d' (_, orders, _). Over-same id v w.db d' orders h) h

  Step-Over : {s t : System} → Step lib s t → Over id v s.db → Over id v t.db
  Step-Over (reads r ids e) h = h
  Step-Over (creates o w e) h = Over-create o w (subst (Over id v) (sym e) h)
  Step-Over (updates o changes w e) h = Over-run (edits changes) o w (subst (Over id v) (sym e) h)
  Step-Over (assigns o p add w e) h = Over-assign o p add w (subst (Over id v) (sym e) h)
  Step-Over (Step.moves o actor version b w held e) h =
      elim (move_status-cases lib o actor version b w) [
        | inl same ↦
            subst (λ (x : Session). Over id v x.db) (sym same) (subst (Over id v) (sym e) h)
        | inr (_, moved) ↦
            subst (λ (r : Result Err Done × Session). Over id v r.1.db) (sym moved)
              (Over-run (moves b) (record o { updated_by = actor }) w (subst (Over id v) (sym e) h))
      ]

  Reach-Over : {s t : System} → Reach lib s t → Over id v s.db → Over id v t.db
  Reach-Over start h = h
  Reach-Over (extend run step) h = Step-Over step (Reach-Over run h)

module _ (lib : Externals) where
  -- After a write that succeeded its version is over.
  run-Over :
      (a : VersionedWrite) (o : Order) (w : Session)
      → distinct key w.db.orders ≡ true
      → (run lib a o w).0 ≡ ok tt
      → Over o.id o.version (run lib a o w).1.db
  run-Over a o w unique done = go (run lib a o w) (run-Rewrites lib a o w) done
    where
      go :
          (r : Result Err Done × Session)
          → Atomic (λ _ d _. IsRewritten o w.db d) w.db r
          → r.0 ≡ ok tt
          → Over o.id o.version r.1.db
      go (ok _, t) (f, there, bumps, rows) _ = subst (IsOver o.id o.version) (sym rows) (
        has_order-update_where o.id (is_version o.id o.version) f w.db.orders bumps
            ∙ count-any o.id o.version w.db.orders there,
        IsOver-first o.id o.version f w.db.orders bumps unique there,
      )
      go (err e, t) _ bad = absurd (ground arith)

  -- After an update or a change of status that succeeded on a table with distinct identifiers, and
  -- after any steps of any requests behind it, any update or change of status with the same
  -- identifier and version fails and leaves the database as it is, whatever the environment does: of
  -- the requests that have read one version of an order, one at most writes.
  pub one_write :
      (a b : VersionedWrite) (o o' : Order) (held : List Order) (w v : Session) (t : System)
      → distinct key w.db.orders ≡ true
      → (run lib a o w).0 ≡ ok tt
      → Reach lib (record { db = (run lib a o w).1.db; held = held }) t
      → v.db ≡ t.db
      → o'.id ≡ o.id
      → o'.version ≡ o.version
      → Refuses v.db (run lib b o' v)
  one_write a b o o' held w v t unique done between same id version =
      let over : Over o.id o.version t.db =
        Reach-Over lib o.id o.version between (run-Over a o w unique done) in
      let behind : Over o'.id o'.version v.db = subst (Over o'.id o'.version) (sym same) (
        subst (λ k. Over k o'.version t.db) (sym id)
          (subst (λ n. Over o.id n t.db) (sym version) over)) in
      Refuses-stale v.db (IsRewritten o' v.db)
        (count_where (is_version o'.id o'.version) v.db.orders) (run lib b o' v)
        (run-Rewrites lib b o' v) (λ d rewritten. rewritten.1)
        (stale o'.id o'.version v.db.orders behind.1)
