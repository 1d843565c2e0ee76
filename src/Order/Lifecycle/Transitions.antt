-- ===== src/Order/Lifecycle/Transitions.antt =====
-- No interleaving of requests takes an order out of a final status, or changes its status without
-- changing its version.
use agency_bot.Base.{
  ℤ, ◌==ℤ◌, ◌≤ℤ◌, ◌<ℤ◌, lt-add_one, ==ℤ_iff, ◌≡◌, refl, sym, ◌∙◌, ap, subst, Bool, true, false, not,
  ◌||◌, some, List, [], arith, Bool-cases, inl, inr, ◌⊎◌,
}
use agency_bot.Effects.{Err, Result, ok, err, Done, guard, ◌>>=◌}
use agency_bot.Effects.Laws.{Atomic}
use agency_bot.Sql.{update_where}
use agency_bot.Externals.{Uuid, Externals}
use agency_bot.Event.{OutboxRow}
use agency_bot.Order.Repository.Audit.{Writes}
use agency_bot.Order.Domain.{
  Changes, History, Status, is_planned, planned, completed, cancelled, unknown, Order,
  can_transition,
}
use agency_bot.Order.Tables.{OrderRow, PerformerRow, Db, is_version, edited, moved}
use agency_bot.Order.App.{move_status}
use agency_bot.Order.Repository.{create, update, status, assign, repository}
use agency_bot.Order.Repository.Writes.{
  IsUpdated, IsMoved, IsAssigned, update-Atomic, status-Atomic, assign-Atomic,
}
use agency_bot.Order.Repository.Creation.{create-Atomic, IsCreated}
use agency_bot.Order.Lifecycle.{
  lookup, System, Held, Session, Step, Reach, reads, creates, updates, moves, assigns, start,
  extend, newest, older,
}
use agency_bot.Order.Lifecycle.Rows.{find-update_where, find-append, find-id}

-- A status stays, or a planned order is completed or cancelled.
abbrev pub IsLegal : Status → Status → Type 0
IsLegal a b = (b ≡ a) ⊎ ((a ≡ planned) × ((b ≡ completed) ⊎ (b ≡ cancelled)))

-- A later state of the same order: nothing of version and status has changed, or the version has
-- grown and the status is the same or a legal successor.
abbrev pub IsLater : OrderRow → OrderRow → Type 0
IsLater r r' =
    ((r'.version ≡ r.version) × (r'.status ≡ r.status))
    ⊎ ((r.version <ℤ r'.version) × IsLegal r.status r'.status)

-- Every order of `d` is found in `d'`, in a later state.
abbrev pub Evolves : Db → Db → Type 0
Evolves d d' =
    (id : Uuid) (r : OrderRow)
    → lookup id d ≡ some r
    → (r' : OrderRow) × (lookup id d' ≡ some r') × IsLater r r'

IsLater-trans : (a b c : OrderRow) → IsLater a b → IsLater b c → IsLater a c
IsLater-trans a b c h k = ground arith

Evolves-same : (d d' : Db) → d'.orders ≡ d.orders → Evolves d d'
Evolves-same d d' e id r found = (r, rw e found, inl (refl, refl))

Evolves-update_where :
    (d d' : Db) (p : OrderRow → Bool) (f : OrderRow → OrderRow)
    → ((x : OrderRow) → (f x).id ≡ x.id)
    → d'.orders ≡ update_where p f d.orders
    → ((id : Uuid) (r : OrderRow) → lookup id d ≡ some r → p r ≡ true → IsLater r (f r))
    → Evolves d d'
Evolves-update_where d d' p f keeps e later id r found = elim (Bool-cases (p r)) [
  | inl hit ↦
      (f r, rw e (find-update_where id p f d.orders r keeps found ∙ rw hit), later id r found hit)
  | inr miss ↦
      (r, rw e (find-update_where id p f d.orders r keeps found ∙ rw miss), inl (refl, refl))
]

Evolves-trans : (a b c : Db) → Evolves a b → Evolves b c → Evolves a c
Evolves-trans a b c h k id r found =
    let (s, found_s, later_s) = h id r found in
    let (t, found_t, later_t) = k id s found_s in (t, found_t, IsLater-trans r s t later_s later_t)

-- A write evolves the database if the tables that it leaves do; a failed one leaves it alone.
Evolves-Atomic :
    (Tables : List OrderRow → List PerformerRow → Type 0) (Entry : History → Type 0)
    (Event : OutboxRow → Type 0) (d : Db) (x : Result Err Done × Session)
    → Atomic (λ _ d' _. Writes Tables Entry Event d d') d x
    → ((d' : Db) → Tables d'.orders d'.performers → Evolves d d')
    → Evolves d x.1.db
Evolves-Atomic Tables Entry Event d (ok a, w) written f = f w.db written.2
Evolves-Atomic Tables Entry Event d (err e, w) h f =
    Evolves-same d w.db (ap (λ (x : Db). x.orders) h)

module _ (lib : Externals) (o : Order) (w : Session) where
  Evolves-create : Evolves w.db (create lib o w).1.db
  Evolves-create =
      Evolves-Atomic (IsCreated lib o w.db) _ _ w.db _ (create-Atomic lib o w)
        λ d' (t, amount, _, _, orders, _) id r found.
          (r, rw orders (find-append id w.db.orders _ r found), inl (refl, refl))

  Evolves-update : (changes : Changes) → Evolves w.db (update lib o changes w).1.db
  Evolves-update changes =
      Evolves-Atomic (IsUpdated lib o w.db) _ _ w.db _ (update-Atomic lib o w changes)
        λ d' (t, amount, _, _, orders, _).
          Evolves-update_where w.db d' (is_version o.id o.version) (edited o amount t) (λ x. refl)
            orders λ id r found hit. inr (lt-add_one r.version, inl refl)

  Evolves-assign : (p : Uuid) (add : Bool) → Evolves w.db (assign lib o p add w).1.db
  Evolves-assign p true =
      Evolves-Atomic (IsAssigned o p true w.db) _ _ w.db _ (assign-Atomic lib o w p true)
        λ d' (_, _, orders, _). Evolves-same w.db d' orders
  Evolves-assign p false =
      Evolves-Atomic (IsAssigned o p false w.db) _ _ w.db _ (assign-Atomic lib o w p false)
        λ d' (_, orders, _). Evolves-same w.db d' orders

  selected :
      (id : Uuid) (r : OrderRow)
      → lookup id w.db ≡ some r
      → is_version o.id o.version r ≡ true
      → (lookup o.id w.db ≡ some r) × (r.version ≡ o.version)
  selected id r found hit =
      let same : r.id ≡ o.id = ground arith in
      let version : r.version ≡ o.version = (==ℤ_iff r.version o.version).0 (ground arith) in
      (
        subst (λ k. lookup k w.db ≡ some r) (sym (find-id id w.db.orders r found) ∙ same) found,
        version,
      )

  -- A move that is legal for the row with the version which a request has read.
  Evolves-status :
      (next : Status)
      → ((r : OrderRow) → lookup o.id w.db ≡ some r → r.version ≡ o.version → IsLegal r.status next)
      → Evolves w.db (status lib o next w).1.db
  Evolves-status next legal =
      Evolves-Atomic (IsMoved o next w.db) _ _ w.db _ (status-Atomic lib o w next)
        λ d' (t, _, orders, _).
          Evolves-update_where w.db d' (is_version o.id o.version) (moved o next t) (λ x. refl)
            orders
            λ id r found hit.
              let (at, version) = selected id r found hit in
              inr (lt-add_one r.version, legal r at version)

-- What a request knows of the order that it has read: the row is still there, its version has not
-- gone back, and if it has the same version it has the same status.
abbrev pub IsKnown : Db → Order → Type 0
IsKnown d o =
    (r : OrderRow) × (lookup o.id d ≡ some r)
    × (o.version ≤ℤ r.version)
    × (r.version ≡ o.version → r.status ≡ o.status)

abbrev pub AllKnown : System → Type 0
AllKnown s = (o : Order) → Held o s.held → IsKnown s.db o

later_status :
    (r r' : OrderRow) (o : Order)
    → o.version ≤ℤ r.version
    → (r.version ≡ o.version → r.status ≡ o.status)
    → IsLater r r'
    → r'.version ≡ o.version
    → r'.status ≡ o.status
later_status r r' o le same (inl (version, stays)) e = stays ∙ same (sym version ∙ e)
later_status r r' o le same (inr (grown, legal)) e =
    absurd (let back : r'.version ≤ℤ r.version = rw e le in omega arith)

IsKnown-Evolves : (d d' : Db) (o : Order) → Evolves d d' → IsKnown d o → IsKnown d' o
IsKnown-Evolves d d' o evolves (r, found, le, same) =
    let (r', found', later) = evolves o.id r found in
    (r', found', ground arith, later_status r r' o le same later)

known_status :
    (d : Db) (o : Order) (r : OrderRow)
    → IsKnown d o
    → lookup o.id d ≡ some r
    → r.version ≡ o.version
    → r.status ≡ o.status
known_status d o r (x, found, _, same) at version =
    let row : r ≡ x = cc in
    ap (λ (y : OrderRow). y.status) row
    ∙ same (ap (λ (y : OrderRow). y.version) (sym row) ∙ version)

is_planned-eq : (a : Status) → is_planned a ≡ true → a ≡ planned
is_planned-eq planned h = refl
is_planned-eq completed h = cc
is_planned-eq cancelled h = cc
is_planned-eq (unknown s) h = cc

-- What the guard of `ChangeStatus` lets through.
moves-IsLegal :
    (o : Order) (version : ℤ) (a b : Status)
    → not (not (can_transition o.status b) || not (version ==ℤ o.version)) ≡ true
    → a ≡ o.status
    → IsLegal a b
unfolding can_transition
moves-IsLegal o version a completed h e = inr (e ∙ is_planned-eq o.status (ground arith), inl refl)
moves-IsLegal o version a cancelled h e = inr (e ∙ is_planned-eq o.status (ground arith), inr refl)
moves-IsLegal o version a planned h e = absurd (ground arith)
moves-IsLegal o version a (unknown _) h e = absurd (ground arith)

Evolves-from : {d d₀ : Db} (d' : Db) → d ≡ d₀ → Evolves d d' → Evolves d₀ d'
Evolves-from d' e h = subst (λ x. Evolves x d') e h

module _ (lib : Externals) (o : Order) (actor : Uuid) (version : ℤ) (b : Status) (w : Session) where
  -- What `ChangeStatus` does behind its read: nothing, or the write that its guard lets through.
  pub move_status-cases :
      ((move_status (repository lib) actor version b o w).1 ≡ w)
      ⊎ ((not (not (can_transition o.status b) || not (version ==ℤ o.version)) ≡ true)
          × (move_status (repository lib) actor version b o w
              ≡ status lib (record o { updated_by = actor }) b w))
  unfolding move_status guard ◌>>=◌
  move_status-cases =
      elim (Bool-cases (not (not (can_transition o.status b) || not (version ==ℤ o.version)))) [
        | inl allowed ↦ inr (allowed, rw allowed refl)
        | inr refused ↦ inl (rw refused refl)
      ]

  Evolves-move_status :
      (d : Db)
      → w.db ≡ d
      → IsKnown d o
      → Evolves w.db (move_status (repository lib) actor version b o w).1.db
  Evolves-move_status d e known = elim move_status-cases [
    | inl same ↦
        Evolves-same w.db (move_status (repository lib) actor version b o w).1.db
          (ap (λ (x : Session). x.db.orders) same)
    | inr (guard, run) ↦
        subst (λ (r : Result Err Done × Session). Evolves w.db r.1.db) (sym run)
          (Evolves-status lib (record o { updated_by = actor }) w b
            λ r found same_version.
              moves-IsLegal o version r.status b guard (
                known_status d o r known (subst (λ d. lookup o.id d ≡ some r) e found)
                  same_version))
  ]

module _ (lib : Externals) where
  -- Each step evolves the database.
  Step-Evolves : {s t : System} → Step lib s t → AllKnown s → Evolves s.db t.db
  Step-Evolves {s} (reads r ids e) known = Evolves-same s.db s.db refl
  Step-Evolves (creates o w e) known = Evolves-from (create lib o w).1.db e (Evolves-create lib o w)
  Step-Evolves (updates o changes w e) known =
      Evolves-from (update lib o changes w).1.db e (Evolves-update lib o w changes)
  Step-Evolves (assigns o p add w e) known =
      Evolves-from (assign lib o p add w).1.db e (Evolves-assign lib o w p add)
  Step-Evolves {s} (moves o actor version b w held e) known =
      Evolves-from (move_status (repository lib) actor version b o w).1.db e
        (Evolves-move_status lib o actor version b w s.db e (known o held))

  -- Each step keeps what the requests know.
  Step-AllKnown : {s t : System} → Step lib s t → AllKnown s → AllKnown t
  Step-AllKnown (reads r ids e) known _ newest = (r, e, omega arith, λ _. refl)
  Step-AllKnown (reads r ids e) known o (older held) = known o held
  Step-AllKnown {s} (creates o' w e) known o held =
      IsKnown-Evolves s.db (create lib o' w).1.db o (Step-Evolves (creates o' w e) known)
        (known o held)
  Step-AllKnown {s} (updates o' changes w e) known o held =
      IsKnown-Evolves s.db (update lib o' changes w).1.db o
        (Step-Evolves (updates o' changes w e) known) (known o held)
  Step-AllKnown {s} (assigns o' p add w e) known o held =
      IsKnown-Evolves s.db (assign lib o' p add w).1.db o
        (Step-Evolves (assigns o' p add w e) known) (known o held)
  Step-AllKnown {s} (moves o' actor version b w mine e) known o held =
      IsKnown-Evolves s.db (move_status (repository lib) actor version b o' w).1.db o
        (Step-Evolves (moves o' actor version b w mine e) known) (known o held)

  Reach-Evolves : {s t : System} → Reach lib s t → AllKnown s → Evolves s.db t.db × AllKnown t
  Reach-Evolves {s} start known = (Evolves-same s.db s.db refl, known)
  Reach-Evolves {s} (extend {t} {u} run step) known =
      let (evolves, known_t) = Reach-Evolves run known in
      (Evolves-trans s.db t.db u.db evolves (Step-Evolves step known_t), Step-AllKnown step known_t)

no_requests : (d : Db) → AllKnown (record { db = d; held = [] })
no_requests d o held = elim held [ ]

-- However the requests interleave and fail, an order that is in the database stays there, its
-- version never falls, its status changes only with its version, and a status changes only from
-- planned to completed or cancelled.
pub lifecycle :
    (lib : Externals) (d : Db) (t : System)
    → Reach lib (record { db = d; held = [] }) t
    → Evolves d t.db
lifecycle lib d t run = (Reach-Evolves lib run (no_requests d)).0
