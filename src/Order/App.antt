-- ===== src/Order/App.antt =====
-- internal/order/app/service.go: the service over the interfaces `Store` and `PerformerLookup`.
use agency_bot.Base.{
  ℤ, ◌==ℤ◌, is_below_one, ◌==◌, String, Bool, true, not, ◌||◌, Option, List, [], ◌∷◌, ◌++◌, any,
  str_eq, if◌then◌else◌,
}
use agency_bot.Effects.{
  Err, ok, forbidden, validation, conflict, Done, M, ◌>>=◌, ◌>>◌, pure, guard, for_each,
}
use agency_bot.Externals.{Uuid}
use agency_bot.Order.Domain.{
  Status, planned, Order, Changes, History, RatSign, valid, can_transition,
}

-- `Store`
pub record Store (S : Type 0) : Type 0 where
  pub get : Uuid → M S Err Order
  pub create : Order → M S Err Done
  pub update : Order → Changes → M S Err Done
  pub status : Order → Status → M S Err Done
  pub assign : Order → Uuid → Bool → M S Err Done
  pub list : Option Uuid → ℤ → String → M S Err (List Order)
  pub history : Uuid → M S Err (List History)

-- `Service`: the store, `PerformerLookup.IsActivePerformer`, and the number parser.
pub record Service (S : Type 0) : Type 0 where
  pub store : Store S
  pub is_active_performer : Uuid → S → Bool × S
  pub rat : RatSign

-- One of the compared fields of `Update`.
abbrev pub changed : String → String → String → Changes
changed k a b = if not (str_eq a b) then (k, record { old_value = a; new_value = b }) ∷ [] else []

-- The map `changes` of `Update`.
unfoldable pub diff : Order → Order → Changes
diff current o =
    changed "location" current.location o.location
    ++ (changed "amount" current.amount o.amount ++ changed "comment" current.comment o.comment)

-- `ChangeStatus` behind its first read, up to its second: the guard, then the write for `actor`.
unfoldable pub move_status : {S : Type 0} → Store S → Uuid → ℤ → Status → Order → M S Err Done
move_status store actor version next o = do
  guard (not (not (can_transition o.status next) || not (version ==ℤ o.version))) conflict
  store.status (record o { updated_by = actor }) next

module _ {S : Type 0} (s : Service S) where
  -- A test of the other service, which has no error.
  unfoldable pub ask_performer : Uuid → M S Err Bool
  ask_performer p t = let (b, t') = s.is_active_performer p t in (ok b, t')

  unfoldable pub create : Order → M S Err Done
  create o = do
    guard (valid s.rat o) validation
    for_each o.performer_ids λ p. ask_performer p >>= λ b. guard b validation
    s.store.create (record o { status = planned })

  unfoldable pub get : Uuid → Uuid → Bool → M S Err Order
  get id actor read_all = do
    o ← s.store.get id
    guard (read_all || any (λ p. p == actor) o.performer_ids) forbidden
    pure o

  unfoldable pub update : Order → M S Err Order
  update o = do
    current ← s.store.get o.id
    guard (not (not (valid s.rat o) || is_below_one o.version)) validation
    let o' = record o { performer_ids = current.performer_ids }
    s.store.update o' (diff current o')
    s.store.get o.id

  unfoldable pub change_status : Uuid → Uuid → ℤ → Status → M S Err Order
  change_status id actor version next = do
    o ← s.store.get id
    move_status s.store actor version next o
    s.store.get id

  unfoldable pub assign : Uuid → Uuid → Uuid → Bool → M S Err Order
  assign id actor performer add = do
    o ← s.store.get id
    active ← (if add then ask_performer performer else pure true)
    guard active validation
    s.store.assign (record o { updated_by = actor }) performer add
    s.store.get id

  unfoldable pub list : Option Uuid → ℤ → String → M S Err (List Order)
  list performer limit after = s.store.list performer limit after

  unfoldable pub history : Uuid → M S Err (List History)
  history id = s.store.history id
