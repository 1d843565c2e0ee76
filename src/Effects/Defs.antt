-- ===== src/Effects/Defs.antt =====
-- Results, the monad, the environment and transactions (`begin`, body, `commit`, deferred rollback).
use agency_bot.Base.{ℕ, ◌+◌, String, Bool, Option, none, some, List, [], ◌∷◌, if◌then◌else◌}

-- The sentinel errors of internal/order/domain and internal/user/domain; any other error carries
-- its text.
pub data Err : Type 0 where
  not_found forbidden unauthorized validation conflict : Err
  other : String → Err

-- `err.Error()`
abbrev pub err_text : Err → String
err_text not_found = "not found"
err_text forbidden = "forbidden"
err_text unauthorized = "unauthorized"
err_text validation = "validation failed"
err_text conflict = "conflict"
err_text (other s) = s

pub data Result (E A : Type 0) : Type 0 where
  ok : A → Result E A
  err : E → Result E A

abbrev pub Done : Type 0
Done = Unit {0}

-- A call on the state `S` that returns an `A` or an error `E`.
abbrev pub M : Type 0 → Type 0 → Type 0 → Type 0
M S E A = S → Result E A × S

infixl 5 ◌>>=◌ ◌>>◌
unfoldable pub ◌>>=◌ : {S E A B : Type 0} → M S E A → (A → M S E B) → M S E B
◌>>=◌ m f s = let (r, s') = m s in elim r [ ok a ↦ f a s' | err e ↦ (err e, s') ]

abbrev pub ◌>>◌ : {S E B : Type 0} → M S E Done → M S E B → M S E B
m >> k = m >>= λ _. k

module _ {S E : Type 0} where
  abbrev pub pure : {A : Type 0} → A → M S E A
  pure a s = (ok a, s)

  abbrev pub throw : {A : Type 0} → E → M S E A
  throw e s = (err e, s)

  -- `if !b { return e }`
  unfoldable pub guard : Bool → E → M S E Done
  guard b e s = (if b then ok tt else err e, s)

  -- A loop that stops at the first error.
  unfoldable pub for_each : {A : Type 0} → List A → (A → M S E Done) → M S E Done
  for_each [] f = pure tt
  for_each (x ∷ xs) f = f x >> for_each xs f

  -- A call whose error is another.
  unfoldable pub map_err : {F A : Type 0} → (E → F) → M S E A → M S F A
  map_err g m s = let (r, s') = m s in elim r [ ok a ↦ (ok a, s') | err e ↦ (err (g e), s') ]

  -- `if err := m; err != nil { return handler(err) }`
  unfoldable pub on_error : {A : Type 0} → M S E A → (E → M S E A) → M S E A
  on_error m handler s = let (r, s') = m s in elim r [ ok a ↦ (ok a, s') | err e ↦ handler e s' ]

  -- `if err := m; err != nil`: the error of a call, if there is one.
  unfoldable pub error_of : {A : Type 0} → M S E A → M S E (Option E)
  error_of m s = let (r, s') = m s in elim r [ ok a ↦ (ok none, s') | err e ↦ (ok (some e), s') ]

  -- `a, err := m`: the outcome of a call, which the caller looks at.
  unfoldable pub attempt : {A F : Type 0} → M S F A → M S E (Result F A)
  attempt m s = let (r, s') = m s in (ok r, s')

  -- `_, _ = m`: a call whose error is not looked at.
  unfoldable pub ignore : {A : Type 0} → M S E A → M S E Done
  ignore m s = let (r, s') = m s in (ok tt, s')

-- What the world answers: at the n-th call the clock, the next random identifier, and the text of
-- the error if the call fails (a lost connection, a cancelled context, a broker that is away).
pub record Env : Type 0 where
  pub clock : ℕ → ℕ
  pub uuids : ℕ → ℕ
  pub faults : ℕ → Option String

-- A database `D`, the effects `X` that no rollback takes back, and the number of calls so far.
pub record World (D X : Type 0) : Type 0 where
  pub db : D
  pub ext : X
  pub env : Env
  pub step : ℕ

module _ {D X : Type 0} where
  abbrev pub advance : World D X → World D X
  advance w = record w { step = w.step + 1 }

  abbrev pub answer : Option String → M (World D X) Err Done
  answer none w = (ok tt, advance w)
  answer (some e) w = (err (other e), advance w)

  -- A call to the outside that may fail.
  unfoldable pub call : M (World D X) Err Done
  call w = answer (w.env.faults w.step) w

  -- `time.Now()`, or `now()` of PostgreSQL
  unfoldable pub now : M (World D X) Err ℕ
  now w = (ok (w.env.clock w.step), advance w)

  -- `uuid.New()`
  unfoldable pub new_uuid : M (World D X) Err ℕ
  new_uuid w = (ok (w.env.uuids w.step), advance w)

  -- The outcome of a statement on the database.
  abbrev pub put : {A : Type 0} → Result Err (A × D) → M (World D X) Err A
  put (ok (a, d)) w = (ok a, record w { db = d })
  put (err e) w = (err e, w)

  abbrev pub stmt : {A : Type 0} → (D → Result Err (A × D)) → M (World D X) Err A
  stmt f w = put (f w.db) w

  -- `Exec`: one SQL statement.
  unfoldable pub exec : {A : Type 0} → (D → Result Err (A × D)) → M (World D X) Err A
  exec f = call >> stmt f

  -- `Query`: a statement that reads.
  unfoldable pub query : {A : Type 0} → (D → A) → M (World D X) Err A
  query f = call >> stmt λ d. ok (f d, d)

  -- `defer tx.Rollback(ctx)`: after an error the database is as it was when the transaction began.
  abbrev pub settle : {A : Type 0} → D → Result Err A × World D X → Result Err A × World D X
  settle d (ok a, w) = (ok a, w)
  settle d (err e, w) = (err e, record w { db = d })

  unfoldable pub commit : {A : Type 0} → A → M (World D X) Err A
  commit a = call >> pure a

  -- `Begin`, the body, `Commit`. The body is given the time at which the transaction began, which
  -- is what `now()` is in its statements.
  unfoldable pub transact : {A : Type 0} → (ℕ → M (World D X) Err A) → M (World D X) Err A
  transact body w = settle w.db ((do call; t ← now; a ← body t; commit a) w)
