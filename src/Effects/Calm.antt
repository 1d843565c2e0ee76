-- ===== src/Effects/Calm.antt =====
-- Calls in an environment in which none fails.
use agency_bot.Base.{ℕ, ◌+◌, ◌≡◌, refl, ap, none, Bool, true, false, arith}
use agency_bot.Effects.Defs.{
  Err, Result, ok, err, M, ◌>>=◌, World, call, exec, query, put, settle, commit, now, transact,
  on_error, guard, map_err,
}

module _ {S E A B : Type 0} where
  pub bind-ok :
      (m : M S E A) (k : A → M S E B) (s t : S) (a : A) → m s ≡ (ok a, t) → (m >>= k) s ≡ k a t
  unfolding ◌>>=◌
  bind-ok m k s t a e =
      ap
        (λ (r : Result E A × S).
          let (x, t) = r in elim x as (λ _. Result E B × S) [ ok a ↦ k a t | err e ↦ (err e, t) ])
        e

  pub bind-err :
      (m : M S E A) (k : A → M S E B) (s t : S) (e : E)
      → m s ≡ (err e, t)
      → (m >>= k) s ≡ (err e, t)
  unfolding ◌>>=◌
  bind-err m k s t e h =
      ap
        (λ (r : Result E A × S).
          let (x, t) = r in elim x as (λ _. Result E B × S) [ ok a ↦ k a t | err e ↦ (err e, t) ])
        h

-- A check that holds, in front of a call.
pub guard-ok :
    {S E A : Type 0} (b : Bool) (e : E) (m : M S E A) (s : S)
    → b ≡ true
    → (guard b e >>= λ _. m) s ≡ m s
unfolding guard ◌>>=◌
guard-ok true e m s h = refl
guard-ok false e m s h = absurd (ground (arith, h))

module _ {S E A : Type 0} where
  pub on_error-ok :
      (m : M S E A) (handler : E → M S E A) (s t : S) (a : A)
      → m s ≡ (ok a, t)
      → on_error m handler s ≡ (ok a, t)
  unfolding on_error
  on_error-ok m handler s t a e =
      ap
        (λ (r : Result E A × S).
          let (x, u) = r in
          elim x as (λ _. Result E A × S) [ ok b ↦ (ok b, u) | err f ↦ handler f u ])
        e

pub map_err-ok :
    {S E F A : Type 0} (g : E → F) (m : M S E A) (s t : S) (a : A)
    → m s ≡ (ok a, t)
    → map_err g m s ≡ (ok a, t)
unfolding map_err
map_err-ok {S} {E} {F} {A} g m s t a e =
    ap
      (λ (r : Result E A × S).
        let (x, u) = r in
        elim x as (λ _. Result F A × S) [ ok b ↦ (ok b, u) | err f ↦ (err (g f), u) ])
      e

-- A world in which no call fails, with any clock and any source of identifiers.
abbrev pub calm_world : {D X : Type 0} → (ℕ → ℕ) → (ℕ → ℕ) → D → X → ℕ → World D X
calm_world clock uuids d x n = record {
  db = d;
  ext = x;
  env = record { clock = clock; uuids = uuids; faults = λ _. none };
  step = n;
}

module _ {D X A : Type 0} (clock : ℕ → ℕ) (uuids : ℕ → ℕ) where
  pub exec-ok :
      (f : D → Result Err (A × D)) (d d' : D) (x : X) (a : A) (n : ℕ)
      → f d ≡ ok (a, d')
      → exec f (calm_world clock uuids d x n) ≡ (ok a, calm_world clock uuids d' x (n + 1))
  unfolding exec call ◌>>=◌
  exec-ok f d d' x a n e = ap (λ r. put r (calm_world clock uuids d x (n + 1))) e

  pub query-ok :
      (f : D → A) (d : D) (x : X) (n : ℕ)
      → query f (calm_world clock uuids d x n) ≡ (ok (f d), calm_world clock uuids d x (n + 1))
  unfolding query call ◌>>=◌
  query-ok f d x n = refl

  pub transact-ok :
      (body : ℕ → M (World D X) Err A) (d d' : D) (x x' : X) (a : A) (n k : ℕ)
      → body (clock (n + 1)) (calm_world clock uuids d x (n + 1 + 1))
        ≡ (ok a, calm_world clock uuids d' x' k)
      → transact body (calm_world clock uuids d x n) ≡ (ok a, calm_world clock uuids d' x' (k + 1))
  unfolding transact call now commit ◌>>=◌
  transact-ok body d d' x x' a n k e = ap (settle d) (bind-ok (body (clock (n + 1))) commit _ _ a e)
