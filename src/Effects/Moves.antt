-- ===== src/Effects/Moves.antt =====
-- Calls that move the state along a reflexive and transitive relation, also where they fail: one rule
-- for each way to build a call, and the calls that change neither the database nor the effects.
use agency_bot.Base.{◌≡◌, refl, ◌∙◌, String, Bool, Option, none, some, List, [], ◌∷◌, arith}
use agency_bot.Effects.Defs.{
  Err, Result, ok, err, Done, M, ◌>>=◌, pure, throw, World, query, call, guard, map_err, for_each,
  error_of, ignore, exec, now, on_error, answer, stmt, put,
}
use agency_bot.Effects.Relates.{Order}

module _ {S : Type 0} (O : Order S) where
  open O use {rel, rfl, trs}

  abbrev pub Moves : {E A : Type 0} → M S E A → Type 0
  Moves m = (s : S) → rel s (m s).1

  pub Moves-bind :
      {E A B : Type 0} (m : M S E A) (k : A → M S E B)
      → Moves m
      → ((a : A) → Moves (k a))
      → Moves (m >>= k)
  unfolding ◌>>=◌
  Moves-bind {E} {A} {B} m k h next s = go (m s) (h s)
    where
      go :
          (r : Result E A × S)
          → rel s r.1
          → rel s
              (let (x, t) = r in
                elim x as (λ _. Result E B × S) [ ok a ↦ k a t | err e ↦ (err e, t) ]).1
      go (ok a, t) moved = trs s t _ moved (next a t)
      go (err a, t) moved = moved

  pub Moves-map_err : {E F A : Type 0} (g : E → F) (m : M S E A) → Moves m → Moves (map_err g m)
  unfolding map_err
  Moves-map_err {E} {F} {A} g m h s = go (m s) (h s)
    where
      go :
          (r : Result E A × S)
          → rel s r.1
          → rel s
              (let (x, t) = r in
                elim x as (λ _. Result F A × S) [ ok a ↦ (ok a, t) | err e ↦ (err (g e), t) ]).1
      go (ok a, t) moved = moved
      go (err a, t) moved = moved

  pub Moves-error_of : {E A : Type 0} (m : M S E A) → Moves m → Moves (error_of m)
  unfolding error_of
  Moves-error_of {E} {A} m h s = go (m s) (h s)
    where
      go :
          (r : Result E A × S)
          → rel s r.1
          → rel s
              (let (x, t) = r in
                elim x as (λ _. Result E (Option E) × S) [
                  | ok a ↦ (ok none, t)
                  | err e ↦ (ok (some e), t)
                ]).1
      go (ok a, t) moved = moved
      go (err a, t) moved = moved

  pub Moves-on_error :
      {E A : Type 0} (m : M S E A) (handler : E → M S E A)
      → Moves m
      → ((e : E) → Moves (handler e))
      → Moves (on_error m handler)
  unfolding on_error
  Moves-on_error {E} {A} m handler h next s = go (m s) (h s)
    where
      go :
          (r : Result E A × S)
          → rel s r.1
          → rel s
              (let (x, t) = r in
                elim x as (λ _. Result E A × S) [ ok a ↦ (ok a, t) | err e ↦ handler e t ]).1
      go (ok a, t) moved = moved
      go (err a, t) moved = trs s t _ moved (next a t)

  pub Moves-ignore : {E A : Type 0} (m : M S E A) → Moves m → Moves {E = E} (ignore m)
  unfolding ignore
  Moves-ignore m h s = h s

  pub Moves-pure : (E : Type 0) {A : Type 0} (a : A) → Moves {E = E} (pure a)
  Moves-pure E a s = rfl s

  pub Moves-throw : {E : Type 0} (A : Type 0) (e : E) → Moves {A = A} (throw e)
  Moves-throw A e s = rfl s

  pub Moves-guard : {E : Type 0} (b : Bool) (e : E) → Moves (guard b e)
  unfolding guard
  Moves-guard b e s = rfl s

  pub Moves-for_each :
      {E A : Type 0} (xs : List A) (f : A → M S E Done)
      → ((a : A) → Moves (f a))
      → Moves (for_each xs f)
  unfolding for_each
  Moves-for_each {E} [] f h = Moves-pure E tt
  Moves-for_each (x ∷ xs) f h =
      Moves-bind (f x) (λ _. for_each xs f) (h x) (λ _. Moves-for_each xs f h)

module _ {D X : Type 0} where
  abbrev pub IsSame : World D X → World D X → Type 0
  IsSame w v = (v.db ≡ w.db) × (v.ext ≡ w.ext)

  -- The order of the calls that only read.
  abbrev pub same : Order (World D X)
  same = record { rel = IsSame; rfl = λ w. (refl, refl); trs = λ a b c h k. (k.0 ∙ h.0, k.1 ∙ h.1) }

  abbrev pub Reads : {E A : Type 0} → M (World D X) E A → Type 0
  Reads m = Moves same m

  pub Reads-query : {A : Type 0} (f : D → A) → Reads (query f)
  unfolding query call ◌>>=◌
  Reads-query f w = ground arith

-- Calls that move the database, whatever they do to the effects.
module _ {D X : Type 0} (O : Order D) where
  open O use {rel, rfl, trs}

  abbrev pub on_db : Order (World D X)
  on_db = record {
    rel = λ w v. rel w.db v.db;
    rfl = λ w. rfl w.db;
    trs = λ a b c. trs a.db b.db c.db;
  }

  pub Moves-call : Moves on_db call
  unfolding call
  Moves-call w = go (w.env.faults w.step)
    where
      go : (o : Option String) → rel w.db (answer o w).1.db
      go none = rfl w.db
      go (some e) = rfl w.db

  pub Moves-now : Moves on_db now
  unfolding now
  Moves-now w = rfl w.db

  pub Moves-exec :
      {A : Type 0} (f : D → Result Err (A × D))
      → ((d d' : D) (a : A) → f d ≡ ok (a, d') → rel d d')
      → Moves on_db (exec f)
  unfolding exec
  Moves-exec {A} f h = Moves-bind on_db call (λ _. stmt f) Moves-call λ _ w. written w (f w.db) refl
    where
      written : (w : World D X) (r : Result Err (A × D)) → f w.db ≡ r → rel w.db (put r w).1.db
      written w (ok (a, d)) e = h w.db d a e
      written w (err x) e = rfl w.db

  pub Moves-query : {A : Type 0} (f : D → A) → Moves on_db (query f)
  unfolding query
  Moves-query f = Moves-bind on_db call (λ _. stmt λ d. ok (f d, d)) Moves-call λ _ w. rfl w.db
