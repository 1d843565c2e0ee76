-- ===== src/Effects/Relates.antt =====
-- Calls that move the database along a reflexive and transitive relation, whatever they answer: one
-- rule for each way to build a call.
use agency_bot.Base.{◌≡◌, List, [], ◌∷◌}
use agency_bot.Effects.Defs.{
  Err, Result, ok, Done, M, ◌>>=◌, pure, throw, for_each, World, now, new_uuid, exec,
}
use agency_bot.Effects.Laws.{Ensures, done, failed, Ensures-bind, Ensures-mono, Ensures-exec_end}

pub record Order (D : Type 0) : Type 1 where
  pub rel : D → D → Type 0
  pub rfl : (d : D) → rel d d
  pub trs : (a b c : D) → rel a b → rel b c → rel a c

module _ {D X : Type 0} (O : Order D) where
  open O use {rel, rfl, trs}

  -- A call that succeeds has moved the database along the order.
  abbrev pub Relates : {A : Type 0} → M (World D X) Err A → Type 0
  Relates {A} m = (w : World D X) → Ensures {D = D} {X = X} {A = A} (λ _ d _. rel w.db d) (m w)

  pub Relates-pure : {A : Type 0} (a : A) → Relates (pure a)
  Relates-pure a w = done a w (rfl w.db)

  pub Relates-throw : {A : Type 0} (e : Err) → Relates {A = A} (throw e)
  Relates-throw e w = failed e w

  pub Relates-new_uuid : Relates new_uuid
  unfolding new_uuid
  Relates-new_uuid w = done _ _ (rfl w.db)

  pub Relates-now : Relates now
  unfolding now
  Relates-now w = done _ _ (rfl w.db)

  pub Relates-exec :
      {A : Type 0} (f : D → Result Err (A × D))
      → ((d d' : D) (a : A) → f d ≡ ok (a, d') → rel d d')
      → Relates (exec f)
  Relates-exec f h w = Ensures-exec_end _ f w λ a v e _. h w.db v.db a e

  pub Relates-bind :
      {A B : Type 0} (m : M (World D X) Err A) (k : A → M (World D X) Err B)
      → Relates m
      → ((a : A) → Relates (k a))
      → Relates (m >>= k)
  Relates-bind m k h next w =
      Ensures-bind (λ _ d _. rel w.db d) (λ _ d _. rel w.db d) m k w (h w)
        λ a v r. Ensures-mono (λ _ d _. rel v.db d) _ (next a v) λ _ d _ s. trs w.db v.db d r s

  pub Relates-for_each :
      {A : Type 0} (xs : List A) (f : A → M (World D X) Err Done)
      → ((a : A) → Relates (f a))
      → Relates (for_each xs f)
  unfolding for_each
  Relates-for_each [] f h w = done tt w (rfl w.db)
  Relates-for_each (x ∷ xs) f h w =
      Relates-bind (f x) (λ _. for_each xs f) (h x) (λ _. Relates-for_each xs f h) w
