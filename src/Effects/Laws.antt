-- ===== src/Effects/Laws.antt =====
-- What a call guarantees whatever the environment does: a postcondition on the value and the world
-- after a call that succeeds, with a rule for each primitive call in front of a continuation.
use agency_bot.Base.{
  ℕ, ◌≡◌, refl, sym, subst, arith, subst₂, ◌∙◌, String, Bool, true, false, Option, none, some,
}
use agency_bot.Effects.Defs.{
  Err, Result, ok, err, Done, M, ◌>>=◌, ◌>>◌, pure, World, call, answer, stmt, put, advance, settle,
  commit, exec, query, transact, now, new_uuid, guard,
}

-- `P` holds of the value, the database and the effects after a call that succeeds.
pub data Ensures {D X A : Type 0} (P : A → D → X → Type 0) : Result Err A × World D X → Type 0 where
  done : (a : A) (w : World D X) → P a w.db w.ext → Ensures P (ok a, w)
  failed : (e : Err) (w : World D X) → Ensures P (err e, w)

-- What holds of the value and the state after a call, by how it ended.
abbrev pub Ends : {S E A : Type 0} → (A → S → Type 0) → (E → S → Type 0) → Result E A × S → Type 0
Ends Post Fail (ok a, s) = Post a s
Ends Post Fail (err e, s) = Fail e s

pub Ends-mono :
    {S E A : Type 0} (P P' : A → S → Type 0) (F F' : E → S → Type 0) (r : Result E A × S)
    → Ends P F r
    → ((a : A) (s : S) → P a s → P' a s)
    → ((e : E) (s : S) → F e s → F' e s)
    → Ends P' F' r
Ends-mono P P' F F' (ok a, s) h f g = f a s h
Ends-mono P P' F F' (err e, s) h f g = g e s h

module _ {S E A B : Type 0} where
  pub Ends-bind :
      (P : A → S → Type 0) (F : E → S → Type 0) (Q : B → S → Type 0) (G : E → S → Type 0)
      (m : M S E A) (k : A → M S E B) (s : S)
      → Ends P F (m s)
      → ((a : A) (t : S) → P a t → Ends Q G (k a t))
      → ((e : E) (t : S) → F e t → G e t)
      → Ends Q G ((m >>= k) s)
  unfolding ◌>>=◌
  Ends-bind P F Q G m k s h next fails = go (m s) h
    where
      go :
          (r : Result E A × S)
          → Ends P F r
          → Ends Q G (
              let (x, t) = r in
              elim x as (λ _. Result E B × S) [ ok a ↦ k a t | err e ↦ (err e, t) ])
      go (ok a, t) p = next a t p
      go (err e, t) p = fails e t p

module _ {D X : Type 0} (w : World D X) where
  pub call-Ends : Ends (λ _ v. (v.db ≡ w.db) × (v.ext ≡ w.ext)) (λ _ v. v.ext ≡ w.ext) (call w)
  unfolding call
  call-Ends = ground arith

  pub query-Ends :
      {A : Type 0} (f : D → A)
      → Ends
          (λ a v. (a ≡ f w.db) × (v.db ≡ w.db) × (v.ext ≡ w.ext))
          (λ _ v. v.ext ≡ w.ext)
          (query f w)
  unfolding query call ◌>>=◌
  query-Ends f = ground arith

module _ {D X A : Type 0} (P : A → D → X → Type 0) (F : X → Type 0) where
  settle-Ends :
      (d : D) (r : Result Err A × World D X)
      → Ends (λ a v. P a v.db v.ext) (λ _ v. F v.ext) r
      → Ends (λ a v. P a v.db v.ext) (λ _ v. (v.db ≡ d) × F v.ext) (settle d r)
  settle-Ends d (ok a, v) h = h
  settle-Ends d (err e, v) h = (refl, h)

  commit-Ends :
      (a : A) (v : World D X)
      → P a v.db v.ext
      → F v.ext
      → Ends (λ a v. P a v.db v.ext) (λ _ v. F v.ext) (commit a v)
  unfolding commit
  commit-Ends a v p f =
      Ends-bind _ _ _ _ call (λ _. pure a) v (call-Ends v)
        (λ _ u (e, x). subst₂ (P a) (sym e) (sym x) p) (λ _ u x. subst F (sym x) f)

  abbrev Good : A → World D X → Type 0
  Good a v = P a v.db v.ext

  abbrev Bad : Err → World D X → Type 0
  Bad _ v = F v.ext

  now-Ends :
      (body : ℕ → M (World D X) Err A) (v : World D X)
      → Ends Good Bad (body (v.env.clock v.step) (advance v))
      → ((a : A) (d : D) (x : X) → P a d x → F x)
      → Ends Good Bad ((now >>= λ t. body t >>= commit) v)
  now-Ends body v run weaken =
      unfold now in
      Ends-bind (λ t u. (t ≡ v.env.clock v.step) × (u ≡ advance v)) Bad Good Bad now
        (λ t. body t >>= commit) v (refl, refl)
        (λ t u (at, e).
          Ends-bind Good Bad Good Bad (body t) commit u
            (subst₂ (λ t u. Ends Good Bad (body t u)) (sym at) (sym e) run)
            (λ a z p. commit-Ends a z p (weaken a z.db z.ext p)) (λ _ z f. f))
        (λ _ u f. f)

  -- A transaction ends as its body does, and on an error it gives the old database back. `F` is what
  -- is known of the effects wherever it stops.
  pub transact-Ends :
      (body : ℕ → M (World D X) Err A) (w : World D X)
      → F w.ext
      → ((a : A) (d : D) (x : X) → P a d x → F x)
      → ((t : ℕ) (v : World D X)
          → v.db ≡ w.db
          → v.ext ≡ w.ext
          → Ends (λ a u. P a u.db u.ext) (λ _ u. F u.ext) (body t v))
      → Ends (λ a v. P a v.db v.ext) (λ _ v. (v.db ≡ w.db) × F v.ext) (transact body w)
  transact-Ends body w start weaken run =
      unfold transact in
      settle-Ends w.db _ (
        Ends-bind _ _ Good Bad call _ w (call-Ends w)
          (λ _ v (e, x). now-Ends body v (run _ (advance v) e x) weaken)
          (λ _ u x. subst F (sym x) start))

-- What holds after a call, by how it ended; a failed call leaves the database `d`.
abbrev pub Atomic : {D X A : Type 0} → (A → D → X → Type 0) → D → Result Err A × World D X → Type 0
Atomic P d (ok a, w) = P a w.db w.ext
Atomic P d (err e, w) = w.db ≡ d

module _ {D X A B : Type 0} (P : A → D → X → Type 0) (Q : B → D → X → Type 0) where
  pub Ensures-bind :
      (m : M (World D X) Err A) (k : A → M (World D X) Err B) (w : World D X)
      → Ensures P (m w)
      → ((a : A) (v : World D X) → P a v.db v.ext → Ensures Q (k a v))
      → Ensures Q ((m >>= k) w)
  unfolding ◌>>=◌
  Ensures-bind m k w h next = go (m w) h
    where
      go :
          (r : Result Err A × World D X)
          → Ensures P r
          → Ensures Q (
              let (x, t) = r in
              elim x as (λ _. Result Err B × World D X) [ ok a ↦ k a t | err e ↦ (err e, t) ])
      go _ (done a t p) = next a t p
      go _ (failed e t) = failed e t

module _ {D X B : Type 0} (Q : B → D → X → Type 0) where
  pub Ensures-exec :
      {A : Type 0} (f : D → Result Err (A × D)) (k : A → M (World D X) Err B) (w : World D X)
      → ((a : A) (v : World D X) → f w.db ≡ ok (a, v.db) → v.ext ≡ w.ext → Ensures Q (k a v))
      → Ensures Q ((exec f >>= k) w)
  unfolding exec call ◌>>=◌
  Ensures-exec {A} f k w next = go (w.env.faults w.step)
    where
      written : (r : Result Err (A × D)) → f w.db ≡ r → Ensures Q ((put r >>= k) (advance w))
      written (ok (a, d)) e = next a (record (advance w) { db = d }) e refl
      written (err e) _ = failed e (advance w)

      go : (o : Option String) → Ensures Q (((answer o >> stmt f) >>= k) w)
      go none = written (f w.db) refl
      go (some e) = failed _ (advance w)

  -- The same for the last statement of a block.
  pub Ensures-exec_end :
      (f : D → Result Err (B × D)) (w : World D X)
      → ((a : B) (v : World D X) → f w.db ≡ ok (a, v.db) → v.ext ≡ w.ext → Q a v.db v.ext)
      → Ensures Q (exec f w)
  unfolding exec call ◌>>=◌
  Ensures-exec_end f w next = go (w.env.faults w.step)
    where
      written : (r : Result Err (B × D)) → f w.db ≡ r → Ensures Q (put r (advance w))
      written (ok (a, d)) e = let v = record (advance w) { db = d } in done a v (next a v e refl)
      written (err e) _ = failed e (advance w)

      go : (o : Option String) → Ensures Q ((answer o >> stmt f) w)
      go none = written (f w.db) refl
      go (some e) = failed _ (advance w)

  pub Ensures-query :
      {A : Type 0} (f : D → A) (k : A → M (World D X) Err B) (w : World D X)
      → ((v : World D X) → v.db ≡ w.db → v.ext ≡ w.ext → Ensures Q (k (f w.db) v))
      → Ensures Q ((query f >>= k) w)
  unfolding query call ◌>>=◌
  Ensures-query {A} f k w next = go (w.env.faults w.step)
    where
      go : (o : Option String) → Ensures Q (((answer o >> stmt λ d. ok (f d, d)) >>= k) w)
      go none = next (advance w) refl refl
      go (some e) = failed _ (advance w)

  pub Ensures-call :
      (k : Done → M (World D X) Err B) (w : World D X)
      → ((v : World D X) → v.db ≡ w.db → v.ext ≡ w.ext → Ensures Q (k tt v))
      → Ensures Q ((call >>= k) w)
  unfolding call ◌>>=◌
  Ensures-call k w next = go (w.env.faults w.step)
    where
      go : (o : Option String) → Ensures Q ((answer o >>= k) w)
      go none = next (advance w) refl refl
      go (some e) = failed _ (advance w)

  -- What the clock and the random source answer is not constrained.
  pub Ensures-now :
      (k : ℕ → M (World D X) Err B) (w : World D X)
      → ((t : ℕ) (v : World D X) → v.db ≡ w.db → v.ext ≡ w.ext → Ensures Q (k t v))
      → Ensures Q ((now >>= k) w)
  unfolding now ◌>>=◌
  Ensures-now k w next = next _ (advance w) refl refl

  pub Ensures-new_uuid :
      (k : ℕ → M (World D X) Err B) (w : World D X)
      → ((u : ℕ) (v : World D X) → v.db ≡ w.db → v.ext ≡ w.ext → Ensures Q (k u v))
      → Ensures Q ((new_uuid >>= k) w)
  unfolding new_uuid ◌>>=◌
  Ensures-new_uuid k w next = next _ (advance w) refl refl

  pub Ensures-guard :
      (b : Bool) (e : Err) (k : Done → M (World D X) Err B) (w : World D X)
      → (b ≡ true → Ensures Q (k tt w))
      → Ensures Q ((guard b e >>= k) w)
  unfolding guard ◌>>=◌
  Ensures-guard true e k w next = next refl
  Ensures-guard false e k w next = failed e w

-- The same for a test at the end of a block.
pub Ensures-guard_end :
    {D X : Type 0} (Q : Done → D → X → Type 0) (b : Bool) (e : Err) (w : World D X)
    → (b ≡ true → Q tt w.db w.ext)
    → Ensures Q (guard b e w)
unfolding guard
Ensures-guard_end Q true e w q = done tt w (q refl)
Ensures-guard_end Q false e w q = failed e w

module _ {D X A : Type 0} (P : A → D → X → Type 0) where
  pub Ensures-mono :
      {Q : A → D → X → Type 0} (r : Result Err A × World D X)
      → Ensures P r
      → ((a : A) (d : D) (x : X) → P a d x → Q a d x)
      → Ensures Q r
  Ensures-mono _ (done a w p) f = done a w (f a w.db w.ext p)
  Ensures-mono _ (failed e w) f = failed e w

  settle-Atomic : (d : D) (r : Result Err A × World D X) → Ensures P r → Atomic P d (settle d r)
  settle-Atomic d _ (done a w p) = p
  settle-Atomic d _ (failed e w) = refl

  commit-Ensures : (a : A) (w : World D X) → P a w.db w.ext → Ensures P (commit a w)
  unfolding commit
  commit-Ensures a w p = Ensures-call P _ w λ v e x. done a v (subst₂ (P a) (sym e) (sym x) p)

  -- A transaction whose body ensures `P` ends with `P`, or leaves the database alone.
  pub Atomic-transact :
      (body : ℕ → M (World D X) Err A) (w : World D X)
      → ((t : ℕ) (v : World D X) → v.db ≡ w.db → v.ext ≡ w.ext → Ensures P (body t v))
      → Atomic P w.db (transact body w)
  Atomic-transact body w h =
      unfold transact in
      settle-Atomic w.db _ (
        Ensures-call P _ w λ v e x. Ensures-now P _ v λ t u f y.
          Ensures-bind P P (body t) commit u (h t u (f ∙ e) (y ∙ x)) λ a z p. commit-Ensures a z p)

  -- A check in front of a call.
  pub Atomic-guard :
      (b : Bool) (e : Err) (m : M (World D X) Err A) (w : World D X)
      → Atomic P w.db (m w)
      → Atomic P w.db ((guard b e >>= λ _. m) w)
  unfolding guard ◌>>=◌
  Atomic-guard true e m w h = h
  Atomic-guard false e m w h = refl
