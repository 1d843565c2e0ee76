-- ===== src/Outbox/Progress.antt =====
-- A run of the worker when no call fails.
use agency_bot.Base.{
  arith, ℕ, ◌+◌, ◌≡◌, refl, ◌∙◌, ap, ap₂, sym, map, ◌++◌, String, Bool, List, [], ◌∷◌,
}
use agency_bot.Effects.{Err, Result, ok, err, Done, ◌>>=◌, for_each, on_error, call, exec, query}
use agency_bot.Effects.Laws.{Ends}
use agency_bot.Effects.Calm.{bind-ok, calm_world, transact-ok}
use agency_bot.Externals.{Uuid}
use agency_bot.Event.{OutboxRow}
use agency_bot.Outbox.{
  Worker, Message, message, publish, process, produce, select_batch, mark_published,
}
use agency_bot.Outbox.Delivery.{mark_all, Finished, Interrupted, process-Ends}

module _ (clock : ℕ → ℕ) (uuids : ℕ → ℕ) where
  -- The call ends without an error, in a world that is calm again.
  abbrev Succeeds : Result Err Done × Worker → Type 0
  Succeeds r =
      (d : List OutboxRow) × (x : List Message) × (n : ℕ) × (r
        ≡ (ok tt, calm_world clock uuids d x n))

  publish-Succeeds :
      (topic : String) (t : ℕ) (r : OutboxRow) (d : List OutboxRow) (x : List Message) (n : ℕ)
      → Succeeds (publish topic t r (calm_world clock uuids d x n))
  unfolding publish produce exec call on_error ◌>>=◌ mark_published
  publish-Succeeds topic t r d x n = (_, _, _, refl)

  publish_all-Succeeds :
      (topic : String) (t : ℕ) (rows : List OutboxRow) (d : List OutboxRow) (x : List Message)
      (n : ℕ)
      → Succeeds (for_each rows (publish topic t) (calm_world clock uuids d x n))
  unfolding for_each
  publish_all-Succeeds topic t [] d x n = (d, x, n, refl)
  publish_all-Succeeds topic t (r ∷ rows) d x n =
      let (d1, x1, n1, e1) = publish-Succeeds topic t r d x n in
      let (d2, x2, n2, e2) = publish_all-Succeeds topic t rows d1 x1 n1 in
      (
        d2,
        x2,
        n2,
        bind-ok (publish topic t r) (λ _. for_each rows (publish topic t)) _ _ tt e1 ∙ e2,
      )

  process-Succeeds :
      (topic : String) (locked : Uuid → Bool) (d : List OutboxRow) (x : List Message) (n : ℕ)
      → Succeeds (process topic locked (calm_world clock uuids d x n))
  unfolding process query call ◌>>=◌
  process-Succeeds topic locked d x n =
      let (d1, x1, n1, e) =
        publish_all-Succeeds topic (clock (n + 1)) (select_batch locked d) d x (n + 1 + 1 + 1) in
      (d1, x1, n1 + 1, transact-ok clock uuids _ d d1 x x1 tt n n1 e)

  finished :
      (topic : String) (locked : Uuid → Bool) (w : Worker) (r : Result Err Done × Worker)
      → r.0 ≡ ok tt
      → Ends
          (λ _ v. Finished topic locked w v.db v.ext)
          (λ _ v. (v.db ≡ w.db) × Interrupted topic locked w v.ext)
          r
      → (r.0 ≡ ok tt) × Finished topic locked w r.1.db r.1.ext
  finished topic locked w (ok a, v) e h = (e, h)
  finished topic locked w (err a, v) e h = absurd (ground arith)

  -- When no call fails, a run of the worker succeeds on any table: the broker has the whole batch, in
  -- its order, behind what it had before, and exactly those rows are marked as published.
  pub process-Finished :
      (topic : String) (locked : Uuid → Bool) (d : List OutboxRow) (x : List Message) (n : ℕ)
      → ((process topic locked (calm_world clock uuids d x n)).0 ≡ ok tt)
        × Finished topic locked
            (calm_world clock uuids d x n)
            (process topic locked (calm_world clock uuids d x n)).1.db
            (process topic locked (calm_world clock uuids d x n)).1.ext
  process-Finished topic locked d x n =
      let w : Worker = calm_world clock uuids d x n in
      let (_, _, _, e) = process-Succeeds topic locked d x n in
      finished topic locked w (process topic locked w) (ap (λ r. r.0) e)
        (process-Ends topic locked w)

  -- The world after such a run.
  pub process-calm :
      (topic : String) (d : List OutboxRow) (x : List Message) (n : ℕ) (locked : Uuid → Bool)
      → (t : ℕ) × (k : ℕ) × (process topic locked (calm_world clock uuids d x n) ≡ (
        ok tt,
        calm_world clock uuids
            (mark_all t (select_batch locked d) d)
            (x ++ map (message topic) (select_batch locked d))
            k,
      ))
  process-calm topic d x n locked =
      let (d1, x1, k, e) = process-Succeeds topic locked d x n in
      let (_, (t, marked, sent)) = process-Finished topic locked d x n in
      (
        t,
        k,
        e
            ∙ ap₂ (λ a b. (ok tt, calm_world clock uuids a b k)) (sym (ap (λ r. r.1.db) e) ∙ marked)
                (sym (ap (λ r. r.1.ext) e) ∙ sent),
      )
