-- ===== src/Outbox/Draining.antt =====
-- The loop of the worker, in an environment in which no call fails.
use agency_bot.Base.{
  ℕ, zero, suc, ◌+◌, ◌*◌, ◌≤◌, ◌≡◌, sym, ap, ◌∙◌, String, Bool, true, List, [], ◌++◌, arith, keep,
  take, length, map, map-append, append_assoc, take_all, drop_all, length-drop, take-drop, drop,
}
use agency_bot.Effects.{Err, Result, ok, Done}
use agency_bot.Effects.Calm.{on_error-ok, bind-ok, calm_world}
use agency_bot.Externals.{Uuid}
use agency_bot.Event.{OutboxRow}
use agency_bot.Outbox.{Worker, Message, message, process, round, run, is_pending, select_batch}
use agency_bot.Outbox.Delivery.{mark_all}
use agency_bot.Outbox.Progress.{process-calm}
use agency_bot.Outbox.Queue.{
  queue, distinct_ids, unlocked, queue-select_batch, select_batch-unlocked, mark_all-distinct,
  queue-empty, length-queue,
}

abbrev pub all_unlocked : ℕ → Uuid → Bool
all_unlocked n = unlocked

module _ (clock : ℕ → ℕ) (uuids : ℕ → ℕ) (topic : String) where
  -- A round ends without an error: the head of the queue is at the broker, and it is off the queue.
  abbrev RoundEnds : List OutboxRow → List Message → Result Err Done × Worker → Type 0
  RoundEnds d x r =
      (d' : List OutboxRow) × (n : ℕ) × (r
        ≡ (ok tt, calm_world clock uuids d' (x ++ map (message topic) (take 50 (queue d))) n))
      × (queue d' ≡ drop 50 (queue d))
      × (distinct_ids d' ≡ true)

  round-RoundEnds :
      (d : List OutboxRow) (x : List Message) (n : ℕ)
      → distinct_ids d ≡ true
      → RoundEnds d x (round topic unlocked (calm_world clock uuids d x n))
  unfolding round
  round-RoundEnds d x n h =
      let (t, k, e) = process-calm clock uuids topic d x n unlocked in
      (
        mark_all t (select_batch unlocked d) d,
        k,
        on_error-ok (process topic unlocked) _ _ _ tt e
            ∙ ap
                (λ b. (
                  ok tt,
                  calm_world clock uuids (mark_all t (select_batch unlocked d) d)
                      (x ++ map (message topic) b) k,
                ))
                (select_batch-unlocked d),
        queue-select_batch t d h,
        mark_all-distinct t (select_batch unlocked d) d ∙ h,
      )

  sent_all :
      (d d' : List OutboxRow) (x : List Message)
      → queue d' ≡ drop 50 (queue d)
      → (x ++ map (message topic) (take 50 (queue d))) ++ map (message topic) (queue d')
        ≡ x ++ map (message topic) (queue d)
  sent_all d d' x left =
      append_assoc x _ _
      ∙ ap (λ l. x ++ l)
          (ap (λ l. map (message topic) (take 50 (queue d)) ++ map (message topic) l) left
            ∙ (sym (map-append (message topic) (take 50 (queue d)) (drop 50 (queue d)))
                ∙ ap (map (message topic)) (take-drop 50 (queue d))))

  -- When no call fails and no other worker holds rows, a table with distinct identifiers is drained:
  -- if `Run` has at least one round for each 50 pending rows, then no row is pending after it, and
  -- the broker has received exactly the pending rows, each once, those created first in front.
  pub run-Drains :
      (ticks : ℕ) (d : List OutboxRow) (x : List Message) (n : ℕ)
      → distinct_ids d ≡ true
      → length (keep is_pending d) ≤ 50 * (ticks + 1)
      → (d' : List OutboxRow) × (k : ℕ) × (run topic all_unlocked ticks
            (calm_world clock uuids d x n)
          ≡ (ok tt, calm_world clock uuids d' (x ++ map (message topic) (queue d)) k))
        × (keep is_pending d' ≡ [])
  unfolding run
  run-Drains zero d x n h few =
      let (d', k, e, left, _) = round-RoundEnds d x n h in
      let short : length (queue d) ≤ 50 = omega (arith, few, length-queue d) in
      (
        d',
        k,
        e
            ∙ ap (λ b. (ok tt, calm_world clock uuids d' (x ++ map (message topic) b) k))
                (take_all 50 (queue d) short),
        queue-empty d' (left ∙ drop_all 50 (queue d) short),
      )
  run-Drains (suc ticks) d x n h few =
      let (d', k, e, left, h') = round-RoundEnds d x n h in
      let (d2, k2, e2, none_left) = run-Drains ticks d' _ k h' (
        omega (
          arith,
          few,
          length-queue d,
          length-queue d',
          ap length left,
          length-drop 50 (queue d),
        )) in
      (
        d2,
        k2,
        bind-ok (round topic unlocked) (λ _. run topic all_unlocked ticks) _ _ tt e
            ∙ (e2 ∙ ap (λ b. (ok tt, calm_world clock uuids d2 b k2)) (sent_all d d' x left)),
        none_left,
      )
