-- ===== src/Commands/NotificationService/Dispatching.antt =====
-- The dispatcher of the notification service leaves the events that were taken in.
use agency_bot.Base.{ℕ, ℤ, String, ◌≡◌, refl, true, none, some, arith}
use agency_bot.Effects.{
  Err, err_text, Result, ok, err, Done, M, ◌>>=◌, pure, error_of, ignore, on_error, call, now, exec,
  query,
}
use agency_bot.Effects.Moves.{
  Moves, Moves-bind, Moves-for_each, Moves-pure, Moves-on_error, Moves-error_of, Moves-ignore,
  Moves-call, Moves-now, Moves-exec, Moves-query, on_db,
}
use agency_bot.Effects.Relates.{Order}
use agency_bot.Externals.{Uuid}
use agency_bot.Notification.{
  Db, Notifier, dispatch, dispatch_round, send_due, send, notice, mark_sent, mark_failed,
  select_due,
}
use agency_bot.Notification.Dedup.{is_known}

-- An event that was taken in stays so.
abbrev pub Grows : Db → Db → Type 0
Grows d d' = (id : Uuid) → is_known id d ≡ true → is_known id d' ≡ true

abbrev grows : Order Db
grows = record { rel = Grows; rfl = λ d id h. h; trs = λ a b c f g id h. g id (f id h) }

abbrev pub Tame : {A : Type 0} → M Notifier Err A → Type 0
Tame m = Moves (on_db grows) m

send-Tame : (chat : ℤ) (body : String) → Tame (send chat body)
unfolding send
send-Tame chat body = Moves-bind (on_db grows) call _ (Moves-call grows) λ _ w id h. h

sent-Grows : (id : Uuid) (t : ℕ) (d d' : Db) (n : ℕ) → mark_sent id t d ≡ ok (n, d') → Grows d d'
unfolding mark_sent
sent-Grows id t d d' n e i h = ground (arith, e, h)

failed-Grows :
    (id : Uuid) (m : String) (d d' : Db) (n : ℕ) → mark_failed id m d ≡ ok (n, d') → Grows d d'
unfolding mark_failed
failed-Grows id m d d' n e i h = ground (arith, e, h)

send_due-Tame : (due : Uuid × ℤ) → Tame (send_due due)
unfolding send_due
send_due-Tame (id, chat) =
    Moves-bind (on_db grows) (error_of (send chat notice)) _
      (Moves-error_of (on_db grows) (send chat notice) (send-Tame chat notice))
      λ failure.
        elim failure
          as (λ o. Tame (elim o as (λ _. M Notifier Err Done) [
            | some e ↦ ignore (exec (mark_failed id (err_text e)))
            | none ↦ now >>= λ t. exec (mark_sent id t) >>= λ _. pure tt
          ])) [
            | some e ↦
                Moves-ignore (on_db grows) (exec (mark_failed id (err_text e)))
                  (Moves-exec grows _ (failed-Grows id _))
            | none ↦ Moves-bind (on_db grows) now _ (Moves-now grows) λ t.
                Moves-bind (on_db grows) (exec (mark_sent id t)) _
                  (Moves-exec grows _ (sent-Grows id t)) λ _. Moves-pure (on_db grows) Err tt
          ]

pub dispatch_round-Tame : Tame dispatch_round
unfolding dispatch_round dispatch
dispatch_round-Tame =
    Moves-on_error (on_db grows) dispatch _
      (Moves-bind (on_db grows) (query select_due) _ (Moves-query grows select_due)
        λ due. Moves-for_each (on_db grows) due send_due send_due-Tame)
      λ e. Moves-pure (on_db grows) Err tt

pub dispatch_round-ok : (w : Notifier) → (dispatch_round w).0 ≡ ok tt
unfolding dispatch_round on_error
dispatch_round-ok w = go (dispatch w)
  where
    go :
        (r : Result Err Done × Notifier)
        → (let (x, v) = r in
            elim x as (λ _. Result Err Done × Notifier) [ ok a ↦ (ok a, v) | err e ↦ (ok tt, v) ]).0
          ≡ ok tt
    go (ok a, v) = refl
    go (err e, v) = refl
