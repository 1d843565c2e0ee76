-- ===== src/Notification/Sending.antt =====
-- What `Dispatch` sends.
use agency_bot.Base.{
  ℤ, ◌≡◌, sym, ap, ◌∙◌, ◌⊎◌, inl, inr, String, Option, none, some, List, [], ◌∷◌, ◌++◌, map,
  append-nil, append_assoc, arith,
}
use agency_bot.Effects.{
  Err, Result, ok, err, Done, ◌>>=◌, ◌>>◌, for_each, error_of, ignore, call, exec, query, now, stmt,
  answer, advance,
}
use agency_bot.Externals.{Uuid}
use agency_bot.Notification.{
  Notifier, Sent, mark_failed, mark_sent, select_due, send, notice, send_due, dispatch,
}

-- Some items of a list, in its order.
pub data Part {A : Type 0} : List A → List A → Type 0 where
  nothing : (ys : List A) → Part [] ys
  skip : (y : A) (xs ys : List A) → Part xs ys → Part xs (y ∷ ys)
  keep : (y : A) (xs ys : List A) → Part xs ys → Part (y ∷ xs) (y ∷ ys)

abbrev pub message : Uuid × ℤ → Sent
message (id, chat) = record { chat = chat; body = notice }

send_due-ext :
    (x : Uuid × ℤ) (w : Notifier)
    → ((send_due x w).1.ext ≡ w.ext) ⊎ ((send_due x w).1.ext ≡ w.ext ++ (message x ∷ []))
unfolding send_due send error_of ignore call exec now mark_failed mark_sent ◌>>=◌
send_due-ext x w = ground arith

abbrev pub Sends : List (Uuid × ℤ) → List Sent → List Sent → Type 0
Sends due before after = (xs : List (Uuid × ℤ)) × Part xs due × (after ≡ before ++ map message xs)

all_due-Sends :
    (due : List (Uuid × ℤ)) (w : Notifier) → Sends due w.ext (for_each due send_due w).1.ext
unfolding for_each ◌>>=◌
all_due-Sends [] w = ([], nothing [], sym (append-nil w.ext))
all_due-Sends (x ∷ due) w = go (all_due-Sends due) (send_due x w) (send_due-ext x w)
  where
    go :
        ((t : Notifier) → Sends due t.ext (for_each due send_due t).1.ext)
        → (r : Result Err Done × Notifier)
        → (r.1.ext ≡ w.ext) ⊎ (r.1.ext ≡ w.ext ++ (message x ∷ []))
        → Sends
            (x ∷ due)
            w.ext
            (let (o, t) = r in
              elim o as (λ _. Result Err Done × Notifier) [
                | ok a ↦ for_each due send_due t
                | err e ↦ (err e, t)
              ]).1.ext
    go rest (ok a, t) (inl same) =
        let (xs, part, e) = rest t in
        (xs, skip x xs due part, e ∙ ap (λ b. b ++ map message xs) same)
    go rest (ok a, t) (inr more) =
        let (xs, part, e) = rest t in
        (
          x ∷ xs,
          keep x xs due part,
          e
              ∙ (ap (λ b. b ++ map message xs) more
                  ∙ append_assoc w.ext (message x ∷ []) (map message xs)),
        )
    go rest (err e, t) (inl same) = ([], nothing (x ∷ due), same ∙ sym (append-nil w.ext))
    go rest (err e, t) (inr more) = (x ∷ [], keep x [] due (nothing due), more)

-- Wherever its calls fail, a run of Dispatch has sent the notice to some of the chats of the batch
-- that was due when it began, each entry at most once and in the order of the batch, and nothing else.
pub dispatch-Sends : (w : Notifier) → Sends (select_due w.db) w.ext (dispatch w).1.ext
unfolding dispatch query call ◌>>=◌
dispatch-Sends w = go (w.env.faults w.step)
  where
    go :
        (o : Option String)
        → Sends
            (select_due w.db)
            w.ext
            (((answer o >> stmt λ d. ok (select_due d, d)) >>= λ due. for_each due send_due)
              w).1.ext
    go none = all_due-Sends (select_due w.db) (advance w)
    go (some e) = ([], nothing (select_due w.db), sym (append-nil w.ext))
