-- ===== src/Notification/Adding.antt =====
-- What `Process` of internal/notification/service.go makes of an event about an order.
use agency_bot.Base.{
  ℕ, ◌≡◌, refl, sym, ap, ◌∙◌, subst, ◌==◌, true, false, Option, none, some, List, [], ◌∷◌, ◌++◌,
  starts_with, arith, if◌then◌else◌, inl, inr, ◌⊎◌,
}
use agency_bot.Effects.{Err, Result, ok, err, Done, pure}
use agency_bot.Effects.Laws.{
  Ensures, done, failed, Atomic, Ensures-bind, Ensures-exec, Ensures-mono, Atomic-transact,
  Atomic-guard,
}
use mathlib.Core.Option
use agency_bot.Externals.{Uuid, Externals}
use agency_bot.Json.{Json, Fields, get_field}
use agency_bot.Notification.{
  Incoming, Db, Notifier, process, process_once, handle, create_notifications, recipients_from,
  with_content, parsed, insert_processed, read_object, read_uuids, read_uuid,
}
use agency_bot.Notification.Dedup.{
  IsUnique, IsTaken, is_known, process-IsTaken, insert_processed-ok,
}
use agency_bot.Notification.Added.{Adds, notify_all-Adds}

-- The recipients that the fields of an event name: those of `performer_ids` if it is there, otherwise
-- the one of `performer_id` if that is there, and otherwise nobody.
abbrev pub NamedBy : Externals → Option Json → Option Json → List Uuid → Type 0
NamedBy lib (some many) single ids = read_uuids lib many ≡ some ids
NamedBy lib none (some one) ids = (id : Uuid) × (read_uuid lib one ≡ some id) × (ids ≡ id ∷ [])
NamedBy lib none none ids = ids ≡ []

-- The recipients that an event names.
abbrev pub Names : Externals → Incoming → List Uuid → Type 0
Names lib event ids =
    (content : Json) × (fields : Fields) × (event.content ≡ some content)
    × (read_object content ≡ some fields)
    × NamedBy lib (get_field "performer_ids" fields) (get_field "performer_id" fields) ids

-- A value that was parsed.
parsed-Ensures :
    {A : Type 0} (o : Option A) (v : Notifier)
    → Ensures (λ a d _. (o ≡ some a) × (d ≡ v.db)) (parsed o v)
unfolding parsed
parsed-Ensures none v = failed _ v
parsed-Ensures (some a) v = done a v (refl, refl)

with_content-Ensures :
    (o : Option Json) (v : Notifier)
    → Ensures
        (λ fields d _.
          ((content : Json) × (o ≡ some content) × (read_object content ≡ some fields))
          × (d ≡ v.db))
        (with_content o v)
unfolding with_content
with_content-Ensures none v = failed _ v
with_content-Ensures (some content) v =
    Ensures-mono _ _ (parsed-Ensures (read_object content) v)
      λ fields d _ (e, same). ((content, refl, e), same)

single :
    (o : Option Uuid) (ids : List Uuid)
    → Option.map (λ u. u ∷ []) o ≡ some ids
    → (id : Uuid) × (o ≡ some id) × (ids ≡ id ∷ [])
single none ids h = absurd (ground (arith, h))
single (some id) ids h = (id, refl, ground (arith, h))

recipients_from-Ensures :
    (lib : Externals) (many one : Option Json) (v : Notifier)
    → Ensures (λ ids d _. NamedBy lib many one ids × (d ≡ v.db)) (recipients_from lib many one v)
unfolding recipients_from
recipients_from-Ensures lib (some raw) one v = parsed-Ensures (read_uuids lib raw) v
recipients_from-Ensures lib none (some raw) v =
    Ensures-mono _ _ (parsed-Ensures (Option.map (λ u. u ∷ []) (read_uuid lib raw)) v)
      λ ids d _ (e, same). (single (read_uuid lib raw) ids e, same)
recipients_from-Ensures lib none none v = done [] v (refl, refl)

-- The event is known and nothing changes, or it is recorded, and its notifications are added.
abbrev pub IsNotified : Externals → Incoming → Db → Db → Type 0
IsNotified lib event d d' =
    ((is_known event.event_id d ≡ true) × (d' ≡ d))
    ⊎ ((is_known event.event_id d ≡ false)
        × (d'.processed ≡ d.processed ++ (event.event_id ∷ []))
        × (ids : List Uuid) × Names lib event ids
        × Adds event.event_id ids (record d { processed = d'.processed }) d')

module _ (lib : Externals) (event : Incoming) where
  create_notifications-Adds :
      (t : ℕ) (v : Notifier)
      → Ensures
          (λ _ d _. (ids : List Uuid) × Names lib event ids × Adds event.event_id ids v.db d)
          (create_notifications lib event t v)
  unfolding create_notifications
  create_notifications-Adds t v =
      Ensures-bind _ _ (with_content event.content) _ v (with_content-Ensures event.content v)
        λ fields u ((content, is_content, is_object), same).
          Ensures-bind _ _ _ _ u
            (recipients_from-Ensures lib (get_field "performer_ids" fields)
              (get_field "performer_id" fields) u)
            λ ids z (named, same').
              Ensures-mono _ _ (notify_all-Adds event.event_id t ids z) λ _ d _ adds. (
                ids,
                (content, fields, is_content, is_object, named),
                subst (λ x. Adds event.event_id ids x d) (same' ∙ same) adds,
              )

  module _ (no_user : starts_with event.event_type "user." ≡ false)
      (of_order : starts_with event.event_type "order." ≡ true) where
    process_once-IsNotified :
        (t : ℕ) (w v : Notifier)
        → v.db ≡ w.db
        → Ensures (λ _ d _. IsNotified lib event w.db d) (process_once lib event t v)
    unfolding process_once handle
    process_once-IsNotified t w v e =
        Ensures-exec _ (insert_processed event.event_id) _ v
          λ n u ins _. go n u (insert_processed-ok event.event_id v.db w.db u.db n ins e)
      where
        Goal : ℕ → Notifier → Type 0
        Goal n u =
            Ensures (λ _ d _. IsNotified lib event w.db d)
              ((if n == 0 then pure tt else handle lib event t) u)

        go :
            (n : ℕ) (u : Notifier)
            → ((n ≡ 0) × (is_known event.event_id w.db ≡ true) × (u.db ≡ w.db))
              ⊎ ((n ≡ 1)
                  × (is_known event.event_id w.db ≡ false)
                  × (u.db ≡ record w.db { processed = w.db.processed ++ (event.event_id ∷ []) }))
            → Goal n u
        go n u (inl (zero_rows, known, same)) =
            subst (λ n. Goal n u) (sym zero_rows) (done tt u (inl (known, same)))
        go n u (inr (one_row, unknown, grown)) =
            subst (λ n. Goal n u) (sym one_row)
              (rw no_user (
                rw of_order (
                  Ensures-mono
                    (λ _ d _.
                      (ids : List Uuid) × Names lib event ids × Adds event.event_id ids u.db d)
                    _ (create_notifications-Adds t u)
                    λ _ d _ (ids, names, (news, ns, of, has, p, r)).
                      let start : u.db.processed ≡ w.db.processed ++ (event.event_id ∷ []) =
                        ap (λ (x : Db). x.processed) grown in
                      inr (
                        unknown,
                        p ∙ start,
                        ids,
                        names,
                        (
                          news,
                          ns ∙ ap (λ (x : Db). x.notifications ++ news) grown,
                          of,
                          has,
                          refl,
                          r ∙ ap (λ (x : Db). x.recipients) grown,
                        ),
                      ))))

    -- Taking in an event about an order either fails and changes nothing, or changes nothing because
    -- the event has been taken in before, or records the event and leaves each recipient whom it names
    -- with a notification of it; then only notifications of this event for such recipients are added,
    -- behind the others, and no recipient has two of one event if none had before.
    pub process-IsNotified :
        (w : Notifier)
        → Atomic
            (λ _ d _.
              IsNotified lib event w.db d
              × (IsUnique w.db.notifications → IsUnique d.notifications))
            w.db
            (process lib (some event) w)
    process-IsNotified w = both _ adds (process-IsTaken lib event w)
      where
        adds : Atomic (λ _ d _. IsNotified lib event w.db d) w.db (process lib (some event) w)
        adds =
            unfold process in
            Atomic-guard _ _ _ _ w (
              Atomic-transact _ (process_once lib event) w
                λ t v e _. process_once-IsNotified t w v e)

        unique :
            (d : Db)
            → IsTaken event.event_id w.db d
            → IsUnique w.db.notifications
            → IsUnique d.notifications
        unique d (inl (_, same)) h = subst (λ (x : Db). IsUnique x.notifications) (sym same) h
        unique d (inr (_, _, keeps)) h = keeps h

        both :
            (r : Result Err Done × Notifier)
            → Atomic (λ _ d _. IsNotified lib event w.db d) w.db r
            → Atomic (λ _ d _. IsTaken event.event_id w.db d) w.db r
            → Atomic
                (λ _ d _.
                  IsNotified lib event w.db d
                  × (IsUnique w.db.notifications → IsUnique d.notifications))
                w.db
                r
        both (ok a, v) n t = (n, unique v.db t)
        both (err e, v) n t = n
