-- ===== src/Notification/Added.antt =====
-- The notifications that the loop of `createNotifications` in internal/notification/service.go adds.
use agency_bot.Base.{
  ℕ, ◌≡◌, refl, sym, ap, ◌∙◌, subst, ◌==◌, ==_refl, true, List, [], ◌∷◌, ◌++◌, any, any-append, All,
  All-map, All-append, append-nil, append_assoc, arith, Bool-cases, inl, inr,
}
use agency_bot.Effects.{ok, for_each}
use agency_bot.Effects.Laws.{
  Ensures, done, Ensures-bind, Ensures-exec, Ensures-new_uuid, Ensures-mono,
}
use agency_bot.Externals.{Uuid}
use agency_bot.Notification.{
  Db, Notification, Notifier, notify, insert_notification, new_notification, is_for,
}

-- The notifications of the event `e` for the recipients are there, and what has been added to the
-- tables is of that kind.
abbrev pub Adds : Uuid → List Uuid → Db → Db → Type 0
Adds e ids d d' =
    (news : List Notification) × (d'.notifications ≡ d.notifications ++ news)
    × All (λ n. (n.event_id ≡ e) × (any (λ i. i == n.recipient_id) ids ≡ true)) news
    × All (λ i. any (is_for e i) d'.notifications ≡ true) ids
    × (d'.processed ≡ d.processed)
    × (d'.recipients ≡ d.recipients)

Adds-nobody : (e : Uuid) (d : Db) → Adds e [] d d
Adds-nobody e d = ([], sym (append-nil d.notifications), tt, tt, refl, refl)

any_last :
    (e i : Uuid) (n : Notification) (ns : List Notification)
    → is_for e i n ≡ true
    → any (is_for e i) (ns ++ (n ∷ [])) ≡ true
any_last e i n ns h = any-append (is_for e i) ns (n ∷ []) ∙ ground (arith, h)

insert-Adds :
    (id e i : Uuid) (t : ℕ) (d d' : Db) (k : ℕ)
    → insert_notification (new_notification id e i t) d ≡ ok (k, d')
    → Adds e (i ∷ []) d d'
unfolding insert_notification
insert-Adds id e i t d d' k h = elim (Bool-cases (any (is_for e i) d.notifications)) [
  | inl there ↦ (
    [],
    ground (arith, append-nil d.notifications),
    tt,
    (ground arith, tt),
    ground arith,
    ground arith,
  )
  | inr absent ↦
      let grown : d'.notifications ≡ d.notifications ++ (new_notification id e i t ∷ []) =
        ground arith in
      (
        new_notification id e i t ∷ [],
        grown,
        ((refl, ground (arith, ==_refl i)), tt),
        (
          ap (any (is_for e i)) grown
              ∙ any_last e i (new_notification id e i t) d.notifications
                  (ground (arith, ==_refl e, ==_refl i)),
          tt,
        ),
        ground arith,
        ground arith,
      )
]

Adds-trans :
    (e i : Uuid) (ids : List Uuid) (a b c : Db)
    → Adds e (i ∷ []) a b
    → Adds e ids b c
    → Adds e (i ∷ ids) a c
Adds-trans e i ids a b c (xs, grown, of, (has, _), p, r) (ys, grown', of', have, p', r') = (
  xs ++ ys,
  grown' ∙ (ap (λ l. l ++ ys) grown ∙ append_assoc a.notifications xs ys),
  All-append _ xs ys (All-map _ _ xs (λ n (f, m). (f, ground (arith, m))) of)
      (All-map _ _ ys (λ n (f, m). (f, ground (arith, m))) of'),
  (
    ap (any (is_for e i)) grown'
        ∙ (any-append (is_for e i) b.notifications ys ∙ ground (arith, has)),
    have,
  ),
  p' ∙ p,
  r' ∙ r,
)

module _ (e : Uuid) (t : ℕ) where
  notify-Adds :
      (i : Uuid) (v : Notifier) → Ensures (λ _ d _. Adds e (i ∷ []) v.db d) (notify e t i v)
  unfolding notify
  notify-Adds i v = Ensures-new_uuid _ _ v λ id u same _.
      Ensures-exec _ (insert_notification (new_notification id e i t)) _ u λ k z ins _.
        done tt z (subst (λ d. Adds e (i ∷ []) d z.db) same (insert-Adds id e i t u.db z.db k ins))

  pub notify_all-Adds :
      (ids : List Uuid) (v : Notifier)
      → Ensures (λ _ d _. Adds e ids v.db d) (for_each ids (notify e t) v)
  unfolding for_each
  notify_all-Adds [] v = done tt v (Adds-nobody e v.db)
  notify_all-Adds (i ∷ ids) v =
      Ensures-bind (λ _ d _. Adds e (i ∷ []) v.db d) _ (notify e t i) _ v (notify-Adds i v)
        λ _ u first.
          Ensures-mono _ _ (notify_all-Adds ids u)
            λ _ d _ rest. Adds-trans e i ids v.db u.db d first rest
