-- ===== src/Notification/Dedup.antt =====
-- What `Process` of internal/notification/service.go makes of an event, new or known.
use agency_bot.Base.{
  ℕ, ◌≡◌, refl, sym, ap, ◌∙◌, subst, ◌==◌, Bool, true, false, Option, none, some, List, [], ◌∷◌,
  ◌++◌, any, arith, if◌then◌else◌, Bool-cases, inl, inr, ◌⊎◌,
}
use agency_bot.Effects.{Err, Result, ok, err, Done, M, ◌>>=◌, pure, exec, new_uuid}
use agency_bot.Effects.Laws.{
  Ensures, done, Atomic, Ensures-exec, Ensures-mono, Atomic-transact, Atomic-guard,
}
use agency_bot.Effects.Relates.{
  Order, Relates, Relates-pure, Relates-throw, Relates-new_uuid, Relates-exec, Relates-bind,
  Relates-for_each,
}
use agency_bot.Externals.{Uuid, Externals}
use agency_bot.Json.{Json, get_field}
use agency_bot.Notification.{
  Incoming, Db, Notification, Recipient, Notifier, process, process_once, handle, notify,
  create_notifications, sync_recipient, sync_field, recipients_from, with_content, parsed,
  insert_processed, insert_notification, insert_recipient, new_notification, is_for,
  update_recipients, set_telegram, set_active, user_of, read_object,
}

-- No two notifications are of one event for one recipient.
abbrev pub IsUnique : List Notification → Type 0
IsUnique [] = Unit
IsUnique (n ∷ ns) = (any (is_for n.event_id n.recipient_id) ns ≡ false) × IsUnique ns

any-append :
    (e r : Uuid) (ns : List Notification) (n : Notification)
    → any (is_for e r) ns ≡ false
    → is_for e r n ≡ false
    → any (is_for e r) (ns ++ (n ∷ [])) ≡ false
any-append e r [] n h k = ground arith
any-append e r (m ∷ ns) n h k = ground (arith, any-append e r ns n)

IsUnique-append :
    (ns : List Notification) (n : Notification)
    → IsUnique ns
    → any (is_for n.event_id n.recipient_id) ns ≡ false
    → IsUnique (ns ++ (n ∷ []))
IsUnique-append [] n u h = (refl, tt)
IsUnique-append (m ∷ ns) n u h = (
  any-append m.event_id m.recipient_id ns n u.0 (ground arith),
  IsUnique-append ns n u.1 (ground arith),
)

-- What the statements after the first keep.
abbrev Keeps : Db → Db → Type 0
Keeps d d' = (d'.processed ≡ d.processed) × (IsUnique d.notifications → IsUnique d'.notifications)

Keeps-refl : (d : Db) → Keeps d d
Keeps-refl d = (refl, λ u. u)

Keeps-trans : (a b c : Db) → Keeps a b → Keeps b c → Keeps a c
Keeps-trans a b c h k = (k.0 ∙ h.0, λ u. k.1 (h.1 u))

insert_notification-Keeps :
    (n : Notification) (d d' : Db) (k : ℕ) → insert_notification n d ≡ ok (k, d') → Keeps d d'
unfolding insert_notification
insert_notification-Keeps n d d' k e = (
  ground arith,
  λ u. elim (Bool-cases (any (is_for n.event_id n.recipient_id) d.notifications)) [
    | inl there ↦ subst IsUnique (ground arith) u
    | inr absent ↦ subst IsUnique (ground arith) (IsUnique-append d.notifications n u absent)
  ],
)

insert_recipient-Keeps :
    (id : Uuid) (t : ℕ) (d d' : Db) (k : ℕ) → insert_recipient id t d ≡ ok (k, d') → Keeps d d'
unfolding insert_recipient
insert_recipient-Keeps id t d d' k e = (ground arith, subst IsUnique (ground arith))

update_recipients-Keeps :
    (f : Recipient → Recipient) (id : Uuid) (d d' : Db) (k : ℕ)
    → update_recipients f id d ≡ ok (k, d')
    → Keeps d d'
update_recipients-Keeps f id d d' k e = (ground arith, subst IsUnique (ground arith))

abbrev keeps : Order Db
keeps = record { rel = Keeps; rfl = Keeps-refl; trs = Keeps-trans }

-- The calls of the handlers keep the processed events and the uniqueness.
abbrev Tame : {A : Type 0} → M Notifier Err A → Type 0
Tame m = Relates keeps m

parsed-Tame : {A : Type 0} (o : Option A) → Tame (parsed o)
unfolding parsed
parsed-Tame none = Relates-throw keeps _
parsed-Tame (some a) = Relates-pure keeps a

exec-Tame :
    (f : Db → Result Err (ℕ × Db))
    → ((d d' : Db) (k : ℕ) → f d ≡ ok (k, d') → Keeps d d')
    → Tame (exec f >>= λ _. pure tt)
exec-Tame f h = Relates-bind keeps (exec f) _ (Relates-exec keeps f h) λ _. Relates-pure keeps tt

with_content-Tame : (o : Option Json) → Tame (with_content o)
unfolding with_content
with_content-Tame none = Relates-throw keeps _
with_content-Tame (some content) = parsed-Tame (read_object content)

sync_field-Tame :
    {A : Type 0} (read : Json → Option A) (write : A → Uuid → ℕ → Db → Result Err (ℕ × Db))
    (id : Uuid) (t : ℕ) (o : Option Json)
    → ((a : A) (d d' : Db) (k : ℕ) → write a id t d ≡ ok (k, d') → Keeps d d')
    → Tame (sync_field read write id t o)
unfolding sync_field
sync_field-Tame read write id t none h = Relates-pure keeps tt
sync_field-Tame read write id t (some raw) h =
    Relates-bind keeps (parsed (read raw)) _ (parsed-Tame (read raw))
      λ a. exec-Tame (write a id t) (h a)

if-Tame :
    {A : Type 0} (b : Bool) (m n : M Notifier Err A) → Tame m → Tame n → Tame (if b then m else n)
if-Tame true m n h k = h
if-Tame false m n h k = k

recipients_from-Tame : (lib : Externals) (o p : Option Json) → Tame (recipients_from lib o p)
unfolding recipients_from
recipients_from-Tame lib (some raw) p = parsed-Tame _
recipients_from-Tame lib none (some raw) = parsed-Tame _
recipients_from-Tame lib none none = Relates-pure keeps []

module _ (lib : Externals) (event : Incoming) (t : ℕ) where
  sync_recipient-Tame : Tame (sync_recipient lib event.content t)
  unfolding sync_recipient set_telegram set_active
  sync_recipient-Tame = Relates-bind keeps _ _ (with_content-Tame event.content) λ values.
      Relates-bind keeps _ _ (parsed-Tame (user_of lib values)) λ id.
        Relates-bind keeps _ _
          (Relates-exec keeps (insert_recipient id t) (insert_recipient-Keeps id t))
          λ _.
            Relates-bind keeps _ _
              (sync_field-Tame _ _ id t (get_field "telegram_id" values)
                λ a. update_recipients-Keeps _ id)
              λ _.
                sync_field-Tame _ _ id t (get_field "is_active" values)
                  λ a. update_recipients-Keeps _ id

  notify-Tame : (recipient : Uuid) → Tame (notify event.event_id t recipient)
  unfolding notify
  notify-Tame recipient =
      Relates-bind keeps new_uuid _ (Relates-new_uuid keeps) λ id.
        exec-Tame _ (insert_notification-Keeps (new_notification id event.event_id recipient t))

  create_notifications-Tame : Tame (create_notifications lib event t)
  unfolding create_notifications
  create_notifications-Tame = Relates-bind keeps _ _ (with_content-Tame event.content) λ values.
      Relates-bind keeps _ _ (recipients_from-Tame lib _ _)
        λ recipients. Relates-for_each keeps recipients _ notify-Tame

  handle-Tame : Tame (handle lib event t)
  unfolding handle
  handle-Tame =
      if-Tame _ _ _ sync_recipient-Tame
        (if-Tame _ _ _ create_notifications-Tame (Relates-pure keeps tt))

abbrev pub is_known : Uuid → Db → Bool
is_known id d = any (λ e. e == id) d.processed

-- What `Process` makes of the database `d`: nothing if the event is known, and otherwise the event
-- is recorded and no notification has become a double.
abbrev pub IsTaken : Uuid → Db → Db → Type 0
IsTaken id d d' =
    ((is_known id d ≡ true) × (d' ≡ d))
    ⊎ ((is_known id d ≡ false)
        × (d'.processed ≡ d.processed ++ (id ∷ []))
        × (IsUnique d.notifications → IsUnique d'.notifications))

any_last : (id : Uuid) (es : List Uuid) → any (λ e. e == id) (es ++ (id ∷ [])) ≡ true
any_last id [] = ground arith
any_last id (e ∷ es) = ground (arith, any_last id es)

pub insert_processed-ok :
    (id : Uuid) (d d₀ d' : Db) (n : ℕ)
    → insert_processed id d ≡ ok (n, d')
    → d ≡ d₀
    → ((n ≡ 0) × (is_known id d₀ ≡ true) × (d' ≡ d₀))
      ⊎ ((n ≡ 1)
          × (is_known id d₀ ≡ false)
          × (d' ≡ record d₀ { processed = d₀.processed ++ (id ∷ []) }))
unfolding insert_processed
insert_processed-ok id d d₀ d' n e same = ground arith

module _ (lib : Externals) (event : Incoming) where
  process_once-IsTaken :
      (t : ℕ) (w v : Notifier)
      → v.db ≡ w.db
      → Ensures (λ _ d _. IsTaken event.event_id w.db d) (process_once lib event t v)
  unfolding process_once
  process_once-IsTaken t w v e =
      Ensures-exec _ (insert_processed event.event_id) _ v
        λ n u ins _. go n u (insert_processed-ok event.event_id v.db w.db u.db n ins e)
    where
      Goal : ℕ → Notifier → Type 0
      Goal n u =
          Ensures (λ _ d _. IsTaken event.event_id w.db d)
            ((if n == 0 then pure tt else handle lib event t) u)

      go :
          (n : ℕ) (u : Notifier)
          → ((n ≡ 0) × (is_known event.event_id w.db ≡ true) × (u.db ≡ w.db))
            ⊎ ((n ≡ 1)
                × (is_known event.event_id w.db ≡ false)
                × (u.db ≡ record w.db { processed = w.db.processed ++ (event.event_id ∷ []) }))
          → Goal n u
      go n u (inl (zero_rows, known, same)) =
          subst (λ n. Goal n u) (sym zero_rows) (done tt u (inl (known, same)))
      go n u (inr (one_row, unknown, grown)) =
          subst (λ n. Goal n u) (sym one_row)
            (Ensures-mono (λ _ d _. Keeps u.db d) _ (handle-Tame lib event t u)
              λ _ d _ (same, unique). inr (
                unknown,
                same ∙ ap (λ (x : Db). x.processed) grown,
                λ h. unique (subst (λ (x : Db). IsUnique x.notifications) (sym grown) h),
              ))

  -- Taking in an event either fails and changes nothing, or changes nothing because the event has
  -- been taken in before, or records the event; and then no recipient has two notifications of one
  -- event if none had before.
  pub process-IsTaken :
      (w : Notifier)
      → Atomic (λ _ d _. IsTaken event.event_id w.db d) w.db (process lib (some event) w)
  unfolding process
  process-IsTaken w =
      Atomic-guard _ _ _ _ w
        (Atomic-transact _ (process_once lib event) w λ t v e _. process_once-IsTaken t w v e)

  pub known_after :
      (d : Db) (r : Result Err Done × Notifier)
      → Atomic (λ _ d' _. IsTaken event.event_id d d') d r
      → r.0 ≡ ok tt
      → is_known event.event_id r.1.db ≡ true
  known_after d (ok a, v) (inl (known, same)) h = rw same known
  known_after d (ok a, v) (inr (unknown, grown, unique)) h =
      rw grown (any_last event.event_id d.processed)
  known_after d (err e, v) t h = cc

  unchanged :
      (d : Db) (r : Result Err Done × Notifier)
      → Atomic (λ _ d' _. IsTaken event.event_id d d') d r
      → is_known event.event_id d ≡ true
      → r.1.db ≡ d
  unchanged d (ok a, v) (inl (known, same)) h = same
  unchanged d (ok a, v) (inr (unknown, _, _)) h = cc
  unchanged d (err e, v) same h = same

  -- An event that has been taken in is not taken in again: from a database that a success has left,
  -- a second delivery of the event changes nothing, also where it fails.
  pub process_twice :
      (w v : Notifier)
      → (process lib (some event) w).0 ≡ ok tt
      → v.db ≡ (process lib (some event) w).1.db
      → (process lib (some event) v).1.db ≡ v.db
  process_twice w v taken next =
      unchanged v.db _ (process-IsTaken v) (rw next (known_after w.db _ (process-IsTaken w) taken))
