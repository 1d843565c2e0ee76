-- ===== src/Tests.antt =====
-- Witnesses: each theorem at a concrete input, on the sample data of the child.
mod Sample
mod Requests
mod Users
mod Notices
mod Drafts
mod Chats
mod Tokens
mod Passwords
mod Accounts
mod Processes
use agency_bot.Base.{ℕ, pos, ◌≡◌, refl, true, false, some, none, [], ◌∷◌, arith, ◌⊎◌, inr, inl}
use agency_bot.Effects.{
  World, ok, err, transact, commit, exec, call, now, new_uuid, guard, for_each, ◌>>=◌,
}
use agency_bot.Effects.Laws.{Atomic, Ends}
use agency_bot.Externals.{Uuid}
use agency_bot.Event.{IsEvent}
use agency_bot.Order.Domain.{Status, completed, planned, can_transition}
use agency_bot.Order.App.{move_status}
use agency_bot.Order.Repository.{
  create, update, status, assign, repository, created_content, updated_content, status_content,
  assigned_content, status_change, performer_change,
}
use agency_bot.Order.Repository.Audit.{IsEntry, Writes}
use agency_bot.Order.Repository.Writes.{
  IsUpdated, IsMoved, IsAssigned, update-Atomic, status-Atomic, assign-Atomic,
}
use agency_bot.Order.Repository.Creation.{IsCreated, create-Atomic}
use agency_bot.Order.Lifecycle.{System, Reach, start, extend, reads, moves, newest}
use agency_bot.Order.Lifecycle.Transitions.{Evolves, lifecycle}
use agency_bot.Outbox.{process as publish_pending}
use agency_bot.Outbox.Delivery.{Finished, Interrupted, process-Ends}
use agency_bot.Notification.{
  process as take_in, process_once, handle, create_notifications, with_content, read_object,
  recipients_from, parsed, read_uuids, read_items, read_uuid, notify, insert_processed,
  insert_notification,
}
use agency_bot.Json.{get_field}
use agency_bot.Notification.Adding.{IsNotified, process-IsNotified}
use agency_bot.Notification.Dedup.{IsUnique, process_twice}
use Sample.{externals, order, stored, db, session, new_order, worker, notifier, event}

create-Atomic_example :
    Atomic
      (λ _ d _.
        Writes
          (IsCreated externals new_order db)
          (IsEntry 8 4 "ORDER_CREATED" [])
          (IsEvent 8 "order.created" (created_content externals new_order))
          db
          d)
      db
      (create externals new_order session)
create-Atomic_example = create-Atomic externals new_order session

update-Atomic_example :
    Atomic
      (λ _ d _.
        Writes
          (IsUpdated externals order db)
          (IsEntry 7 4 "ORDER_UPDATED" [])
          (IsEvent 7 "order.updated" (updated_content externals order []))
          db
          d)
      db
      (update externals order [] session)
update-Atomic_example = update-Atomic externals order session []

status-Atomic_example :
    Atomic
      (λ _ d _.
        Writes
          (IsMoved order completed db)
          (IsEntry 7 4 "STATUS_CHANGED" (status_change planned completed))
          (IsEvent 7 "order.status_changed" (status_content externals order completed))
          db
          d)
      db
      (status externals order completed session)
status-Atomic_example = status-Atomic externals order session completed

assign-Atomic_example :
    Atomic
      (λ _ d _.
        Writes
          (IsAssigned order 5 true db)
          (IsEntry 7 4 "PERFORMER_ASSIGNED" (performer_change (externals.to_string 5)))
          (IsEvent 7 "order.performer_assigned" (assigned_content externals order 5))
          db
          d)
      db
      (assign externals order 5 true session)
assign-Atomic_example = assign-Atomic externals order session 5 true

-- A request reads the order and completes it.
completing :
    Reach externals
      (record { db = db; held = [] })
      (record {
        db = (move_status (repository externals) 4 (pos 1) completed order session).1.db;
        held = order ∷ [];
      })
completing =
    extend (extend start (reads stored [] refl))
      (moves order 4 (pos 1) completed session newest refl)

lifecycle_example :
    Evolves db (move_status (repository externals) 4 (pos 1) completed order session).1.db
lifecycle_example = lifecycle externals db _ completing

process-Ends_example :
    Ends
      (λ _ v. Finished "orders.events" (λ _. false) worker v.db v.ext)
      (λ _ v. (v.db ≡ worker.db) × Interrupted "orders.events" (λ _. false) worker v.ext)
      (publish_pending "orders.events" (λ _. false) worker)
process-Ends_example = process-Ends "orders.events" (λ _. false) worker

process-IsNotified_example :
    Atomic
      (λ _ d _.
        IsNotified externals event notifier.db d
        × (IsUnique notifier.db.notifications → IsUnique d.notifications))
      notifier.db
      (take_in externals (some event) notifier)
process-IsNotified_example = process-IsNotified externals event refl refl notifier

taken : (take_in externals (some event) notifier).0 ≡ ok tt
unfolding take_in process_once handle create_notifications with_content read_object recipients_from
    parsed read_uuids read_items read_uuid notify insert_processed insert_notification get_field
    transact commit exec call now new_uuid guard for_each ◌>>=◌
taken = refl

process_twice_example :
    (take_in externals (some event) (take_in externals (some event) notifier).1).1.db
    ≡ (take_in externals (some event) notifier).1.db
process_twice_example = process_twice externals event notifier _ taken refl
