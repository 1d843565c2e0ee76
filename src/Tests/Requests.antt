-- ===== src/Tests/Requests.antt =====
-- Witnesses about requests on one order: the versions that they carry, and their actors.
use agency_bot.Base.{◌≡◌, refl, true, pos, false, ◌+◌, ◌∷◌, arith, some, none, []}
use agency_bot.Effects.{ok, err, transact, commit, exec, query, call, now, new_uuid, guard, ◌>>=◌}
use agency_bot.Sql.{order_by}
use agency_bot.Order.Domain.{completed}
use agency_bot.Order.Tables.{update_order as update_statement, insert_history, insert_outbox}
use agency_bot.Order.Repository.{
  get, update, assign as assign_performer, tx, write_history, write_event, repository, or_not_found,
  performers_of,
}
use agency_bot.Order.Repository.Versions.{Refuses, edits, moves, run}
use agency_bot.Order.Lifecycle.{Session, Reach, start, extend, assigns}
use agency_bot.Order.Lifecycle.OneWrite.{one_write}
use agency_bot.Auth.{Context}
use agency_bot.Grpc.{refusal, permission_denied}
use agency_bot.Order.Transport.{
  OrderFields, CreateOrderRequest, ChangeOrderStatusRequest, PerformerRequest, has,
  UpdateOrderRequest, ListOrdersRequest, status_completed, actor,
}
use agency_bot.Order.Transport.Handlers.{
  Server, create_order, get_order, change_order_status, assign, update_order, list_orders,
  get_order_history,
}
use agency_bot.Order.Transport.Access.{Guarded, handlers-Guarded, get_order_lem}
use agency_bot.Outbox.{Worker, process as publish_pending}
use agency_bot.Outbox.Delivery.{Finished}
use agency_bot.Outbox.Progress.{process-Finished}
use agency_bot.Effects.Calm.{calm_world}
use agency_bot.Order.Repository.Success.{run-ok}
use agency_bot.Tests.Sample.{externals, order, session, letters, db, row}

-- Two requests have read version 1; the first edits the order and the second would complete it.
first_write : (update externals order [] session).0 ≡ ok tt
unfolding update tx transact commit exec call now new_uuid guard write_history write_event ◌>>=◌
    update_statement insert_history insert_outbox
first_write = refl

-- Another request assigns a performer in between.
between :
    Reach externals
      (record { db = (update externals order [] session).1.db; held = [] })
      (record {
        db = (assign_performer externals order 5 true (update externals order [] session).1).1.db;
        held = [];
      })
between = extend start (assigns order 5 true (update externals order [] session).1 refl)

one_write_example :
    Refuses (assign_performer externals order 5 true (update externals order [] session).1).1.db (
      run externals
        (moves completed)
        order
        (assign_performer externals order 5 true (update externals order [] session).1).1)
one_write_example =
    one_write externals (edits []) (moves completed) order order [] session
      (assign_performer externals order 5 true (update externals order [] session).1).1 _ refl
      first_write between refl refl refl

abbrev pub server : Server Session
server = record {
  app = record {
    store = repository externals;
    is_active_performer = λ p t. (true, t);
    rat = λ s. none;
  };
  new_uuid = λ t. (900, t);
  now = λ t. (60, t);
}

-- A performer without permissions.
abbrev stranger : Context
stranger = some (record { user_id = letters 5; role = "PERFORMER"; permissions = [] })

abbrev fields : OrderFields
fields = record {
  order_date = 50;
  location = "Riga";
  amount = "10.00";
  customer_name = "Anna";
  customer_phone = "";
  customer_contact = "";
  comment = "";
}

abbrev creation : CreateOrderRequest
creation = record { fields = fields; performer_ids = [] }

abbrev completion : ChangeOrderStatusRequest
completion = record { id = letters 7; status = status_completed; expected_version = pos 1 }

abbrev assignment : PerformerRequest
assignment = record { order_id = letters 7; performer_id = letters 5 }

abbrev edit : UpdateOrderRequest
edit = record { id = letters 7; expected_version = pos 1; fields = fields }

abbrev listing : ListOrdersRequest
listing = record { page_size = pos 10; page_token = "" }

handlers-Guarded_example :
    Guarded stranger "ORDER_CREATE" (create_order externals server stranger creation)
    × Guarded stranger "ORDER_CHANGE_STATUS"
        (change_order_status externals server stranger completion)
    × Guarded stranger "ORDER_UPDATE" (assign externals server stranger assignment true)
    × Guarded stranger "ORDER_UPDATE" (update_order externals server stranger edit)
    × Guarded stranger "ORDER_READ_ALL" (list_orders externals server stranger listing)
    × Guarded stranger "ORDER_HISTORY_READ"
        (get_order_history externals server stranger (letters 7))
handlers-Guarded_example =
    handlers-Guarded externals server stranger creation completion assignment true edit listing
      (letters 7)

found : get 7 session ≡ (ok order, (get 7 session).1)
unfolding get query call ◌>>=◌ or_not_found performers_of order_by
found = refl

is_actor : actor externals stranger session ≡ (ok 5, session)
unfolding actor
is_actor = refl

get_order_lem_example :
    get_order externals server stranger (letters 7) session
    ≡ (err (refusal permission_denied "forbidden"), (get 7 session).1)
unfolding has
get_order_lem_example =
    get_order_lem externals server stranger (letters 7) 5 7 order session (get 7 session).1 is_actor
      refl found

run-ok_example : (run externals (moves completed) order session).0 ≡ ok tt
run-ok_example =
    run-ok tt (λ n. 100 + n) (λ n. 1000 + n) externals (moves completed) order db 0 (ground arith)
      refl refl (λ n. (refl, refl))

abbrev calm_worker : Worker
calm_worker = calm_world (λ n. 100 + n) (λ n. 1000 + n) (row 31 9 ∷ row 32 5 ∷ []) [] 0

process-Finished_example :
    ((publish_pending "orders.events" (λ _. false) (calm_worker)).0 ≡ ok tt)
    × Finished "orders.events"
        (λ _. false)
        calm_worker
        (publish_pending "orders.events" (λ _. false) calm_worker).1.db
        (publish_pending "orders.events" (λ _. false) calm_worker).1.ext
process-Finished_example =
    process-Finished (λ n. 100 + n) (λ n. 1000 + n) "orders.events" (λ _. false)
      (row 31 9 ∷ row 32 5 ∷ []) [] 0
