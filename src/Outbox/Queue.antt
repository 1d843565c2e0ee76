-- ===== src/Outbox/Queue.antt =====
-- The pending rows of the table in the order in which the worker takes them, and what the marks of a
-- batch do to them.
use agency_bot.Base.{
  ℕ, ◌≡◌, refl, sym, ap, ◌∙◌, Bool, true, false, not, ◌&&◌, List, [], ◌∷◌, arith, keep, take, drop,
  length, take_all,
}
use agency_bot.Sql.{update_where, order_by}
use agency_bot.Sql.Keys.{
  distinct, outside, distinct-update_where, distinct-order_by, distinct-keep, keep-take,
}
use agency_bot.Sql.Sorting.{order_by-keep, keep-keep, length-order_by}
use agency_bot.Externals.{Uuid}
use agency_bot.Event.{OutboxRow}
use agency_bot.Outbox.{is_pending, published, has_id, select_batch}
use agency_bot.Outbox.Delivery.{mark_all}

-- No two rows have the same identifier, as a primary key demands.
abbrev pub distinct_ids : List OutboxRow → Bool
distinct_ids = distinct (λ r. r.id)

-- The pending rows, those created first in front.
abbrev pub queue : List OutboxRow → List OutboxRow
queue d = order_by (λ r. r.created_at) (keep is_pending d)

-- No other worker holds a row.
abbrev pub unlocked : Uuid → Bool
unlocked id = false

keep-update_where :
    (t : ℕ) (b : OutboxRow) (rows d : List OutboxRow)
    → keep
        (λ r. is_pending r && outside (λ r. r.id) rows r)
        (update_where (has_id b.id) (published t) d)
      ≡ keep (λ r. is_pending r && outside (λ r. r.id) (b ∷ rows) r) d
keep-update_where t b rows [] = refl
keep-update_where t b rows (x ∷ d) = ground (arith, keep-update_where t b rows d)

keep-ext :
    (p q : OutboxRow → Bool) (d : List OutboxRow)
    → ((r : OutboxRow) → p r ≡ q r)
    → keep p d ≡ keep q d
keep-ext p q [] h = refl
keep-ext p q (x ∷ d) h = ground (arith, h x, keep-ext p q d h)

-- The marks take the rows of the batch off the pending ones, and touch no other pending row.
keep-mark_all :
    (t : ℕ) (batch d : List OutboxRow)
    → keep is_pending (mark_all t batch d)
      ≡ keep (λ r. is_pending r && outside (λ r. r.id) batch r) d
keep-mark_all t [] d = keep-ext is_pending _ d (λ r. ground arith)
keep-mark_all t (b ∷ batch) d =
    let rest = update_where (has_id b.id) (published t) d in
    keep-mark_all t batch rest ∙ keep-update_where t b batch d

queue-mark_all :
    (t : ℕ) (batch d : List OutboxRow)
    → queue (mark_all t batch d) ≡ keep (outside (λ r. r.id) batch) (queue d)
queue-mark_all t batch d =
    ap (order_by (λ r. r.created_at))
      (keep-mark_all t batch d ∙ sym (keep-keep is_pending (outside (λ r. r.id) batch) d))
    ∙ order_by-keep (λ r. r.created_at) (outside (λ r. r.id) batch) (keep is_pending d)

pub select_batch-unlocked : (d : List OutboxRow) → select_batch unlocked d ≡ take 50 (queue d)
unfolding select_batch
select_batch-unlocked d =
    ap (λ rows. take 50 (order_by (λ r. r.created_at) rows))
      (keep-ext (λ r. is_pending r && not (unlocked r.id)) is_pending d (λ r. ground arith))

pub mark_all-distinct :
    (t : ℕ) (batch d : List OutboxRow) → distinct_ids (mark_all t batch d) ≡ distinct_ids d
mark_all-distinct t [] d = refl
mark_all-distinct t (b ∷ batch) d =
    mark_all-distinct t batch (update_where (has_id b.id) (published t) d)
    ∙ distinct-update_where (λ r. r.id) (has_id b.id) (published t) d (λ r. refl)

-- A batch of an unlocked table is the head of the queue, and its marks leave the rest of it.
pub queue-select_batch :
    (t : ℕ) (d : List OutboxRow)
    → distinct_ids d ≡ true
    → queue (mark_all t (select_batch unlocked d) d) ≡ drop 50 (queue d)
queue-select_batch t d h =
    queue-mark_all t (select_batch unlocked d) d
    ∙ (ap (λ b. keep (outside (λ r. r.id) b) (queue d)) (select_batch-unlocked d)
        ∙ keep-take (λ r. r.id) 50 (queue d)
            (distinct-order_by (λ r. r.id) (λ r. r.created_at) (keep is_pending d)
              (distinct-keep (λ r. r.id) is_pending d h)))

pub length-queue : (d : List OutboxRow) → length (queue d) ≡ length (keep is_pending d)
length-queue d = length-order_by (λ r. r.created_at) (keep is_pending d)

pub queue-empty : (d : List OutboxRow) → queue d ≡ [] → keep is_pending d ≡ []
queue-empty d h = sym (take_all 0 (keep is_pending d) (omega (arith, ap length h, length-queue d)))
