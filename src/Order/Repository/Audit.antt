-- ===== src/Order/Repository/Audit.antt =====
-- Every write of the repository is one transaction: it changes nothing, or it changes the rows that
-- it is meant to and adds one history entry and one pending event.
use agency_bot.Base.{ℕ, ◌≡◌, refl, sym, ap, subst, ◌∙◌, String, List, [], ◌∷◌, ◌++◌, arith}
use agency_bot.Effects.{Err, ok, M, World}
use agency_bot.Effects.Laws.{
  Ensures, done, Atomic, Ensures-bind, Ensures-exec, Ensures-exec_end, Ensures-now,
  Ensures-new_uuid, Ensures-mono, Atomic-transact,
}
use agency_bot.Externals.{Uuid}
use agency_bot.Json.{Json}
use agency_bot.Event.{OutboxRow, IsEvent}
use agency_bot.Order.Domain.{Time, Changes, History}
use agency_bot.Order.Tables.{OrderRow, PerformerRow, Db, insert_history, insert_outbox}
use agency_bot.Order.Repository.{history_row, outbox_row, write_history, write_event, tx}

insert_history-ok :
    (h : History) (d d₀ d' : Db) (n : ℕ)
    → insert_history h d ≡ ok (n, d')
    → d ≡ d₀
    → d' ≡ record d₀ { history = d₀.history ++ (h ∷ []) }
unfolding insert_history
insert_history-ok h d d₀ d' n e same = ground arith

insert_outbox-ok :
    (r : OutboxRow) (d d₀ d' : Db) (n : ℕ)
    → insert_outbox r d ≡ ok (n, d')
    → d ≡ d₀
    → d' ≡ record d₀ { outbox = d₀.outbox ++ (r ∷ []) }
unfolding insert_outbox
insert_outbox-ok r d d₀ d' n e same = ground arith

-- A history entry with the given author, order, action and changes.
abbrev pub IsEntry : Uuid → Uuid → String → Changes → History → Type 0
IsEntry id actor action changes h =
    (h.order_id ≡ id) × (h.actor_id ≡ actor) × (h.action ≡ action) × (h.changes ≡ changes)

-- The orders and performers of `d'` are as `Tables` says, and the other two tables of `d` have grown
-- by one such entry and one such event.
abbrev pub Writes :
    (List OrderRow → List PerformerRow → Type 0)
    → (History → Type 0)
    → (OutboxRow → Type 0)
    → Db
    → Db
    → Type 0
Writes Tables Entry Event d d' =
    (h : History) × (e : OutboxRow) × Tables d'.orders d'.performers
    × Entry h
    × Event e
    × (d'.history ≡ d.history ++ (h ∷ []))
    × (d'.outbox ≡ d.outbox ++ (e ∷ []))

-- The same before the event is written.
abbrev pub Enters :
    (List OrderRow → List PerformerRow → Type 0) → (History → Type 0) → Db → Db → Type 0
Enters Tables Entry d d' =
    (h : History) × Tables d'.orders d'.performers
    × Entry h
    × (d'.history ≡ d.history ++ (h ∷ []))
    × (d'.outbox ≡ d.outbox)

module _ {X : Type 0} (t : Time) (id : Uuid) where
  pub write_history-Ensures :
      (actor : Uuid) (action : String) (changes : Changes) (w : World Db X)
      → Ensures
          (λ _ d x.
            (h : History) × IsEntry id actor action changes h
            × (d ≡ record w.db { history = w.db.history ++ (h ∷ []) })
            × (x ≡ w.ext))
          (write_history t id actor action changes w)
  unfolding write_history
  write_history-Ensures actor action changes w = Ensures-new_uuid _ _ w λ u v e x.
      Ensures-exec_end _ _ v λ n z ins y.
        let h = history_row u t id actor action changes in
        (h, (refl, refl, refl, refl), insert_history-ok h v.db w.db z.db n ins e, y ∙ x)

  pub write_event-Ensures :
      (typ : String) (content : Json) (w : World Db X)
      → Ensures
          (λ _ d x.
            (r : OutboxRow) × IsEvent id typ content r
            × (d ≡ record w.db { outbox = w.db.outbox ++ (r ∷ []) })
            × (x ≡ w.ext))
          (write_event t id typ content w)
  unfolding write_event
  write_event-Ensures typ content w = Ensures-new_uuid _ _ w λ u v e x.
      Ensures-now _ _ v λ at v' e' x'. Ensures-new_uuid _ _ v' λ u' v'' e'' x''.
        Ensures-exec _ _ _ v'' λ n z ins y.
          let r = outbox_row u' u at t id typ content in
          done tt z (
            r,
            (refl, refl, refl, refl),
            insert_outbox-ok r v''.db w.db z.db n ins (e'' ∙ (e' ∙ e)),
            y ∙ (x'' ∙ (x' ∙ x)),
          )

module _ {X : Type 0} (Tables : List OrderRow → List PerformerRow → Type 0) (d₀ : Db) where
  -- The end of each body.
  pub write_history-Enters :
      (t : Time) (id actor : Uuid) (action : String) (changes : Changes) (u : World Db X)
      → Tables u.db.orders u.db.performers
      → u.db.history ≡ d₀.history
      → u.db.outbox ≡ d₀.outbox
      → Ensures
          (λ _ d _. Enters Tables (IsEntry id actor action changes) d₀ d)
          (write_history t id actor action changes u)
  write_history-Enters t id actor action changes u ok_tables same_history same_outbox =
      Ensures-mono _ _ (write_history-Ensures t id actor action changes u)
        λ _ d x (h, is_entry, grown, _). (
          h,
          subst (λ (d : Db). Tables d.orders d.performers) (sym grown) ok_tables,
          is_entry,
          ap (λ (d : Db). d.history) grown ∙ ap (λ r. r ++ (h ∷ [])) same_history,
          ap (λ (d : Db). d.outbox) grown ∙ same_outbox,
        )

-- A transaction of the repository makes the writes of its body and adds its event, or it leaves the
-- database alone.
pub tx-Atomic :
    {X : Type 0} (Tables : List OrderRow → List PerformerRow → Type 0) (Entry : History → Type 0)
    (id : Uuid) (typ : String) (content : Json) (fn : Time → M (World Db X) Err ℕ) (w : World Db X)
    → ((t : Time) (v : World Db X)
        → v.db ≡ w.db
        → Ensures (λ _ d _. Enters Tables Entry w.db d) (fn t v))
    → Atomic
        (λ _ d _. Writes Tables Entry (IsEvent id typ content) w.db d)
        w.db
        (tx id typ content fn w)
unfolding tx
tx-Atomic Tables Entry id typ content fn w body = Atomic-transact _ _ w λ t v e _.
    Ensures-bind (λ _ d _. Enters Tables Entry w.db d) _ (fn t) _ v (body t v e)
      λ n u (h, ok_tables, is_entry, history, outbox).
        Ensures-mono _ _ (write_event-Ensures t id typ content u) λ _ d x (r, is_event, grown, _). (
          h,
          r,
          subst (λ (d : Db). Tables d.orders d.performers) (sym grown) ok_tables,
          is_entry,
          is_event,
          ap (λ (d : Db). d.history) grown ∙ history,
          ap (λ (d : Db). d.outbox) grown ∙ ap (λ l. l ++ (r ∷ [])) outbox,
        )
