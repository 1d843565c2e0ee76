-- ===== src/User/Repository/Announcements.antt =====
-- Every write of the repository is one transaction: it changes nothing, or it changes the rows that
-- it is meant to and adds one pending event.
use agency_bot.Base.{ℕ, ◌≡◌, refl, sym, ap, subst, ◌∙◌, String, List, [], ◌∷◌, ◌++◌, arith}
use agency_bot.Effects.{Err, ok, Done, M, World}
use agency_bot.Effects.Laws.{
  Ensures, done, Atomic, Ensures-bind, Ensures-exec, Ensures-now, Ensures-new_uuid, Ensures-mono,
  Atomic-transact,
}
use agency_bot.Externals.{Uuid}
use agency_bot.Json.{Json}
use agency_bot.Event.{OutboxRow, IsEvent}
use agency_bot.User.Tables.{UserRow, PermissionRow, LinkRow, Db, insert_outbox}
use agency_bot.User.Repository.{outbox_row, write_event, with_event}

-- What is said of the three tables beside the outbox.
abbrev pub Tables : Type 1
Tables = List UserRow → List PermissionRow → List LinkRow → Type 0

abbrev pub Holds : Tables → Db → Type 0
Holds T d = T d.users d.permissions d.links

-- The tables of `d'` are as `T` says, and the outbox of `d` has grown by one such event.
abbrev pub Announces : Tables → (OutboxRow → Type 0) → Db → Db → Type 0
Announces T Event d d' = (e : OutboxRow) × Holds T d' × Event e × (d'.outbox ≡ d.outbox ++ (e ∷ []))

insert_outbox-ok :
    (r : OutboxRow) (d d₀ d' : Db) (n : ℕ)
    → insert_outbox r d ≡ ok (n, d')
    → d ≡ d₀
    → d' ≡ record d₀ { outbox = d₀.outbox ++ (r ∷ []) }
unfolding insert_outbox
insert_outbox-ok r d d₀ d' n e same = ground arith

module _ {X : Type 0} where
  write_event-Ensures :
      (t : ℕ) (id : Uuid) (typ : String) (content : Json) (w : World Db X)
      → Ensures
          (λ _ d _.
            (r : OutboxRow) × IsEvent id typ content r
            × (d ≡ record w.db { outbox = w.db.outbox ++ (r ∷ []) }))
          (write_event t id typ content w)
  unfolding write_event
  write_event-Ensures t id typ content w = Ensures-new_uuid _ _ w λ u v e _.
      Ensures-now _ _ v λ at v' e' _. Ensures-new_uuid _ _ v' λ u' v'' e'' _.
        Ensures-exec _ _ _ v'' λ n z ins _.
          let r = outbox_row u' u at t id typ content in
          done tt z (
            r,
            (refl, refl, refl, refl),
            insert_outbox-ok r v''.db w.db z.db n ins (e'' ∙ (e' ∙ e)),
          )

  -- The end of each transaction.
  pub write_event-Announces :
      (T : Tables) (d₀ : Db) (t : ℕ) (id : Uuid) (typ : String) (content : Json) (w : World Db X)
      → Holds T w.db
      → w.db.outbox ≡ d₀.outbox
      → Ensures
          (λ _ d _. Announces T (IsEvent id typ content) d₀ d)
          (write_event t id typ content w)
  write_event-Announces T d₀ t id typ content w holds same =
      Ensures-mono _ _ (write_event-Ensures t id typ content w) λ _ d _ (r, is_event, grown). (
        r,
        subst (Holds T) (sym grown) holds,
        is_event,
        ap (λ (d : Db). d.outbox) grown ∙ ap (λ l. l ++ (r ∷ [])) same,
      )

  pub with_event-Atomic :
      (T : Tables) (id : Uuid) (typ : String) (content : Json) (fn : ℕ → M (World Db X) Err Done)
      (w : World Db X)
      → ((t : ℕ) (v : World Db X)
          → v.db ≡ w.db
          → Ensures (λ _ d _. Holds T d × (d.outbox ≡ w.db.outbox)) (fn t v))
      → Atomic
          (λ _ d _. Announces T (IsEvent id typ content) w.db d)
          w.db
          (with_event id typ content fn w)
  unfolding with_event
  with_event-Atomic T id typ content fn w body = Atomic-transact _ _ w λ t v e _.
      Ensures-bind (λ _ d _. Holds T d × (d.outbox ≡ w.db.outbox)) _ (fn t) _ v (body t v e)
        λ _ u (holds, same). write_event-Announces T w.db t id typ content u holds same
