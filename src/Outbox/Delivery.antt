-- ===== src/Outbox/Delivery.antt =====
-- What a run of the worker does to the table and to the broker.
use agency_bot.Base.{
  ℕ, ◌≡◌, refl, String, Bool, List, [], ◌∷◌, ◌++◌, take, take_all, arith, ◌⊎◌, inl, inr, map, suc,
  length, append_assoc, append-nil, sym, ap, ap₂, ◌∙◌,
}
use agency_bot.Effects.{Err, Done, ◌>>=◌, for_each, on_error, ignore, call, exec, query}
use agency_bot.Effects.Laws.{Ends, Ends-bind, Ends-mono, transact-Ends, query-Ends}
use agency_bot.Sql.{update_where}
use agency_bot.Externals.{Uuid}
use agency_bot.Event.{OutboxRow}
use agency_bot.Outbox.{
  Worker, publish, process, produce, select_batch, message, Message, published, has_id,
  mark_published, count_attempt,
}

publish-Ends :
    (topic : String) (t : ℕ) (r : OutboxRow) (w : Worker)
    → Ends
        (λ _ v.
          (v.db ≡ update_where (has_id r.id) (published t) w.db)
          × (v.ext ≡ w.ext ++ (message topic r ∷ [])))
        (λ _ v. (v.ext ≡ w.ext) ⊎ (v.ext ≡ w.ext ++ (message topic r ∷ [])))
        (publish topic t r w)
unfolding publish produce exec call on_error ignore ◌>>=◌ mark_published count_attempt
publish-Ends topic t r w = ground arith

-- The table after a whole batch.
abbrev pub mark_all : ℕ → List OutboxRow → List OutboxRow → List OutboxRow
mark_all t [] d = d
mark_all t (r ∷ rs) d = mark_all t rs (update_where (has_id r.id) (published t) d)

-- The broker has taken the first events of the batch, in its order.
abbrev pub SentSome : String → List OutboxRow → List Message → List Message → Type 0
SentSome topic rows before after = (n : ℕ) × (after ≡ before ++ map (message topic) (take n rows))

sent_more :
    (topic : String) (r : OutboxRow) (rows : List OutboxRow) (a b c : List Message)
    → b ≡ a ++ (message topic r ∷ [])
    → SentSome topic rows b c
    → SentSome topic (r ∷ rows) a c
sent_more topic r rows a b c e (n, sent) =
    (suc n, sent ∙ (ap (λ l. l ++ map (message topic) (take n rows)) e ∙ append_assoc a _ _))

sent_one :
    (topic : String) (r : OutboxRow) (rows : List OutboxRow) (a b : List Message)
    → (b ≡ a) ⊎ (b ≡ a ++ (message topic r ∷ []))
    → SentSome topic (r ∷ rows) a b
sent_one topic r rows a b (inl e) = (0, e ∙ sym (append-nil a))
sent_one topic r rows a b (inr e) = (1, e)

-- What is known after the loop over `rows`, and where it has stopped.
abbrev AllSent : String → ℕ → List OutboxRow → Worker → Done → Worker → Type 0
AllSent topic t rows w _ v =
    (v.db ≡ mark_all t rows w.db) × (v.ext ≡ w.ext ++ map (message topic) rows)

abbrev Stopped : String → List OutboxRow → Worker → Err → Worker → Type 0
Stopped topic rows w _ v = SentSome topic rows w.ext v.ext

publish_all-Ends :
    (topic : String) (t : ℕ) (rows : List OutboxRow) (w : Worker)
    → Ends (AllSent topic t rows w) (Stopped topic rows w) (for_each rows (publish topic t) w)
unfolding for_each
publish_all-Ends topic t [] w = (refl, sym (append-nil w.ext))
publish_all-Ends topic t (r ∷ rows) w =
    Ends-bind _ _ (AllSent topic t (r ∷ rows) w) (Stopped topic (r ∷ rows) w) (publish topic t r)
      (λ _. for_each rows (publish topic t)) w (publish-Ends topic t r w)
      (λ _ v (marked, sent).
        Ends-mono (AllSent topic t rows v) (AllSent topic t (r ∷ rows) w) (Stopped topic rows v)
          (Stopped topic (r ∷ rows) w) _ (publish_all-Ends topic t rows v)
          (λ _ u (all_marked, all_sent). (
            all_marked ∙ ap (mark_all t rows) marked,
            all_sent ∙ (ap (λ l. l ++ map (message topic) rows) sent ∙ append_assoc w.ext _ _),
          ))
          (λ _ u. sent_more topic r rows w.ext v.ext u.ext sent))
      (λ _ v. sent_one topic r rows w.ext v.ext)

module _ (topic : String) (locked : Uuid → Bool) (w : Worker) where
  abbrev batch : List OutboxRow
  batch = select_batch locked w.db

  abbrev pub Finished : List OutboxRow → List Message → Type 0
  Finished d x = (t : ℕ) × (d ≡ mark_all t batch w.db) × (x ≡ w.ext ++ map (message topic) batch)

  abbrev pub Interrupted : List Message → Type 0
  Interrupted x = SentSome topic batch w.ext x

  body-Ends :
      (t : ℕ) (v : Worker)
      → v.db ≡ w.db
      → v.ext ≡ w.ext
      → Ends
          (λ _ u. Finished u.db u.ext)
          (λ _ u. Interrupted u.ext)
          ((query (select_batch locked) >>= λ rows. for_each rows (publish topic t)) v)
  body-Ends t v e x =
      Ends-bind _ _ (λ _ u. Finished u.db u.ext) (λ _ u. Interrupted u.ext)
        (query (select_batch locked)) _ v (query-Ends v (select_batch locked))
        (λ rows u (taken, table, sent).
          let rows_eq : rows ≡ batch = taken ∙ ap (select_batch locked) e in
          Ends-mono (AllSent topic t rows u) (λ _ u. Finished u.db u.ext) (Stopped topic rows u)
            (λ _ u. Interrupted u.ext) _ (publish_all-Ends topic t rows u)
            (λ _ z (all_marked, all_sent). (
              t,
              all_marked ∙ ap₂ (mark_all t) rows_eq (table ∙ e),
              all_sent ∙ ap₂ (λ a b. b ++ map (message topic) a) rows_eq (sent ∙ x),
            ))
            (λ _ z (n, some_sent).
              (n, some_sent ∙ ap₂ (λ a b. b ++ map (message topic) (take n a)) rows_eq (sent ∙ x))))
        (λ _ u sent. (0, sent ∙ (x ∙ sym (append-nil w.ext))))

  -- A run of the worker that succeeds has sent the whole batch to the broker, in its order, and marks
  -- exactly those rows as published. A run that fails has sent a first part of the batch, in its
  -- order, and leaves the table as it was: not even the count of attempts is kept.
  pub process-Ends :
      Ends
        (λ _ v. Finished v.db v.ext)
        (λ _ v. (v.db ≡ w.db) × Interrupted v.ext)
        (process topic locked w)
  process-Ends =
      unfold process in
      transact-Ends (λ _ d x. Finished d x) Interrupted _ w (0, sym (append-nil w.ext))
        (λ _ d x (t, _, sent). (
          length batch,
          sent
              ∙ ap (λ l. w.ext ++ map (message topic) l)
                  (sym (take_all (length batch) batch (omega arith))),
        ))
        body-Ends
