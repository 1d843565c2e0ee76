-- ===== src/Commands/NotificationService/Committed.antt =====
-- For which records the notification service commits, and where each partition goes on.
use agency_bot.Base.{
  ◌&&◌, str_eq, Bool, if◌then◌else◌, ℕ, String, ◌≡◌, refl, sym, ap, ◌∙◌, subst, true, Option, none,
  some, List, [], ◌∷◌, ◌++◌, any, any-append, ◌==◌, All, All-map, All-append, ◌+◌, Bool-cases, ◌⊎◌,
  inl, inr, arith,
}
use agency_bot.Effects.{
  Err, Result, ok, err, Done, M, ◌>>=◌, ◌>>◌, pure, for_each, error_of, ignore, answer, call,
}
use agency_bot.Effects.Calm.{bind-ok}
use agency_bot.Effects.Laws.{Atomic}
use agency_bot.Externals.{Uuid, Externals}
use agency_bot.Notification.{Incoming, Db, Notifier, process, dispatch_round}
use agency_bot.Notification.Dedup.{IsTaken, process-IsTaken, is_known, known_after}
use agency_bot.Commands.NotificationService.{
  Record, Fetches, poll_failed, fetched, Consumer, on_notifier, commit, on_record, on_fetches,
  Activity, polls, dispatches, act, run,
}
use agency_bot.Commands.NotificationService.Dispatching.{
  Grows, Tame, dispatch_round-Tame, dispatch_round-ok,
}

taken-Grows :
    (id : Uuid) (d : Db) (r : Result Err Done × Notifier)
    → Atomic (λ _ d' _. IsTaken id d d') d r
    → Grows d r.1.db
taken-Grows id d (ok a, v) (inl (known, same)) i h = subst (λ x. is_known i x ≡ true) (sym same) h
taken-Grows id d (ok a, v) (inr (unknown, grown, unique)) i h =
    ap (any (λ e. e == i)) grown
    ∙ (any-append (λ e. e == i) d.processed (id ∷ []) ∙ ground (arith, h))
taken-Grows id d (err e, v) same i h = subst (λ x. is_known i x ≡ true) (sym same) h

process-Tame : (lib : Externals) (value : Option Incoming) → Tame (process lib value)
process-Tame lib none w = unfold process in λ id h. h
process-Tame lib (some event) w = taken-Grows event.event_id w.db _ (process-IsTaken lib event w)

-- The event of the record has been taken in.
abbrev pub IsTakenIn : Db → Record → Type 0
IsTakenIn d r = (event : Incoming) × (r.value ≡ some event) × (is_known event.event_id d ≡ true)

-- Every commit was made for a record whose event has been taken in.
abbrev pub IsSound : Consumer → Type 0
IsSound s = All (IsTakenIn s.notifier.db) s.commits

-- The record is of the partition.
abbrev pub is_of : String → ℕ → Record → Bool
is_of topic partition r = str_eq r.topic topic && r.partition == partition

-- The offset at which the group goes on in a partition after the commits, none for its start. A commit
-- is an offset: it stands behind the record that was committed, so that the earlier records of the
-- partition count as consumed too, also those that failed; and the last commit holds.
abbrev pub position : String → ℕ → List Record → Option ℕ
position topic partition [] = none
position topic partition (r ∷ rs) = elim (position topic partition rs) [
  | some next ↦ some next
  | none ↦ if is_of topic partition r then some (r.offset + 1) else none
]

-- In every partition the group goes on at its start or right behind a record of the partition whose
-- event has been taken in.
abbrev pub IsBehindTaken : Consumer → Type 0
IsBehindTaken s =
    (topic : String) (partition : ℕ)
    → (position topic partition s.commits ≡ none)
      ⊎ ((r : Record) × (position topic partition s.commits ≡ some (r.offset + 1))
          × (is_of topic partition r ≡ true)
          × IsTakenIn s.notifier.db r)

position-IsTakenIn :
    (d : Db) (topic : String) (partition : ℕ) (rs : List Record)
    → All (IsTakenIn d) rs
    → (position topic partition rs ≡ none)
      ⊎ ((r : Record) × (position topic partition rs ≡ some (r.offset + 1))
          × (is_of topic partition r ≡ true)
          × IsTakenIn d r)
position-IsTakenIn d topic partition [] h = inl refl
position-IsTakenIn d topic partition (r ∷ rs) (taken, rest) =
    elim (position-IsTakenIn d topic partition rs rest) [
      | inr (q, at, of, t) ↦ inr (q, rw at refl, of, t)
      | inl start ↦ elim (Bool-cases (is_of topic partition r)) [
        | inl mine ↦ inr (r, rw start (rw mine refl), mine, taken)
        | inr other ↦ inl (rw start (rw other refl))
      ]
    ]

IsSound-Grows :
    (d d' : Db) (rs : List Record) → Grows d d' → All (IsTakenIn d) rs → All (IsTakenIn d') rs
IsSound-Grows d d' rs grown =
    All-map (IsTakenIn d) (IsTakenIn d') rs
      λ r (event, e, known). (event, e, grown event.event_id known)

-- The call never fails, and keeps what was committed sound.
abbrev Holds : Result Err Done × Consumer → Type 0
Holds r = (r.0 ≡ ok tt) × IsSound r.1

abbrev Keeps : M Consumer Err Done → Type 0
Keeps m = (s : Consumer) → IsSound s → Holds (m s)

Keeps-for_each :
    {A : Type 0} (xs : List A) (f : A → M Consumer Err Done)
    → ((x : A) → Keeps (f x))
    → Keeps (for_each xs f)
unfolding for_each
Keeps-for_each [] f h s sound = (refl, sound)
Keeps-for_each (x ∷ xs) f h s sound =
    let (fine, sound') = h x s sound in
    subst Holds
      (sym (bind-ok (f x) (λ _. for_each xs f) s (f x s).1 tt (ap (λ a. (a, (f x s).1)) fine)))
      (Keeps-for_each xs f h (f x s).1 sound')

commit-Keeps :
    (r : Record) (s : Consumer)
    → IsTakenIn s.notifier.db r
    → IsSound s
    → Holds (ignore (commit r) s)
unfolding ignore commit on_notifier call ◌>>=◌
commit-Keeps r s taken sound = go (s.notifier.env.faults s.notifier.step)
  where
    go :
        (o : Option String)
        → Holds (
            ignore
              (on_notifier (answer o) >> λ t. (ok tt, record t { commits = t.commits ++ (r ∷ []) }))
              s)
    go none = (refl, All-append _ s.commits (r ∷ []) sound (taken, tt))
    go (some e) = (refl, sound)

process-IsTakenIn :
    (lib : Externals) (r : Record) (value : Option Incoming) (w : Notifier)
    → r.value ≡ value
    → (process lib value w).0 ≡ ok tt
    → IsTakenIn (process lib value w).1.db r
process-IsTakenIn lib r none w e fine = absurd (unfold process in ground (arith, fine))
process-IsTakenIn lib r (some event) w e fine =
    (event, e, known_after lib event w.db _ (process-IsTaken lib event w) fine)

module _ (lib : Externals) where
  record-Keeps : (r : Record) → Keeps (on_record lib r)
  unfolding on_record on_notifier error_of ◌>>=◌
  record-Keeps r s sound =
      go (process lib r.value s.notifier) (process-Tame lib r.value s.notifier)
        (process-IsTakenIn lib r r.value s.notifier refl)
    where
      go :
          (x : Result Err Done × Notifier)
          → Grows s.notifier.db x.1.db
          → (x.0 ≡ ok tt → IsTakenIn x.1.db r)
          → Holds (
              (error_of (on_notifier λ _. x) >>= λ failure.
              elim failure as (λ _. M Consumer Err Done) [
                | some e ↦ pure tt
                | none ↦ ignore (commit r)
              ])
                s)
      go (ok a, v) grown taken =
          commit-Keeps r (record s { notifier = v }) (taken refl)
            (IsSound-Grows s.notifier.db v.db s.commits grown sound)
      go (err e, v) grown taken = (refl, IsSound-Grows s.notifier.db v.db s.commits grown sound)

  fetches-Keeps : (f : Fetches) → Keeps (on_fetches lib f)
  unfolding on_fetches
  fetches-Keeps (poll_failed e) s sound = (refl, sound)
  fetches-Keeps (fetched rs) s sound = Keeps-for_each rs (on_record lib) record-Keeps s sound

  dispatch-Keeps : Keeps (on_notifier dispatch_round)
  unfolding on_notifier
  dispatch-Keeps s sound = (
    dispatch_round-ok s.notifier,
    IsSound-Grows s.notifier.db (dispatch_round s.notifier).1.db s.commits
        (dispatch_round-Tame s.notifier) sound,
  )

  act-Keeps : (a : Activity) → Keeps (act lib a)
  unfolding act
  act-Keeps (polls f) = fetches-Keeps f
  act-Keeps dispatches = dispatch-Keeps

  run-Keeps : (activities : List Activity) → Keeps (run lib activities)
  unfolding run
  run-Keeps activities = Keeps-for_each activities (act lib) act-Keeps

  -- Whatever Kafka answers and wherever calls fail, in any order of polls and of rounds of the
  -- dispatcher, the process never stops on an error, every commit that Kafka took is for a record
  -- whose event has been taken in, and in every partition the group goes on at its start or right
  -- behind such a record, whatever has become of the records before it, if the commits before were for such records.
  pub run-IsSound :
      (activities : List Activity) (s : Consumer)
      → IsSound s
      → ((run lib activities s).0 ≡ ok tt)
        × IsSound (run lib activities s).1
        × IsBehindTaken (run lib activities s).1
  run-IsSound activities s sound =
      let (fine, kept) = run-Keeps activities s sound in
      (
        fine,
        kept,
        λ topic partition.
            position-IsTakenIn (run lib activities s).1.notifier.db topic partition
              (run lib activities s).1.commits kept,
      )
