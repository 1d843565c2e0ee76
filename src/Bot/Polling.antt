-- ===== src/Bot/Polling.antt =====
-- The loop of `Run` in internal/bot/service.go over the updates of Telegram.
use agency_bot.Base.{ℤ, add_one, ◌≡◌, refl, String, Option, none, some, List, [], ◌∷◌, arith}
use agency_bot.Effects.{Result, ok, err, Done, M, ◌>>=◌, pure, attempt, ignore}
use agency_bot.Bot.Clients.{Clients, GoText, Message, Update}
use agency_bot.Bot.Commands.{handle, report, run_message, run_updates, poll}

-- The offset behind the updates of a response: one more than the last identifier, and the old one
-- behind an error or no update.
abbrev pub behind : ℤ → List Update → ℤ
behind offset [] = offset
behind offset (u ∷ us) = behind (add_one u.id) us

abbrev pub next_offset : ℤ → Result String (List Update) → ℤ
next_offset offset (err e) = offset
next_offset offset (ok us) = behind offset us

module _ {S : Type 0} (go : GoText) (c : Clients S) where
  report-ok : (chat : ℤ) (r : Result String Done) (s : S) → (report go c chat r s).0 ≡ ok tt
  unfolding report ignore
  report-ok chat r s = ground arith

  run_message-ok : (m : Option Message) (s : S) → (run_message go c m s).0 ≡ ok tt
  unfolding run_message attempt ◌>>=◌
  run_message-ok none s = refl
  run_message-ok (some m) s =
      ground (arith, report-ok m.chat (handle go c m s).0 (handle go c m s).1)

  run_updates-ok :
      (us : List Update) (offset : ℤ) (s : S)
      → (run_updates go c offset us s).0 ≡ ok (behind offset us)
  unfolding run_updates ◌>>=◌
  run_updates-ok [] offset s = refl
  run_updates-ok (u ∷ us) offset s = ground (
    arith,
    run_message-ok u.message s,
    run_updates-ok us (add_one u.id) (run_message go c u.message s).1,
  )

  -- A round of the loop ends without an error, whatever the messages do and whichever calls fail, and
  -- the next offset is the one behind the last update of the response; when the poll itself fails,
  -- or answers no update, the offset stays.
  pub poll-ok :
      (offset : ℤ) (s : S) → (poll go c offset s).0 ≡ ok (next_offset offset (c.updates offset s).0)
  unfolding poll attempt ◌>>=◌
  poll-ok offset s = after (c.updates offset s).0
    where
      after :
          (r : Result String (List Update))
          → ((elim r as (λ _. M S String ℤ) [
            | ok us ↦ run_updates go c offset us
            | err e ↦ pure offset
          ])
              (c.updates offset s).1).0
            ≡ ok (next_offset offset r)
      after (ok us) = run_updates-ok us offset (c.updates offset s).1
      after (err e) = refl
