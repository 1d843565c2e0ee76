-- ===== src/Tests/Drafts.antt =====
-- Witnesses about the store of drafts, with a server that reads requests as the protocol does.
use agency_bot.Base.{
  ◌≡◌, ◌≢◌, refl, sym, ap, pos, String, true, false, Option, none, some, List, [], ◌∷◌, ◌++◌,
  list_eq, list_eq_iff, if◌then◌else◌, arith, inl, inr, Bool-cases,
}
use agency_bot.Effects.{ok, err, M}
use agency_bot.Bot.Drafts.{Draft, new_draft, order_kind, date}
use agency_bot.Bot.Redis.{
  Bytes, bytes_of, format, bulk, request, receive, filled, Network, Codec, load, save, delete,
}
use agency_bot.Bot.Redis.Requests.{parse, parse-request}
use agency_bot.Bot.Redis.Replies.{receive-bulk}
use agency_bot.Bot.Redis.Store.{answer, Server, save-load}

-- What the server has under each key.
abbrev Keys : Type 0
Keys = Bytes → Option Bytes

abbrev put : Bytes → Option Bytes → Keys → Keys
put k o s x = if list_eq x k then o else s x

abbrev respond : Option (List Bytes) → M Keys String Bytes
respond (some (name ∷ k ∷ [])) s =
    if list_eq name (bytes_of "GET")
    then (ok (answer (s k)), s)
    else (ok (b':' ∷ (format 1 ++ (13 ∷ 10 ∷ []))), put k none s)
respond (some (name ∷ k ∷ v ∷ rest)) s = (ok (bytes_of "+OK\r\n"), put k (some v) s)
respond _ s = (err "ERR", s)

abbrev network : Network Keys
network = record { exchange = λ b. respond (parse b); chunk = λ n rest. n }

same : (k : Bytes) → list_eq k k ≡ true
same k = (list_eq_iff k k).1 refl

differ : (k k' : Bytes) → k ≢ k' → list_eq k' k ≡ false
differ k k' other = elim (Bool-cases (list_eq k' k)) [
  | inl e ↦ absurd (other (sym ((list_eq_iff k' k).0 e)))
  | inr e ↦ e
]

abbrev server : Server network
server = record {
  lookup = λ s k. s k;
  stored = λ k v s. put k (some v) s;
  erased = λ k s. put k none s;
  count = λ k s. 1;
  get-ok = λ b k s e. ap (λ o. respond o s) e;
  set-ok = λ b k v ttl s e. ap (λ o. respond o s) e;
  del-ok = λ b k s e. ap (λ o. respond o s) e;
  lookup-stored = λ k v s. rw (same k) refl;
  lookup-stored_other = λ k k' v s other. rw (differ k k' other) refl;
  lookup-erased = λ k s. rw (same k) refl;
  whole = λ v. omega arith;
}

abbrev draft : Draft
draft = new_draft order_kind date

abbrev json : Codec
json = record { encode = λ d. bytes_of "{}"; decode = λ b. some draft }

parse-request_example :
    parse (request (bytes_of "GET" ∷ bytes_of "a\r\nb" ∷ []))
    ≡ some (bytes_of "GET" ∷ bytes_of "a\r\nb" ∷ [])
parse-request_example = parse-request (bytes_of "GET" ∷ bytes_of "a\r\nb" ∷ [])

-- One Read gives one byte of two.
receive-bulk_example : receive (λ n rest. 1) (bulk (bytes_of "{}")) ≡ ok (b'{' ∷ 0 ∷ [], true)
unfolding filled
receive-bulk_example = receive-bulk (λ n rest. 1) (bytes_of "{}") (omega arith)

apart : pos 55 ≢ pos 66
apart e = ground (arith, e)

save-load_example :
    (saved deleted : Keys) × (save network json (pos 55) draft (λ k. none) ≡ (ok tt, saved))
    × (load network json (pos 55) saved ≡ (ok (some draft), saved))
    × ((load network json (pos 66) saved).0 ≡ (load network json (pos 66) (λ k. none)).0)
    × (delete network json (pos 55) saved ≡ (ok tt, deleted))
    × (load network json (pos 55) deleted ≡ (ok none, deleted))
save-load_example =
    save-load network json server (pos 55) (pos 66) draft (λ k. none) apart (omega arith) refl
