-- ===== src/Bot/Redis/Store.antt =====
-- `Load`, `Save` and `Delete` against a server that follows the protocol.
use agency_bot.Base.{
  ◌≡◌, ◌≢◌, refl, sym, ap, ◌∙◌, ◌≤◌, ◌<◌, ℕ, zero, suc, ◌+◌, ◌^◌, ℤ, pos, negsuc, String, Bool,
  true, false, Option, none, some, List, [], ◌∷◌, ◌++◌, length, every, ◌==◌, if◌then◌else◌, arith,
}
use agency_bot.Effects.{Result, ok, err, ◌>>=◌}
use agency_bot.Effects.Calm.{bind-ok}
use agency_bot.Bot.Drafts.{Draft}
use agency_bot.Bot.Redis.{
  Bytes, bytes_of, format, format_int, crlf, bulk, request, read_digits, reply, receive, Network,
  Codec, draft_key, command, loaded, load, save, delete,
}
use agency_bot.Bot.Redis.Digits.{is_digit, every-format}
use agency_bot.Bot.Redis.Requests.{parse, parse-request}
use agency_bot.Bot.Redis.Replies.{
  is_nil, format-cons, read_digits-format, receive-line, receive-bulk, filled-whole, receive-ok,
  receive-nil,
}

-- The number that a key ends with.
abbrev read_int : Bytes → Option ℤ
read_int [] = none
read_int (c ∷ s) =
    if c == b'-'
    then elim (read_digits 0 s) [ none ↦ none | some zero ↦ none | some (suc n) ↦ some (negsuc n) ]
    else elim (read_digits 0 (c ∷ s)) [ none ↦ none | some n ↦ some (pos n) ]

read_int-digits :
    (n : ℕ) (xs : Bytes)
    → every is_digit xs ≡ true
    → is_nil xs ≡ false
    → read_digits 0 xs ≡ some n
    → read_int xs ≡ some (pos n)
read_int-digits n [] h e r = absurd (ground (arith, e))
read_int-digits n (c ∷ xs) h e r = ground (arith, h, r)

read_int-format_int : (t : ℤ) → read_int (format_int t) ≡ some t
unfolding format_int
read_int-format_int (pos n) =
    read_int-digits n (format n) (every-format n) (format-cons n) (read_digits-format n)
read_int-format_int (negsuc n) = ground (arith, read_digits-format (suc n))

abbrev drop : ℕ → Bytes → Bytes
drop zero s = s
drop (suc n) [] = []
drop (suc n) (c ∷ s) = drop n s

-- Two accounts do not share a key.
draft_key-injective : (t t' : ℤ) → draft_key t ≡ draft_key t' → t ≡ t'
unfolding draft_key
draft_key-injective t t' e = ground (
  arith,
  sym (read_int-format_int t) ∙ (ap (λ s. read_int (drop 16 s)) e ∙ read_int-format_int t'),
)

-- The reply to GET.
abbrev pub answer : Option Bytes → Bytes
answer none = bytes_of "$-1\r\n"
answer (some v) = bulk v

-- A server of Redis that is reached without a failure, whose replies come in one piece: what it does
-- with a request depends on how the protocol reads it. A key that expires is left out.
pub record Server {S : Type 0} (net : Network S) : Type 0 where
  pub lookup : S → Bytes → Option Bytes
  pub stored : Bytes → Bytes → S → S
  pub erased : Bytes → S → S
  pub count : Bytes → S → ℕ
  pub get-ok :
      (b k : Bytes) (s : S)
      → parse b ≡ some (bytes_of "GET" ∷ k ∷ [])
      → net.exchange b s ≡ (ok (answer (lookup s k)), s)
  pub set-ok :
      (b k v ttl : Bytes) (s : S)
      → parse b ≡ some (bytes_of "SET" ∷ k ∷ v ∷ bytes_of "EX" ∷ ttl ∷ [])
      → net.exchange b s ≡ (ok (bytes_of "+OK\r\n"), stored k v s)
  pub del-ok :
      (b k : Bytes) (s : S)
      → parse b ≡ some (bytes_of "DEL" ∷ k ∷ [])
      → net.exchange b s ≡ (ok (b':' ∷ (format (count k s) ++ (13 ∷ 10 ∷ []))), erased k s)
  pub lookup-stored : (k v : Bytes) (s : S) → lookup (stored k v s) k ≡ some v
  pub lookup-stored_other :
      (k k' v : Bytes) (s : S) → k ≢ k' → lookup (stored k v s) k' ≡ lookup s k'
  pub lookup-erased : (k : Bytes) (s : S) → lookup (erased k s) k ≡ none
  pub whole : (v : Bytes) → length v ≤ net.chunk (length v + 2) (v ++ crlf)

module _ {S : Type 0} (net : Network S) (json : Codec) (R : Server net) where
  command-ok :
      (values : List Bytes) (b : Bytes) (s s' : S) (r : Result String (Bytes × Bool))
      → net.exchange (request values) s ≡ (ok b, s')
      → receive net.chunk b ≡ r
      → command net values s ≡ (r, s')
  unfolding command
  command-ok values b s s' r e read =
      bind-ok (net.exchange (request values)) (λ bytes s. (receive net.chunk bytes, s)) s s' b e
      ∙ ap (λ x. (x, s')) read

  abbrev seen : Result String (Bytes × Bool) → Result String (Option Draft)
  seen (ok a) = loaded json a
  seen (err e) = err e

  -- What is loaded depends only on what the server has under the key.
  load-eq :
      (t : ℤ) (s : S)
      → load net json t s ≡ (seen (receive net.chunk (answer (R.lookup s (draft_key t)))), s)
  unfolding load ◌>>=◌
  load-eq t s = ground (
    arith,
    command-ok (bytes_of "GET" ∷ draft_key t ∷ []) _ s s _
        (R.get-ok _ (draft_key t) s (parse-request _)) refl,
  )

  load-none : (t : ℤ) (s : S) → R.lookup s (draft_key t) ≡ none → load net json t s ≡ (ok none, s)
  unfolding loaded
  load-none t s h =
      load-eq t s
      ∙ ap (λ r. (seen r, s)) (ap (λ o. receive net.chunk (answer o)) h ∙ receive-nil net.chunk)

  load-some :
      (t : ℤ) (d : Draft) (s : S)
      → length (json.encode d) < 2 ^ 63
      → json.decode (json.encode d) ≡ some d
      → R.lookup s (draft_key t) ≡ some (json.encode d)
      → load net json t s ≡ (ok (some d), s)
  unfolding loaded
  load-some t d s small decoded h =
      load-eq t s
      ∙ ap (λ r. (seen r, s))
          (ap (λ o. receive net.chunk (answer o)) h
            ∙ (receive-bulk net.chunk (json.encode d) small
                ∙ ap (λ (xs : Bytes). ok (xs, true))
                    (filled-whole (json.encode d) _ (R.whole (json.encode d)))))
      ∙ ground (arith, decoded)

  save-ok :
      (t : ℤ) (d : Draft) (s : S)
      → save net json t d s ≡ (ok tt, R.stored (draft_key t) (json.encode d) s)
  unfolding save
  save-ok t d s = bind-ok (command net _) _ s _ _ (
      command-ok _ _ s _ _
        (R.set-ok _ (draft_key t) (json.encode d) (bytes_of "1800") s (parse-request _))
        (receive-ok net.chunk))

  delete-ok : (t : ℤ) (s : S) → delete net json t s ≡ (ok tt, R.erased (draft_key t) s)
  unfolding delete reply
  delete-ok t s = bind-ok (command net _) _ s _ _ (
      command-ok _ _ s _ _ (R.del-ok _ (draft_key t) s (parse-request _)) (
        receive-line net.chunk b':' (format (R.count (draft_key t) s)) []
          (every-format (R.count (draft_key t) s))))

  -- Over such a server a saved draft is what is loaded next, and another account's draft is not changed;
  -- after a deletion there is none. It holds if the draft can be decoded from its
  -- text, and this is not longer than an int can say.
  pub save-load :
      (t t' : ℤ) (d : Draft) (s : S)
      → t ≢ t'
      → length (json.encode d) < 2 ^ 63
      → json.decode (json.encode d) ≡ some d
      → (saved deleted : S) × (save net json t d s ≡ (ok tt, saved))
        × (load net json t saved ≡ (ok (some d), saved))
        × ((load net json t' saved).0 ≡ (load net json t' s).0)
        × (delete net json t saved ≡ (ok tt, deleted))
        × (load net json t deleted ≡ (ok none, deleted))
  save-load t t' d s other small decoded =
      let k = draft_key t in
      let saved = R.stored k (json.encode d) s in
      (
        saved,
        R.erased k saved,
        save-ok t d s,
        load-some t d saved small decoded (R.lookup-stored k (json.encode d) s),
        ap (λ r. r.0) (load-eq t' saved)
            ∙ (ap (λ o. seen (receive net.chunk (answer o)))
                  (R.lookup-stored_other k (draft_key t') (json.encode d) s
                    λ e. other (draft_key-injective t t' e))
                ∙ sym (ap (λ r. r.0) (load-eq t' s))),
        delete-ok t saved,
        load-none t _ (R.lookup-erased k saved),
      )
