-- ===== src/Bot/Telegram/Exchange.antt =====
-- When the client of Telegram's API reports a success.
use agency_bot.Base.{
  ℕ, ◌≤◌, ◌<◌, ◌≡◌, refl, ℤ, String, true, Bool-cases, inl, inr, not, ◌||◌, ltb, Option, none, some,
  List, arith,
}
use agency_bot.Effects.{Result, ok, err, M, ◌>>=◌, throw}
use agency_bot.Effects.Laws.{Ends, Ends-bind}
use agency_bot.Bot.Clients.{Update}
use agency_bot.Bot.Telegram.{
  Request, Response, Http, updates_request, send_request, checked, run, request, updates, send,
}

-- The exchange has brought a response, with a status of success.
abbrev IsAnswered :
    {S Body A : Type 0}
    → Http S Body
    → (Body → Option (Response A))
    → Request
    → S
    → Response A
    → S
    → Type 0
IsAnswered {S} {Body} http decode q s r s' =
    (code : ℕ) × (body : Body) × (http.exchange q s ≡ (ok (code, body), s'))
    × (decode body ≡ some r)
    × (200 ≤ code)
    × (code < 300)

-- Nothing is said of a failure.
abbrev Fails : {S : Type 0} → String → S → Type 0
Fails e s = Unit {0}

outcome-Ends :
    {S A : Type 0} (m : M S String A) (s : S) → Ends (λ a s'. m s ≡ (ok a, s')) Fails (m s)
outcome-Ends {S} {A} m s = go (m s) refl
  where
    go : (r : Result String A × S) → m s ≡ r → Ends (λ a s'. m s ≡ (ok a, s')) Fails r
    go (ok a, t) e = e
    go (err x, t) e = tt

module _ {S Body : Type 0} (http : Http S Body) where
  checked-Ends :
      {A : Type 0} (decode : Body → Option (Response A)) (q : Request) (code : ℕ) (body : Body)
      (s t : S)
      → http.exchange q s ≡ (ok (code, body), t)
      → (o : Option (Response A)) → decode body ≡ o
      → Ends (IsAnswered http decode q s) Fails (checked http code o t)
  unfolding checked
  checked-Ends decode q code body s t e none d = tt
  checked-Ends decode q code body s t e (some r) d =
      elim (Bool-cases (ltb code 200 || not (ltb code 300))) [
        | inl bad ↦ rw (bad) tt
        | inr good ↦ rw (good) (code, body, e, d, ground (arith, good), ground (arith, good))
      ]

  request-Ends :
      {A : Type 0} (decode : Body → Option (Response A)) (q : Request) (s : S)
      → Ends (IsAnswered http decode q s) Fails (request http decode q s)
  unfolding request run
  request-Ends {A} decode q s = go (http.url_error q.url)
    where
      go :
          (o : Option String)
          → Ends (IsAnswered http decode q s) Fails (
              (elim o as (λ _. M S String (Response A)) [
                | some e ↦ throw e
                | none ↦ http.exchange q >>= λ answer. checked http answer.0 (decode answer.1)
              ])
                s)
      go none =
          Ends-bind _ Fails _ Fails (http.exchange q) _ s (outcome-Ends (http.exchange q) s)
            (λ answer t e. checked-Ends decode q answer.0 answer.1 s t e (decode answer.1) refl)
            (λ _ _ h. h)
      go (some e) = tt

  -- `Updates` answers only the updates of a response that came with a status of success and says ok.
  updates-Ends :
      (token : String) (offset : ℤ) (s : S)
      → Ends
          (λ us s'.
            (r : Response (List Update)) × IsAnswered http http.decode_updates
              (updates_request token offset)
              s
              r
              s'
            × (r.is_ok ≡ true)
            × (r.result ≡ us))
          Fails
          (updates http token offset s)
  unfolding updates
  updates-Ends token offset s =
      Ends-bind _ Fails _ Fails (request http http.decode_updates (updates_request token offset)) _
        s (request-Ends http.decode_updates (updates_request token offset) s)
        (λ r t answered. elim (Bool-cases r.is_ok) [
          | inl fine ↦ rw (fine) (r, answered, fine, refl)
          | inr refused ↦ rw (refused) tt
        ])
        (λ _ _ h. h)

  -- `Send` succeeds only where the response says ok.
  send-Ends :
      (token : String) (chat : ℤ) (message : String) (s : S)
      → Ends
          (λ _ s'.
            (r : Response Body) × IsAnswered http http.decode_raw
              (send_request token chat message)
              s
              r
              s'
            × (r.is_ok ≡ true))
          Fails
          (send http token chat message s)
  unfolding send
  send-Ends token chat message s =
      Ends-bind _ Fails _ Fails (request http http.decode_raw (send_request token chat message)) _ s
        (request-Ends http.decode_raw (send_request token chat message) s)
        (λ r t answered. elim (Bool-cases r.is_ok) [
          | inl fine ↦ rw (fine) (r, answered, fine)
          | inr refused ↦ rw (refused) tt
        ])
        (λ _ _ h. h)
