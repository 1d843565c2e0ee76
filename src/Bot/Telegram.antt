-- ===== src/Bot/Telegram.antt =====
-- internal/bot/telegram.go: the client of Telegram's API. The exchange of net/http, its check of a URL
-- and the decoding of a body by encoding/json are parameters; a body that is sent is its JSON.
pub mod Exchange
use agency_bot.Base.{
  ℕ, suc, ℤ, pos, negsuc, ltb, String, append, Bool, not, ◌||◌, Option, none, some, List, decimal,
  if◌then◌else◌,
}
use agency_bot.Effects.{Done, M, ◌>>=◌, pure, throw}
use agency_bot.Json.{Json, int, text, obj, field, end}
use agency_bot.Bot.Clients.{Update}

-- `http.Request`, with the header Content-Type.
pub record Request : Type 0 where
  pub verb : String
  pub url : String
  pub content_type : Option String
  pub body : Option Json

-- `telegramResponse`
pub record Response (A : Type 0) : Type 0 where
  pub is_ok : Bool
  pub description : String
  pub result : A

-- `NewRequestWithContext`, by the error of the URL, and `http.Client.Do`, by the status and the body
-- of the answer; and the decoders of a body, which answer nothing for one that does not decode.
pub record Http (S Body : Type 0) : Type 0 where
  pub url_error : String → Option String
  pub exchange : Request → M S String (ℕ × Body)
  pub decode_updates : Body → Option (Response (List Update))
  pub decode_raw : Body → Option (Response Body)

-- `NewTelegramClient`, by its base URL
abbrev pub base_url : String → String
base_url token = append "https://api.telegram.org/bot" (append token "/")

-- `query.Encode()`, whose keys are sorted.
unfoldable pub updates_query : ℤ → String
updates_query (pos (suc n)) = append "offset=" (append (decimal (suc n)) "&timeout=30")
updates_query _ = "timeout=30"

abbrev pub updates_request : String → ℤ → Request
updates_request token offset = record {
  verb = "GET";
  url = append (base_url token) (append "getUpdates?" (updates_query offset));
  content_type = none;
  body = none;
}

abbrev pub send_request : String → ℤ → String → Request
send_request token chat message = record {
  verb = "POST";
  url = append (base_url token) "sendMessage";
  content_type = some "application/json";
  body = some (obj (field "chat_id" (int chat) (field "text" (text message) end)));
}

module _ {S Body : Type 0} (http : Http S Body) where
  -- The end of `do`, where the body has been decoded.
  unfoldable pub checked : {A : Type 0} → ℕ → Option (Response A) → M S String (Response A)
  checked code none = throw "json: cannot decode"
  checked code (some r) =
      if ltb code 200 || not (ltb code 300)
      then throw (append "telegram returned HTTP " (decimal code))
      else pure r

  -- `do`
  unfoldable pub run :
      {A : Type 0} → (Body → Option (Response A)) → Request → M S String (Response A)
  run decode r = http.exchange r >>= λ answer. checked answer.0 (decode answer.1)

  -- The check of the URL in front of `do`.
  unfoldable pub request :
      {A : Type 0} → (Body → Option (Response A)) → Request → M S String (Response A)
  request decode r = elim (http.url_error r.url) [ some e ↦ throw e | none ↦ run decode r ]

  -- `Updates`
  unfoldable pub updates : String → ℤ → M S String (List Update)
  updates token offset = request http.decode_updates (updates_request token offset) >>= λ r.
      if not r.is_ok
      then throw (append "telegram getUpdates failed: " r.description)
      else pure r.result

  -- `Send`
  unfoldable pub send : String → ℤ → String → M S String Done
  send token chat message = request http.decode_raw (send_request token chat message) >>= λ r.
      if not r.is_ok then throw (append "telegram sendMessage failed: " r.description) else pure tt
