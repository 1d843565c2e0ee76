-- ===== src/Commands/TelegramLinkToken/Serving.antt =====
-- The client of the command in front of the user service of the same environment.
use agency_bot.Base.{◌≡◌, refl, String, false, Option, some, [], ◌∷◌}
use agency_bot.Effects.{M, ◌>>=◌, pure, throw, map_err}
use agency_bot.Auth.{interceptor, with_header, with_claims}
use agency_bot.Auth.Headers.{token_of-append, starts_with-bearer}
use agency_bot.Externals.{Externals}
use agency_bot.Grpc.{Refusal}
use agency_bot.Commands.TelegramLinkToken.{Tools, UserClient, cli_claims, header_of}
use agency_bot.Commands.UserService.{
  UserCall, UserReply, user_reply, users_reply, link_reply, empty_reply, create_user_call,
  create_telegram_link_call, full_method, Wiring, handle, serve,
}
use agency_bot.User.App.{Service}
use agency_bot.User.Transport.{UserMessage, CreateTelegramLinkResponse}

module _ {S : Type 0} where
  -- The reply of a call has the type of its method, which the generated client relies on.
  abbrev user_in : UserReply → M S String (Option UserMessage)
  user_in (user_reply u) = pure u
  user_in (users_reply us) = throw "unexpected reply"
  user_in (link_reply l) = throw "unexpected reply"
  user_in empty_reply = throw "unexpected reply"

  abbrev link_in : UserReply → M S String CreateTelegramLinkResponse
  link_in (link_reply l) = pure l
  link_in (user_reply u) = throw "unexpected reply"
  link_in (users_reply us) = throw "unexpected reply"
  link_in empty_reply = throw "unexpected reply"

module _ {S : Type 0} (lib : Externals) (app : Service S) (tools : Tools) (w : Wiring)
    (text : Refusal → String) where
  -- A network that loses nothing: each call reaches the service, and `text` writes its refusals.
  abbrev pub client : UserClient S
  client = record {
    create_user = λ header r.
        map_err text (serve lib app tools.jwt w (some (header ∷ [])) (create_user_call r))
        >>= user_in;
    create_telegram_link = λ header id seconds.
        map_err text
          (serve lib app tools.jwt w (some (header ∷ [])) (create_telegram_link_call id seconds))
        >>= link_in;
  }

  -- A call with the token of the command reaches its handler.
  pub serve-signed :
      (call : UserCall)
      → w.is_public (full_method call) ≡ false
      → serve lib app tools.jwt w (some (header_of tools w.config.jwt_secret ∷ [])) call
        ≡ handle lib app call
  unfolding serve interceptor with_header with_claims header_of
  serve-signed call guarded =
      rw
        (
          guarded,
          starts_with-bearer (tools.sign w.config.jwt_secret cli_claims),
          token_of-append (tools.sign w.config.jwt_secret cli_claims),
          tools.parse-sign w.config.jwt_secret,
        )
        refl
