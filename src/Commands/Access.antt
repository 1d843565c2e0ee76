-- ===== src/Commands/Access.antt =====
-- What reaches the handlers of the order service and of the user service, as cmd/ puts them together.
use agency_bot.Base.{◌≡◌, String, false, Option, List, arith}
use agency_bot.Effects.{World}
use agency_bot.Externals.{Externals}
use agency_bot.Auth.{Jwt}
use agency_bot.Auth.Tokens.{interceptor-Admits}
use agency_bot.Config
use agency_bot.Config.{Environment, env, development_secret}
use agency_bot.Commands.Start.{runs, step}
use agency_bot.Commands.OrderService
use agency_bot.Commands.OrderService.{
  OrderCall, OrderReply, create_order_call, get_order_call, update_order_call,
  change_order_status_call, assign_performer_call, unassign_performer_call, list_orders_call,
  list_performer_orders_call, get_order_history_call,
}
use agency_bot.Commands.UserService
use agency_bot.Commands.UserService.{
  Platform, service, UserCall, UserReply, authenticate_call, get_user_call,
  get_user_by_telegram_id_call, list_users_call, create_user_call, update_user_call,
  set_user_permissions_call, disable_user_call, enable_user_call, change_password_call,
  reset_password_call, bind_telegram_call, create_telegram_link_call, redeem_telegram_link_call,
}
use agency_bot.Order.Transport.Handlers.{Server}
use agency_bot.User.Tables.{Db}
use agency_bot.Commands.OrderService.Access.{OrderAccess, admitted-OrderAccess}
use agency_bot.Commands.UserService.Access.{UserAccess, admitted-UserAccess}

-- The secret of a service that runs in the environment.
abbrev pub secret_of : Environment → String
secret_of getenv = env getenv "JWT_SECRET" development_secret

order_wiring :
    (getenv : Environment) (s : OrderService.Startup) (w : OrderService.Wiring)
    → OrderService.start getenv s ≡ runs w
    → w ≡ record { config = Config.order getenv; is_public = λ m. false }
unfolding OrderService.start step
order_wiring getenv s w e = ground arith

pub user_wiring :
    (getenv : Environment) (s : UserService.Startup) (w : UserService.Wiring)
    → UserService.start getenv s ≡ runs w
    → w ≡ record { config = Config.user getenv; is_public = UserService.public_methods }
unfolding UserService.start step
user_wiring getenv s w e = ground arith

module _ {S X : Type 0} (lib : Externals) (server : Server S) (p : Platform) (jwt : Jwt) where
  -- For services that have started, in any environments and on any header and call: the order service
  -- refuses the call and changes nothing, or it handles it for the claims of one bearer token that is
  -- signed by HMAC with its secret, names a subject and holds the permission of the method. The user
  -- service refuses the call and changes nothing, or only reads to log a user in, or redeems a link,
  -- or has such a token too, of which it asks no permission. The secret of each is JWT_SECRET, or a
  -- fixed text when that is not set.
  pub serve-IsProtected :
      (getenv getenv' : Environment) (so : OrderService.Startup) (su : UserService.Startup)
      (wo : OrderService.Wiring) (wu : UserService.Wiring) (authorization : Option (List String))
      (order_call : OrderCall) (user_call : UserCall) (t : S) (w : World Db X)
      → OrderService.start getenv so ≡ runs wo
      → UserService.start getenv' su ≡ runs wu
      → OrderAccess lib server jwt
          (secret_of getenv)
          authorization
          order_call
          t
          (OrderService.serve lib server jwt wo authorization order_call t)
        × UserAccess p jwt
            (secret_of getenv')
            authorization
            w
            user_call
            (UserService.serve p.lib (service p) jwt wu authorization user_call w)
  unfolding OrderService.serve UserService.serve Config.order Config.user
  serve-IsProtected getenv getenv' so su wo wu authorization order_call user_call t w eo eu =
      rw (order_wiring getenv so wo eo, user_wiring getenv' su wu eu)
        (
          admitted-OrderAccess lib server jwt (secret_of getenv) authorization order_call t _ (
              interceptor-Admits jwt (secret_of getenv) (OrderService.handle lib server order_call)
                (λ m. false) _),
          admitted-UserAccess p jwt (secret_of getenv') authorization w user_call _ (
              interceptor-Admits jwt (secret_of getenv')
                (λ actor. UserService.handle p.lib (service p) user_call) UserService.public_methods
                _),
        )
