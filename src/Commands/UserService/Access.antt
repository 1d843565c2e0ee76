-- ===== src/Commands/UserService/Access.antt =====
-- What reaches the handlers of the user service.
use agency_bot.Base.{ℤ, ◌≡◌, refl, String, true, Option, List, arith}
use agency_bot.Effects.{Result, M, World}
use agency_bot.Effects.Moves.{IsSame}
use agency_bot.Auth.{Claims, Jwt}
use agency_bot.Auth.Tokens.{Admits, by_method, by_token, refused}
use agency_bot.Grpc.{Refusal}
use agency_bot.Commands.UserService
use agency_bot.Commands.UserService.Reading.{authenticate_call-Reads}
use agency_bot.Commands.UserService.{
  Platform, service, UserCall, UserReply, authenticate_call, get_user_call,
  get_user_by_telegram_id_call, list_users_call, create_user_call, update_user_call,
  set_user_permissions_call, disable_user_call, enable_user_call, change_password_call,
  reset_password_call, bind_telegram_call, create_telegram_link_call, redeem_telegram_link_call,
}
use agency_bot.User.Tables.{Db}
use agency_bot.Commands.Signed.{IsSigned, IsRefused}

module _ {X : Type 0} (p : Platform) where
  -- What a call of the user service comes to.
  pub data UserAccess (jwt : Jwt) (secret : String) (authorization : Option (List String))
      (w : World Db X) : UserCall → Result Refusal UserReply × World Db X → Type 0 where
    turned_away :
        (call : UserCall) (r : Result Refusal UserReply × World Db X)
        → IsRefused w r
        → UserAccess jwt secret authorization w call r
    logs_in :
        (login raw : String) (r : Result Refusal UserReply × World Db X)
        → IsSame w r.1
        → UserAccess jwt secret authorization w (authenticate_call login raw) r
    redeems :
        (token : String) (telegram : ℤ)
        → UserAccess jwt secret authorization w
            (redeem_telegram_link_call token telegram)
            (UserService.handle p.lib (service p) (redeem_telegram_link_call token telegram) w)
    signed :
        (call : UserCall) (c : Claims)
        → IsSigned jwt secret authorization c
        → UserAccess jwt secret authorization w call (UserService.handle p.lib (service p) call w)

  module _ (jwt : Jwt) (secret : String) (authorization : Option (List String))
      (w : World Db X) where
    public-UserAccess :
        (call : UserCall)
        → UserService.public_methods (UserService.full_method call) ≡ true
        → UserAccess jwt secret authorization w call (UserService.handle p.lib (service p) call w)
    public-UserAccess (authenticate_call login raw) e =
        logs_in login raw _ (authenticate_call-Reads p login raw w)
    public-UserAccess (redeem_telegram_link_call token telegram) e = redeems token telegram
    public-UserAccess (get_user_call id) e = absurd (ground (arith, e))
    public-UserAccess (get_user_by_telegram_id_call t) e = absurd (ground (arith, e))
    public-UserAccess (list_users_call n a) e = absurd (ground (arith, e))
    public-UserAccess (create_user_call r) e = absurd (ground (arith, e))
    public-UserAccess (update_user_call id n) e = absurd (ground (arith, e))
    public-UserAccess (set_user_permissions_call id ps) e = absurd (ground (arith, e))
    public-UserAccess (disable_user_call id) e = absurd (ground (arith, e))
    public-UserAccess (enable_user_call id) e = absurd (ground (arith, e))
    public-UserAccess (change_password_call id o n) e = absurd (ground (arith, e))
    public-UserAccess (reset_password_call id n) e = absurd (ground (arith, e))
    public-UserAccess (bind_telegram_call id t) e = absurd (ground (arith, e))
    public-UserAccess (create_telegram_link_call id n) e = absurd (ground (arith, e))

    pub admitted-UserAccess :
        (call : UserCall) (m : M (World Db X) Refusal UserReply)
        → Admits jwt secret
            (λ actor. UserService.handle p.lib (service p) call)
            UserService.public_methods
            (record { full_method = UserService.full_method call; authorization = authorization })
            m
        → UserAccess jwt secret authorization w call (m w)
    admitted-UserAccess call m (by_method e) = public-UserAccess call e
    admitted-UserAccess call m (by_token value c header prefix method parsed named) =
        signed call c (value, header, prefix, method, parsed, named)
    admitted-UserAccess call m (refused text) = turned_away call _ (_, refl)
