-- ===== src/Commands/UserService/Reading.antt =====
-- Authenticate only reads.
use agency_bot.Base.{String, Bool, find_first, Option, none, some}
use agency_bot.Effects.{Err, not_found, unauthorized, query, guard, map_err}
use agency_bot.Effects.Moves.{
  Reads, same, Moves-bind, Moves-map_err, Reads-query, Moves-pure, Moves-throw, Moves-guard,
}
use agency_bot.Grpc.{Refusal}
use agency_bot.Externals.{Externals}
use agency_bot.Commands.UserService.{Platform, service, handle, authenticate_call, user_reply}
use agency_bot.User.App
use agency_bot.User.Repository.{or_not_found, by_login, find, scan, permissions_of}
use agency_bot.User.Tables.{Db, UserRow}
use agency_bot.User.Transport.{authenticate, to_status, to_proto, rpc}

module _ {X : Type 0} where
  or_not_found-Reads :
      {A : Type 0} (o : Option A) → Reads {D = Db} {X = X} {E = Err} (or_not_found o)
  unfolding or_not_found
  or_not_found-Reads {A} none = Moves-throw same A not_found
  or_not_found-Reads (some a) = Moves-pure same Err a

  find-Reads : (lib : Externals) (p : UserRow → Bool) → Reads {D = Db} {X = X} (find lib p)
  unfolding find
  find-Reads lib p = Moves-bind same (query λ d. find_first p d.users) _ (Reads-query _) λ o.
      Moves-bind same (or_not_found o) _ (or_not_found-Reads o) λ r.
        Moves-bind same (query λ d. permissions_of lib r.id d.permissions) _ (Reads-query _)
          λ ps. Moves-pure same Err (scan r ps)

  module _ (p : Platform) where
    login-Reads :
        (login raw : String) → Reads {D = Db} {X = X} (App.authenticate (service p) login raw)
    unfolding App.authenticate by_login
    login-Reads login raw =
        Moves-bind same (map_err (λ e. unauthorized) (by_login p.lib login)) _
          (Moves-map_err same _ (by_login p.lib login) (find-Reads p.lib _))
          λ u.
            Moves-bind same (guard _ unauthorized) _ (Moves-guard same _ unauthorized)
              λ _. Moves-pure same Err u

    -- A login changes nothing.
    pub authenticate_call-Reads :
        (login raw : String)
        → Reads {D = Db} {X = X} (handle p.lib (service p) (authenticate_call login raw))
    unfolding handle authenticate
    authenticate_call-Reads login raw =
        Moves-bind same (authenticate p.lib (service p) login raw) _
          (Moves-bind same (rpc (App.authenticate (service p) login raw)) _
            (Moves-map_err same to_status (App.authenticate (service p) login raw)
              (login-Reads login raw))
            λ u. Moves-pure same Refusal (to_proto p.lib u))
          λ u. Moves-pure same Refusal (user_reply u)
