-- ===== src/Order/Performers/Lookup.antt =====
-- The order service's question to the user service, answered by the handler of the latter.
use agency_bot.Base.{◌==◌, ◌≡◌, Bool, false, not, ◌&&◌, arith}
use agency_bot.Effects.{Err, Result, ok, err, ◌>>=◌, map_err}
use agency_bot.Externals.{Uuid, nil_uuid, Externals}
use agency_bot.User.App
use agency_bot.User.App.{Service}
use agency_bot.User.Domain.{User, is_admin}
use agency_bot.User.Transport.{get_user, parse_id, to_proto}
use agency_bot.Order.Performers.{is_active_performer, is_suitable}

-- What the answer depends on: the user whom the store has.
abbrev pub verdict : Result Err User → Bool
verdict (err e) = false
verdict (ok u) = not (u.id == nil_uuid) && (u.is_active && not (is_admin u.role))

module _ {S : Type 0} (lib : Externals) (app : Service S) where
  -- The order service takes someone for an active performer exactly if the store of the user service
  -- answers, under that identifier, a user who has an identifier, is active and is no administrator;
  -- a failed call counts as no. The state is the one that the store leaves.
  pub is_active_performer_lem :
      (id : Uuid) (t : S)
      → is_active_performer lib (get_user lib app) id t
        ≡ (verdict (app.store.get id t).0, (app.store.get id t).1)
  unfolding is_active_performer is_suitable get_user parse_id to_proto App.get map_err ◌>>=◌
  is_active_performer_lem id t = ground (arith, lib.parse-to_string id)
