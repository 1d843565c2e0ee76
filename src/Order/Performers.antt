-- ===== src/Order/Performers.antt =====
-- internal/order/app/users.go: `GRPCUsers`, by which the order service asks the user service. The
-- metadata of the request that it passes on is part of the client `get_user`.
pub mod Lookup
use agency_bot.Base.{String, Bool, true, false, ◌&&◌, Option, none, some}
use agency_bot.Effects.{Result, ok, err, M}
use agency_bot.Externals.{Uuid, Externals}
use agency_bot.Grpc.{Refusal}
use agency_bot.User.Transport.{
  UserMessage, RoleMessage, role_unspecified, role_admin, role_performer,
}

abbrev pub is_performer_role : RoleMessage → Bool
is_performer_role role_performer = true
is_performer_role role_admin = false
is_performer_role role_unspecified = false

-- `u.User.GetIsActive() && u.User.GetRole() == userv1.Role_ROLE_PERFORMER`, where a user that is
-- absent has the zero values.
unfoldable pub is_suitable : Result Refusal (Option UserMessage) → Bool
is_suitable (err e) = false
is_suitable (ok none) = false
is_suitable (ok (some u)) = u.is_active && is_performer_role u.role

-- `IsActivePerformer`
unfoldable pub is_active_performer :
    {S : Type 0} → Externals → (String → M S Refusal (Option UserMessage)) → Uuid → S → Bool × S
is_active_performer lib get_user id t =
    let (r, t') = get_user (lib.to_string id) t in (is_suitable r, t')
