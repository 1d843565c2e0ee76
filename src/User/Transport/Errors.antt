-- ===== src/User/Transport/Errors.antt =====
-- What the user service tells a client when it fails.
use agency_bot.Base.{ℕ, ℤ, String, List}
use agency_bot.Effects.{
  Err, Result, ok, err, not_found, forbidden, unauthorized, validation, conflict, other, M, ◌>>=◌,
  pure, map_err,
}
use agency_bot.Effects.Laws.{Ends, Ends-bind}
use agency_bot.Externals.{Externals}
use agency_bot.Grpc.{
  Refusal, refusal, not_found_code, unauthenticated, permission_denied, invalid_argument,
  already_exists, internal,
}
use agency_bot.User.App.{Service}
use agency_bot.User.Transport.{
  CreateUserRequest, to_status, rpc, authenticate, get_user, get_user_by_telegram_id, list_users,
  create_user, update_user, set_user_permissions, disable_user, enable_user, change_password,
  reset_password, bind_telegram, create_telegram_link, redeem_telegram_link,
}

-- The refusals that tell a client nothing of the database, of the driver or of the passwords.
pub data IsPublic : Refusal → Type 0 where
  is_not_found : IsPublic (refusal not_found_code "not found")
  is_unauthorized : IsPublic (refusal unauthenticated "unauthorized")
  is_forbidden : IsPublic (refusal permission_denied "forbidden")
  is_validation : IsPublic (refusal invalid_argument "validation failed")
  is_conflict : IsPublic (refusal already_exists "conflict")
  is_internal : IsPublic (refusal internal "internal error")

to_status-IsPublic : (e : Err) → IsPublic (to_status e)
unfolding to_status
to_status-IsPublic not_found = is_not_found
to_status-IsPublic forbidden = is_forbidden
to_status-IsPublic unauthorized = is_unauthorized
to_status-IsPublic validation = is_validation
to_status-IsPublic conflict = is_conflict
to_status-IsPublic (other s) = is_internal

-- A call that fails, if it does, with a public refusal.
abbrev pub FailsPublicly : {S A : Type 0} → M S Refusal A → Type 0
FailsPublicly {S} m = (t : S) → Ends (λ _ _. Unit {0}) (λ e _. IsPublic e) (m t)

module _ {S A : Type 0} (m : M S Err A) where
  rpc-FailsPublicly : FailsPublicly (rpc m)
  unfolding map_err
  rpc-FailsPublicly t = go (m t)
    where
      go :
          (r : Result Err A × S)
          → Ends
              (λ _ _. Unit {0})
              (λ e _. IsPublic e)
              (let (x, t') = r in
                elim x as (λ _. Result Refusal A × S) [
                  | ok a ↦ (ok a, t')
                  | err e ↦ (err (to_status e), t')
                ])
      go (ok a, t') = tt
      go (err e, t') = to_status-IsPublic e

  response-FailsPublicly : {B : Type 0} (f : A → B) → FailsPublicly (rpc m >>= λ a. pure (f a))
  response-FailsPublicly f t =
      Ends-bind (λ _ _. Unit {0}) (λ e _. IsPublic e) (λ _ _. Unit {0}) (λ e _. IsPublic e) (rpc m)
        (λ a. pure (f a)) t (rpc-FailsPublicly t) (λ _ _ _. tt) (λ _ _ h. h)

module _ {S : Type 0} (lib : Externals) (app : Service S) where
  -- Whatever the request and the store, a handler of the user service that fails answers one of six
  -- refusals, with a fixed text each.
  pub handlers-FailsPublicly :
      (id a b : String) (n : ℕ) (page_size telegram : ℤ) (r : CreateUserRequest) (ps : List String)
      → FailsPublicly (authenticate lib app a b)
        × FailsPublicly (get_user lib app id)
        × FailsPublicly (get_user_by_telegram_id lib app telegram)
        × FailsPublicly (list_users lib app page_size a)
        × FailsPublicly (create_user lib app r)
        × FailsPublicly (update_user lib app id a)
        × FailsPublicly (set_user_permissions lib app id ps)
        × FailsPublicly (disable_user lib app id)
        × FailsPublicly (enable_user lib app id)
        × FailsPublicly (change_password lib app id a b)
        × FailsPublicly (reset_password lib app id a)
        × FailsPublicly (bind_telegram lib app id telegram)
        × FailsPublicly (create_telegram_link lib app id n)
        × FailsPublicly (redeem_telegram_link lib app a telegram)
  unfolding authenticate get_user get_user_by_telegram_id list_users create_user update_user
      set_user_permissions disable_user enable_user change_password reset_password bind_telegram
      create_telegram_link redeem_telegram_link
  handlers-FailsPublicly id a b n page_size telegram r ps = (
    response-FailsPublicly _ _,
    response-FailsPublicly _ _,
    response-FailsPublicly _ _,
    response-FailsPublicly _ _,
    response-FailsPublicly _ _,
    response-FailsPublicly _ _,
    response-FailsPublicly _ _,
    response-FailsPublicly _ _,
    response-FailsPublicly _ _,
    rpc-FailsPublicly _,
    rpc-FailsPublicly _,
    response-FailsPublicly _ _,
    response-FailsPublicly _ _,
    response-FailsPublicly _ _,
  )
