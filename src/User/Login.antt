-- ===== src/User/Login.antt =====
-- Who may log in, by `Authenticate` of internal/user/app/service.go, for any store.
use agency_bot.Base.{◌≡◌, String, true, arith}
use agency_bot.Effects.{ok, unauthorized, ◌>>=◌, guard, map_err}
use agency_bot.Effects.Laws.{Ends}
use agency_bot.User.App.{Service, authenticate}

-- Authenticate answers a user only if that is the user whom the store has under the login, who is
-- active and whose password hash the given password matches. Whatever else happens, be it an unknown
-- login, a disabled user or a wrong password, the error is the same.
pub authenticate-Ends :
    {S : Type 0} (s : Service S) (login raw : String) (t : S)
    → Ends
        (λ u t'.
          (s.store.by_login login t ≡ (ok u, t'))
          × (u.is_active ≡ true)
          × (s.passwords.verify raw u.password_hash ≡ true))
        (λ e _. e ≡ unauthorized)
        (authenticate s login raw t)
unfolding authenticate guard map_err ◌>>=◌
authenticate-Ends s login raw t = ground arith
