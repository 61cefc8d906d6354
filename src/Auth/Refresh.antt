-- ===== src/Auth/Refresh.antt =====
-- `RefreshToken` of auth_service/src/service/AuthServiceImpl.cpp.
use wizz_mania.Prelude.{ℕ, Bool, false, ◌&&◌, not, [], Option, none, some, if◌then◌else◌}
use wizz_mania.Prelude.Text.{Str, codes, empty, str_eq}
use wizz_mania.Prelude.Int.{ℤ}
use wizz_mania.Number.{parse_int, to_string}
use wizz_mania.Sql.{Exec}
use wizz_mania.Grpc.{
  Status, success, failed, invalid_argument, not_found, unauthenticated, internal,
}
use wizz_mania.Auth.Tables.{Tables}
use wizz_mania.Auth.Roles.{get_user_permissions}
use wizz_mania.Auth.Database.{UserRecord, get_user_by_id, get_user_token_jti, is_token_revoked}
use wizz_mania.Auth.Service.{◌>>=◌, AuthManager, TokenInfo, reply, caught}

pub record RefreshResponse : Type 0 where
  pub access_token : Str
  pub expires_in : ℕ

abbrev pub no_refresh : RefreshResponse
no_refresh = record { access_token = []; expires_in = 0 }

-- The end of `RefreshToken`, for a token whose session holds.
unfoldable pub renew :
    AuthManager → Str → Option UserRecord → Exec Tables (Status × RefreshResponse)
unfolding get_user_permissions
renew manager jti none = reply (failed not_found "User not found", no_refresh)
renew manager jti (some user) = get_user_permissions user.id >>= λ permissions.
    let access =
      manager.generate_access_token (to_string user.id) user.email user.role_name permissions jti
        3600 in
    if empty access
    then reply (failed internal "Failed to generate access token", no_refresh)
    else reply (success, record { access_token = access; expires_in = 3600 })

abbrev pub is_current : Str → Option Str → Bool
is_current jti none = false
is_current jti (some current) = not (empty current) && str_eq current jti

unfoldable pub refresh_session :
    AuthManager → TokenInfo → ℤ → Exec Tables (Status × RefreshResponse)
unfolding is_token_revoked get_user_token_jti get_user_by_id renew
refresh_session manager info uid = is_token_revoked info.jti >>= λ revoked.
    if revoked
    then reply (failed unauthenticated "Refresh token revoked", no_refresh)
    else (get_user_token_jti uid >>= λ current.
        if is_current info.jti current
        then get_user_by_id uid >>= renew manager info.jti
        else reply (failed unauthenticated "Stale refresh token", no_refresh))

unfoldable pub refresh_token : AuthManager → Str → Exec Tables (Status × RefreshResponse)
unfolding caught refresh_session
refresh_token manager token =
    let info = manager.decode_token token in
    if empty token
    then reply (failed invalid_argument "Missing refresh_token", no_refresh)
    else if not info.valid
    then reply (failed unauthenticated "Invalid refresh token", no_refresh)
    else if not (str_eq info.token_type (codes "refresh"))
    then reply (failed unauthenticated "Not a refresh token", no_refresh)
    else elim (parse_int info.user_id) [
      | none ↦ reply (failed unauthenticated "Invalid subject", no_refresh)
      | some uid ↦
          if empty info.jti
          then reply (failed unauthenticated "Missing jti", no_refresh)
          else caught no_refresh (refresh_session manager info uid)
    ]
