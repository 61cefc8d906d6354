-- ===== src/Gateway/Accounts.antt =====
-- The routes of gateway_service/src/main.cpp for accounts and sessions. `random` is what
-- `random_hex` yields in the authentication service.
use wizz_mania.Prelude.{ℕ, false, not, [], ◌++◌, none, some, if◌then◌else◌}
use wizz_mania.Prelude.Text.{Str, codes, empty, str_eq}
use wizz_mania.Grpc.{StatusCode, invalid_argument, not_found, permission_denied, unauthenticated}
use wizz_mania.Auth.Service.{no_login, login, revoke_tokens}
use wizz_mania.Auth.Refresh.{no_refresh, refresh_token}
use wizz_mania.Auth.Admin.{
  RegisterRequest, not_done, list_users_rpc, delete_user_rpc, register_user_rpc,
}
use wizz_mania.Messaging.Service.{is_ok}
use wizz_mania.Gateway.Users.{account_rpc}
use wizz_mania.Gateway.Http.{
  HttpRequest, HttpResponse, Env, Gateway, ◌>>=◌, reply, refuse, token_status, user_list, outcome,
  login_response, refresh_response, get_bearer_token, authorized, with_body, auth_rpc,
  set_proto_json, error_text,
}

-- GET /health
unfoldable pub health : Gateway HttpResponse
health = reply (record { status = 200; body = codes "{\"ok\":true}" })

-- GET /me
unfoldable pub me : Env → HttpRequest → Gateway HttpResponse
unfolding authorized set_proto_json
me env req = authorized env req λ caller. reply (set_proto_json env.json 200 (token_status caller))

-- GET /users
unfoldable pub users : Env → HttpRequest → Gateway HttpResponse
unfolding authorized auth_rpc set_proto_json
users env req = authorized env req λ caller.
    auth_rpc [] (list_users_rpc env.before env.manager (get_bearer_token req) false) >>= λ r.
    if is_ok r.0
    then reply (set_proto_json env.json 200 (user_list r.1))
    else reply (refuse 502 (codes r.0.message))

-- The HTTP status for a code, in `DELETE /users/:id` and in `POST /login`.
unfoldable pub account_status : StatusCode → ℕ
account_status invalid_argument = 400
account_status not_found = 404
account_status permission_denied = 403
account_status unauthenticated = 401
account_status _ = 502

-- DELETE /users/:id
unfoldable pub delete_user_route : Str → Env → HttpRequest → Gateway HttpResponse
unfolding authorized account_rpc set_proto_json account_status error_text
delete_user_route id env req = authorized env req λ caller.
    if not (str_eq caller.role (codes "admin"))
    then reply (refuse 403 (codes "Admin required"))
    else if empty id
    then reply (refuse 400 (codes "Missing user id"))
    else (account_rpc (not_done "") (delete_user_rpc env.manager (get_bearer_token req) id) >>= λ r.
        if is_ok r.0
        then reply (set_proto_json env.json 200 (outcome r.1))
        else reply (refuse (account_status r.0.code) (error_text (codes "DeleteUser") r.0)))

-- POST /login
unfoldable pub login_route : Str → Env → HttpRequest → Gateway HttpResponse
unfolding with_body auth_rpc set_proto_json account_status error_text
login_route random env req = with_body env.json.parse_login req λ c.
    auth_rpc no_login (login env.manager env.hasher random c.username c.password) >>= λ r.
    if is_ok r.0
    then reply (set_proto_json env.json 200 (login_response r.1))
    else reply (refuse (account_status r.0.code) (error_text (codes "Login") r.0))

unfoldable pub refresh_status : StatusCode → ℕ
refresh_status unauthenticated = 401
refresh_status _ = 502

-- POST /refresh
unfoldable pub refresh_route : Env → HttpRequest → Gateway HttpResponse
unfolding with_body auth_rpc set_proto_json refresh_status error_text
refresh_route env req = with_body env.json.parse_refresh req λ token.
    auth_rpc no_refresh (refresh_token env.manager token) >>= λ r.
    if is_ok r.0
    then reply (set_proto_json env.json 200 (refresh_response r.1))
    else reply (refuse (refresh_status r.0.code) (error_text (codes "RefreshToken") r.0))

-- The status for a code in `POST /logout` and in `POST /register`.
unfoldable pub forbidden_status : StatusCode → ℕ
forbidden_status permission_denied = 403
forbidden_status _ = 502

-- POST /logout
unfoldable pub logout_route : Env → HttpRequest → Gateway HttpResponse
unfolding authorized auth_rpc forbidden_status error_text
logout_route env req = authorized env req λ caller.
    let bearer = get_bearer_token req in
    let header = if empty bearer then none else some (codes "Bearer " ++ bearer) in
    auth_rpc false (revoke_tokens env.manager header caller.user_id) >>= λ r.
    if is_ok r.0
    then reply (record { status = 200; body = codes "{\"success\":true}" })
    else reply (refuse (forbidden_status r.0.code) (error_text (codes "RevokeTokens") r.0))

-- POST /register
unfoldable pub register_route : Env → HttpRequest → Gateway HttpResponse
unfolding authorized with_body account_rpc set_proto_json forbidden_status
register_route env req = authorized env req λ caller.
    with_body env.json.parse_register req λ account.
      let rreq : RegisterRequest = record {
        admin_token = get_bearer_token req;
        full_name = account.full_name;
        email = account.email;
        password = account.password;
        role_name = account.role_name;
      } in
      account_rpc (not_done "") (register_user_rpc env.manager env.hasher rreq) >>= λ r.
      if is_ok r.0
      then reply (set_proto_json env.json 200 (outcome r.1))
      else reply (refuse (forbidden_status r.0.code) (codes r.0.message))
