-- ===== src/Gateway/Logout.antt =====
-- The end of a session, through POST /logout of gateway_service/src/main.cpp.
use wizz_mania.Prelude.{
  ◌≡◌, refl, ap, ◌∙◌, sym, subst, Bool, true, false, List, [], ◌++◌, Option, none, some,
  if◌then◌else◌, if_false,
}
use wizz_mania.Prelude.Text.{Str, codes, empty, str_eq}
use wizz_mania.Prelude.Result.{Result, ok, err}
use wizz_mania.Prelude.Int.{ℤ}
use wizz_mania.Grpc.{Status, success}
use wizz_mania.Sql.{Exec}
use wizz_mania.Auth.Tables as AuthTables
use wizz_mania.Auth.Service.{TokenStatus, token_status, not_valid, validate_token, revoke_tokens}
use wizz_mania.Auth.Quiet.{IsQuiet, with_tables}
use wizz_mania.Auth.Current.{IsCurrent, validate_token-current, revoke_tokens-ends}
use wizz_mania.Auth.Database as AuthDatabase
use wizz_mania.Auth.Sessions.{Call, run}
use wizz_mania.Messaging.Service.{is_ok}
use wizz_mania.Gateway.Http
use wizz_mania.Gateway.Http.{
  Env, HttpRequest, HttpResponse, Gateway, Cloud, reply, refuse, auth_rpc, error_text,
  get_bearer_token, token_verdict, validate_access_token, answer_for, authorized,
}
use wizz_mania.Gateway.Accounts.{logout_route, forbidden_status}
use wizz_mania.Gateway.Routes.{Route, handle}
use wizz_mania.Gateway.Guard.{gateway-bind, missing, past_test, reads_token}
use wizz_mania.Gateway.Revoked.{IsUnauthorized, handle-revoked}

auth_rpc-delivered :
    {A : Type 0} (none_yet : A) (m : Exec AuthTables.Tables (Status × A)) (c : Cloud)
    (r : Status × A) (d : AuthDatabase.Db)
    → c.links ≡ []
    → m c.auth ≡ (ok r, d)
    → auth_rpc none_yet m c ≡ (ok r, record c { auth = d })
unfolding auth_rpc
auth_rpc-delivered none_yet m c r d linked e = rw (linked, e) refl

-- A call that is not lost, for a token of a current session, is let through.
pub validate_access_token-current :
    (env : Env) (req : HttpRequest) (uid : ℤ) (c : Cloud)
    → c.links ≡ []
    → IsQuiet c.auth
    → empty (get_bearer_token req) ≡ false
    → IsCurrent (env.manager.decode_token (get_bearer_token req)) uid c.auth.tables
    → validate_access_token env req c
      ≡ (ok (ok (token_status (env.manager.decode_token (get_bearer_token req)) true)), c)
unfolding validate_access_token token_verdict
validate_access_token-current env req uid c linked q there h =
    let token = get_bearer_token req in
    let told = token_status (env.manager.decode_token token) true in
    past_test (empty token) (reply (err missing)) (Http.◌>>=◌ call tell) c (ok (ok told), c)
      (rw there refl)
      (gateway-bind call tell c c (success, told)
        (auth_rpc-delivered not_valid (validate_token env.manager token) c (success, told) c.auth
          linked (validate_token-current env.manager token uid c.auth q h)))
  where
    call : Gateway (Status × TokenStatus)
    call = auth_rpc not_valid (validate_token env.manager (get_bearer_token req))

    tell : Status × TokenStatus → Gateway (Result Str TokenStatus)
    tell r = reply (token_verdict r)

-- Where no call of it is lost and the authentication database is quiet: POST /logout with an
-- access token of the current session of its user answers 200; and from then on every request with
-- that token to a route that reads one is answered 401 and leaves the messaging service alone,
-- whatever methods the handlers of sessions call in between.
pub logout_route-ends :
    (route : Route) (env : Env) (req : HttpRequest) (value : Str) (uid : ℤ) (cs : List Call)
    (c : Cloud)
    → c.links ≡ []
    → IsQuiet c.auth
    → req.authorization ≡ some value
    → empty (get_bearer_token req) ≡ false
    → str_eq (env.manager.decode_token (get_bearer_token req)).token_type (codes "access") ≡ true
    → empty (env.manager.decode_token (get_bearer_token req)).user_id ≡ false
    → IsCurrent (env.manager.decode_token (get_bearer_token req)) uid c.auth.tables
    → reads_token route req ≡ true
    → ((logout_route env req c).0 ≡ ok (record { status = 200; body = codes "{\"success\":true}" }))
      × IsUnauthorized
          (handle route env req)
          (record (logout_route env req c).1 { auth = run cs (logout_route env req c).1.auth })
unfolding logout_route authorized answer_for
logout_route-ends route env req value uid cs c linked q has there access subject h reads =
    let token = get_bearer_token req in
    let info = env.manager.decode_token token in
    let (after, ends, revoked, gone) =
      revoke_tokens-ends env.manager token uid c.auth q there access subject h in
    let done =
      gateway-bind (validate_access_token env req) (answer_for revoke) c c
        (ok (token_status info true)) (validate_access_token-current env req uid c linked q there h)
      ∙ gateway-bind (auth_rpc false (revoke_tokens env.manager header info.user_id)) respond c
          (record c { auth = with_tables after c.auth }) (success, true)
          (auth_rpc-delivered false (revoke_tokens env.manager header info.user_id) c
            (success, true) (with_tables after c.auth) linked
            (ap (λ o. revoke_tokens env.manager o info.user_id c.auth)
                (if_false (empty token) none (some (codes "Bearer " ++ token)) there)
              ∙ ends)) in
    (
      ap (λ r. r.0) done,
      subst (λ x. IsUnauthorized (handle route env req) (record x { auth = run cs x.auth }))
          (sym (ap (λ r. r.1) done))
          (handle-revoked route env req value cs (record c { auth = with_tables after c.auth })
            reads has h.named revoked),
    )
  where
    respond : Status × Bool → Gateway HttpResponse
    respond r =
        if is_ok r.0
        then reply (record { status = 200; body = codes "{\"success\":true}" })
        else reply (refuse (forbidden_status r.0.code) (error_text (codes "RevokeTokens") r.0))

    header : Option Str
    header =
        if empty (get_bearer_token req)
        then none
        else some (codes "Bearer " ++ get_bearer_token req)

    revoke : TokenStatus → Gateway HttpResponse
    revoke caller =
        Http.◌>>=◌ (auth_rpc false (revoke_tokens env.manager header caller.user_id)) respond
