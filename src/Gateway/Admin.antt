-- ===== src/Gateway/Admin.antt =====
-- What the routes of gateway_service/src/main.cpp that are for admins do for other callers.
use wizz_mania.Prelude.{
  ℕ, ◌==◌, ◌≡◌, refl, ap, ◌∙◌, Bool, true, false, ◌&&◌, ◌||◌, List, [], ◌∷◌, Option, none, some,
  if◌then◌else◌, if_false, any,
}
use wizz_mania.Prelude.Text.{Str, codes, empty, str_eq}
use wizz_mania.Prelude.Result.{Result}
use wizz_mania.Grpc.{
  Stop, Status, StatusCode, permission_denied, deadline_exceeded, unavailable, status_ok,
}
use wizz_mania.Sql.{Exn, Exec}
use wizz_mania.Auth.Database as AuthDatabase
use wizz_mania.Auth.Tables as AuthTables
use wizz_mania.Auth.Service.{AuthManager}
use wizz_mania.Auth.Admin.{
  RegisterRequest, Outcome, not_done, validate_admin_token, register_user_rpc,
}
use wizz_mania.Auth.Guard.{register_user_rpc-IsDenied}
use wizz_mania.Messaging.Service.{is_ok}
use wizz_mania.Gateway.Users.{following, account_rpc}
use wizz_mania.Gateway.Cascade.{follow_users-same}
use wizz_mania.Gateway.Http
use wizz_mania.Gateway.Http.{
  Env, HttpRequest, HttpResponse, Gateway, Cloud, LinkFault, NewAccount, reply, refuse, lost_status,
  escaped, auth_answer, auth_rpc, get_bearer_token, token_verdict, validate_access_token,
  answer_for, authorized, with_body, set_proto_json, outcome,
}
use wizz_mania.Gateway.Accounts.{delete_user_route, register_route, forbidden_status}
use wizz_mania.Gateway.Rooms.{create_room_route, delete_room_route}
use wizz_mania.Gateway.Routes.{
  Protected, get_me, get_users, post_logout, post_register, get_rooms, post_rooms, delete_users,
  delete_rooms, protected, handle, handle_protected,
}
use wizz_mania.Gateway.Guard.{gateway-bind}
use wizz_mania.Gateway.Outsider.{IsCall, auth_rpc-IsCall}
use wizz_mania.Gateway.Barred.{
  IsBarred, reply-IsBarred, behind-IsBarred, if-IsBarred, authorized-IsBarred, gate-IsBarred,
}

-- The statuses that POST /register has for one who is no admin.
abbrev at_register : List ℕ
at_register = 400 ∷ 401 ∷ 403 ∷ 502 ∷ []

forbidden_status-at_register :
    (code : StatusCode) → any (λ n. n == forbidden_status code) at_register ≡ true
unfolding forbidden_status
forbidden_status-at_register permission_denied = refl
forbidden_status-at_register _ = refl

lost_status-refused : (f : LinkFault) → is_ok (lost_status f) ≡ false
lost_status-refused f = either f.timed_out
  where
    either :
        (b : Bool)
        → is_ok
            (record { code = if b then deadline_exceeded else unavailable; message = f.message })
          ≡ false
    either true = refl
    either false = refl

is_ok-denied : (st : Status) → st.code ≡ permission_denied → is_ok st ≡ false
is_ok-denied st h = ap (λ (c : StatusCode). elim c [ status_ok ↦ true | _ ↦ false ]) h

validate_admin_token-outsider :
    (manager : AuthManager) (token : Str)
    → str_eq (manager.decode_token token).role (codes "admin") ≡ false
    → validate_admin_token manager token ≡ false
unfolding validate_admin_token
validate_admin_token-outsider manager token other =
    ap (λ b. (manager.decode_token token).valid && b) other
    ∙ either (manager.decode_token token).valid
  where
    either : (b : Bool) → (b && false) ≡ false
    either true = refl
    either false = refl

account_rpc-IsCall :
    {A : Type 0} (Q : Status × A → Type 0) (none_yet : A) (m : Exec AuthTables.Tables (Status × A))
    (c : Cloud)
    → IsCall Q (auth_rpc none_yet m) c
    → IsCall Q (account_rpc none_yet m) c
unfolding account_rpc
account_rpc-IsCall {A = A} Q none_yet m c n = record {
  answer = n.answer;
  later = following c n.later;
  answers = ap (λ (r : Result Stop (Status × A) × Cloud). (r.0, following c r.1)) n.answers;
  says = n.says;
  unchanged = record {
    accounts = n.unchanged.accounts;
    messaging =
        ap (λ t. record n.later.messaging { db = record n.later.messaging.db { tables = t } })
          (follow_users-same c.auth.tables n.later.auth.tables n.later.messaging.db.tables
            n.unchanged.accounts)
        ∙ n.unchanged.messaging;
  };
}

-- The call of `RegisterUser` with the token of one who is no admin.
register_user_rpc-IsCall :
    (env : Env) (req : RegisterRequest) (c : Cloud)
    → str_eq (env.manager.decode_token req.admin_token).role (codes "admin") ≡ false
    → IsCall
        (λ r. is_ok r.0 ≡ false)
        (account_rpc (not_done "") (register_user_rpc env.manager env.hasher req))
        c
unfolding auth_answer
register_user_rpc-IsCall env req c other =
    let (r, e, code) =
      register_user_rpc-IsDenied env.manager env.hasher req c.auth (empty req.admin_token) false
        (either_way (empty req.admin_token)) refl
        (validate_admin_token-outsider env.manager req.admin_token other) in
    account_rpc-IsCall (λ r. is_ok r.0 ≡ false) (not_done "")
      (register_user_rpc env.manager env.hasher req) c
      (auth_rpc-IsCall (λ r. is_ok r.0 ≡ false) (not_done "")
        (register_user_rpc env.manager env.hasher req) c
        (ap
            (λ (a : Result Exn (Status × Outcome) × AuthDatabase.Db).
              is_ok (auth_answer (not_done "") a.0).0)
            e
          ∙ is_ok-denied r.0 code)
        lost_status-refused (ap (λ a. a.1.tables) e))
  where
    either_way : (b : Bool) → (b || true) ≡ true
    either_way true = refl
    either_way false = refl

abbrev registered_as : Env → Status × Outcome → Gateway HttpResponse
registered_as env r =
    if is_ok r.0
    then reply (set_proto_json env.json 200 (outcome r.1))
    else reply (refuse (forbidden_status r.0.code) (codes r.0.message))

abbrev register_with : Env → RegisterRequest → Gateway HttpResponse
register_with env rreq =
    Http.◌>>=◌ (account_rpc (not_done "") (register_user_rpc env.manager env.hasher rreq))
      (registered_as env)

registered_as-IsBarred :
    (env : Env) (r : Status × Outcome) (c : Cloud)
    → is_ok r.0 ≡ false
    → IsBarred at_register (registered_as env r) c
registered_as-IsBarred env r c h =
    behind-IsBarred at_register _ (reply answer) c c
      (ap (λ (f : Gateway HttpResponse). f c)
        (if_false (is_ok r.0) (reply (set_proto_json env.json 200 (outcome r.1))) (reply answer) h))
      (record { accounts = refl; messaging = refl })
      (reply-IsBarred at_register answer c (forbidden_status-at_register r.0.code))
  where
    answer : HttpResponse
    answer = refuse (forbidden_status r.0.code) (codes r.0.message)

register_with-IsBarred :
    (env : Env) (rreq : RegisterRequest) (c : Cloud)
    → str_eq (env.manager.decode_token rreq.admin_token).role (codes "admin") ≡ false
    → IsBarred at_register (register_with env rreq) c
register_with-IsBarred env rreq c other =
    let n = register_user_rpc-IsCall env rreq c other in
    behind-IsBarred at_register (register_with env rreq) (registered_as env n.answer) c n.later
      (gateway-bind (account_rpc (not_done "") (register_user_rpc env.manager env.hasher rreq))
        (registered_as env) c n.later n.answer n.answers)
      n.unchanged (registered_as-IsBarred env n.answer n.later n.says)

register_route-IsBarred :
    (env : Env) (req : HttpRequest) (c : Cloud)
    → str_eq (env.manager.decode_token (get_bearer_token req)).role (codes "admin") ≡ false
    → IsBarred at_register (register_route env req) c
unfolding register_route with_body
register_route-IsBarred env req c other =
    authorized-IsBarred at_register env req _ c other refl λ caller c1 h.
      if-IsBarred at_register (empty req.body) _ _ c1 (reply-IsBarred at_register _ c1 refl)
        (parsed (env.json.parse_register req.body) c1)
  where
    request : NewAccount → RegisterRequest
    request account = record {
      admin_token = get_bearer_token req;
      full_name = account.full_name;
      email = account.email;
      password = account.password;
      role_name = account.role_name;
    }

    parsed :
        (o : Option NewAccount) (c1 : Cloud)
        → IsBarred at_register
            (elim o [
              | none ↦ reply (refuse 400 (codes "Invalid JSON payload"))
              | some account ↦ register_with env (request account)
            ])
            c1
    parsed none c1 = reply-IsBarred at_register _ c1 refl
    parsed (some account) c1 = register_with-IsBarred env (request account) c1 other

-- The routes that only an admin may call.
unfoldable pub for_admins : Protected → Bool
for_admins post_register = true
for_admins post_rooms = true
for_admins (delete_users id) = true
for_admins (delete_rooms id) = true
for_admins _ = false

-- The statuses that they have for others.
unfoldable pub refusals : Protected → List ℕ
refusals post_register = 400 ∷ 401 ∷ 403 ∷ 502 ∷ []
refusals _ = 401 ∷ 403 ∷ []

-- POST /register, POST /rooms, DELETE /users/:id and DELETE /rooms/:roomId do nothing for a request
-- whose bearer token does not have the role "admin", valid or not: the answer's status is 401 or 403
-- (at POST /register also 400, for its body, or 502, for a call that is lost), the tables of the
-- authentication service are as they were, and so is the messaging service, whatever the rest of the
-- request says and whatever the network and the database do.
pub handle-IsBarred :
    (p : Protected) (env : Env) (req : HttpRequest) (c : Cloud)
    → for_admins p ≡ true
    → str_eq (env.manager.decode_token (get_bearer_token req)).role (codes "admin") ≡ false
    → IsBarred (refusals p) (handle (protected p) env req) c
unfolding handle handle_protected for_admins refusals delete_user_route create_room_route
    delete_room_route
handle-IsBarred post_register env req c n other = register_route-IsBarred env req c other
handle-IsBarred post_rooms env req c n other = gate-IsBarred env req _ c other
handle-IsBarred (delete_users id) env req c n other = gate-IsBarred env req _ c other
handle-IsBarred (delete_rooms id) env req c n other = gate-IsBarred env req _ c other
handle-IsBarred get_me env req c n other = cc n
handle-IsBarred get_users env req c n other = cc n
handle-IsBarred post_logout env req c n other = cc n
handle-IsBarred get_rooms env req c n other = cc n
