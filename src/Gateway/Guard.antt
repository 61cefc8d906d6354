-- ===== src/Gateway/Guard.antt =====
-- Who is let through by the routes of gateway_service/src/main.cpp.
use wizz_mania.Prelude.{
  ◌≡◌, ap, sym, subst, Bool, true, false, ◌&&◌, not, none, some, if◌then◌else◌, if_true, Option,
}
use wizz_mania.Prelude.Text.{Str, codes, empty}
use wizz_mania.Prelude.Result.{Result, ok, err}
use wizz_mania.Grpc.{Stop}
use wizz_mania.Auth.Service.{TokenStatus}
use wizz_mania.Gateway.Http
use wizz_mania.Gateway.Http.{
  Env, HttpRequest, HttpResponse, Gateway, Cloud, LinkFault, reply, refuse, lost_status, escaped,
  auth_answer, auth_rpc, get_bearer_token, token_verdict, validate_access_token, answer_for,
  authorized,
}
use wizz_mania.Gateway.Accounts.{me, users, delete_user_route, logout_route, register_route}
use wizz_mania.Gateway.Conversations.{optional_caller, answer_if, post_message_route}
use wizz_mania.Gateway.Rooms.{rooms_route, create_room_route, delete_room_route}
use wizz_mania.Gateway.Routes.{
  Route, get_health, post_login, post_refresh, get_conversations, get_messages, post_messages,
  protected, Protected, get_me, get_users, post_logout, post_register, get_rooms, post_rooms,
  delete_users, delete_rooms, handle_protected, handle,
}

pub gateway-bind :
    {A B : Type 0} (m : Gateway A) (f : A → Gateway B) (c c' : Cloud) (a : A)
    → m c ≡ (ok a, c')
    → Http.◌>>=◌ m f c ≡ f a c'
gateway-bind m f c c' a e = ap (λ r. Http.◌>>=◌ (λ c. r) f c) e

authorized-refused :
    (env : Env) (req : HttpRequest) (k : TokenStatus → Gateway HttpResponse) (c later : Cloud)
    (text : Str)
    → validate_access_token env req c ≡ (ok (err text), later)
    → authorized env req k c ≡ (ok (refuse 401 text), later)
unfolding authorized answer_for
authorized-refused env req k c later text h =
    gateway-bind (validate_access_token env req) (answer_for k) c later (err text) h

handle_protected-refused :
    (p : Protected) (env : Env) (req : HttpRequest) (c later : Cloud) (text : Str)
    → validate_access_token env req c ≡ (ok (err text), later)
    → handle_protected p env req c ≡ (ok (refuse 401 text), later)
unfolding handle_protected me users logout_route register_route rooms_route create_room_route
    delete_user_route delete_room_route
handle_protected-refused get_me env req c later text h = authorized-refused env req _ c later text h
handle_protected-refused get_users env req c later text h =
    authorized-refused env req _ c later text h
handle_protected-refused post_logout env req c later text h =
    authorized-refused env req _ c later text h
handle_protected-refused post_register env req c later text h =
    authorized-refused env req _ c later text h
handle_protected-refused get_rooms env req c later text h =
    authorized-refused env req _ c later text h
handle_protected-refused post_rooms env req c later text h =
    authorized-refused env req _ c later text h
handle_protected-refused (delete_users id) env req c later text h =
    authorized-refused env req _ c later text h
handle_protected-refused (delete_rooms id) env req c later text h =
    authorized-refused env req _ c later text h

-- `optional_caller`, by the header.
abbrev pub known : Result Str TokenStatus → Result Str (Option TokenStatus)
known r = elim r [ ok caller ↦ ok (some caller) | err text ↦ err text ]

abbrev pub caller_in : Env → HttpRequest → Option Str → Gateway (Result Str (Option TokenStatus))
caller_in env req o = elim o [
  | none ↦ reply (ok none)
  | some value ↦ Http.◌>>=◌ (validate_access_token env req) λ r. reply (known r)
]

pub optional_caller-refused :
    (env : Env) (req : HttpRequest) (k : Option TokenStatus → Gateway HttpResponse) (value : Str)
    (c later : Cloud) (text : Str)
    → req.authorization ≡ some value
    → validate_access_token env req c ≡ (ok (err text), later)
    → Http.◌>>=◌ (optional_caller env req) (answer_if k) c ≡ (ok (refuse 401 text), later)
unfolding answer_if optional_caller
optional_caller-refused env req k value c later text there h =
    gateway-bind (optional_caller env req) (answer_if k) c later (err text) (
      subst (λ o. caller_in env req o c ≡ (ok (err text), later)) (sym there)
        (gateway-bind (validate_access_token env req) (λ r. reply (known r)) c later (err text) h))

-- The requests to which a route answers by the caller's token: without one, or with a refused one,
-- it goes no further.
unfoldable pub needs_token : Route → HttpRequest → Bool
needs_token (protected p) req = true
needs_token (post_messages id time) req = not (empty id) && not (empty req.body)
needs_token _ req = false

unfoldable pub reads_token : Route → HttpRequest → Bool
unfolding needs_token
reads_token get_conversations req = true
reads_token (get_messages id) req = not (empty id)
reads_token route req = needs_token route req

-- A test that fails.
pub past_test :
    {A : Type 0} (b : Bool) (x m : Gateway A) (c : Cloud) (r : Result Stop A × Cloud)
    → not b ≡ true
    → m c ≡ r
    → (if b then x else m) c ≡ r
past_test true x m c r n h = cc n
past_test false x m c r n h = h

past_tests :
    (b d : Bool) (x y m : Gateway HttpResponse) (c : Cloud) (r : Result Stop HttpResponse × Cloud)
    → (not b && not d) ≡ true
    → m c ≡ r
    → (if b then x else if d then y else m) c ≡ r
past_tests true d x y m c r n h = cc n
past_tests false d x y m c r n h = past_test d y m c r n h

pub handle-refused :
    (route : Route) (env : Env) (req : HttpRequest) (c later : Cloud) (text : Str)
    → needs_token route req ≡ true
    → validate_access_token env req c ≡ (ok (err text), later)
    → handle route env req c ≡ (ok (refuse 401 text), later)
unfolding handle needs_token post_message_route
handle-refused (protected p) env req c later text n h =
    handle_protected-refused p env req c later text h
handle-refused (post_messages id time) env req c later text n h =
    past_tests (empty id) (empty req.body) _ _ _ c (ok (refuse 401 text), later) n
      (authorized-refused env req _ c later text h)
handle-refused get_health env req c later text n h = cc n
handle-refused post_refresh env req c later text n h = cc n
handle-refused get_conversations env req c later text n h = cc n
handle-refused (post_login random) env req c later text n h = cc n
handle-refused (get_messages id) env req c later text n h = cc n

abbrev pub missing : Str
missing = codes "Missing Authorization: Bearer <token>"

pub validate_access_token-missing :
    (env : Env) (req : HttpRequest) (c : Cloud)
    → empty (get_bearer_token req) ≡ true
    → validate_access_token env req c ≡ (ok (err missing), c)
unfolding validate_access_token
validate_access_token-missing env req c none_there =
    ap (λ f. f c) (if_true (empty (get_bearer_token req)) (reply (err missing)) _ none_there)

-- Without a token of a bearer, every route of `Protected`, and POST /conversations/:id/messages where
-- the id and the body are not empty, answers 401 and changes nothing in either service.
pub handle-missing :
    (route : Route) (env : Env) (req : HttpRequest) (c : Cloud)
    → needs_token route req ≡ true
    → empty (get_bearer_token req) ≡ true
    → handle route env req c ≡ (ok (refuse 401 missing), c)
handle-missing route env req c n none_there =
    handle-refused route env req c c missing n (validate_access_token-missing env req c none_there)
