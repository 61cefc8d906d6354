-- ===== src/Gateway/Http.antt =====
-- What the routes of gateway_service/src/main.cpp share: requests and responses, `json_error`,
-- `get_bearer_token`, `validate_access_token`, and the calls of the two services. A call reaches the
-- service as it is modelled; `links` has an entry for each call, for what the network does to it.
-- An exception that leaves a handler is a status UNKNOWN, as gRPC makes it. httplib and the
-- conversion of JSON are third-party code: a request is what httplib hands over, and `Json` a record
-- of the conversions. Texts of statuses are ASCII.
use wizz_mania.Prelude.{ℕ, not, [], ◌++◌, length, leb, Option, none, some, if◌then◌else◌}
use wizz_mania.Prelude.Text.{Str, codes, empty, strip_prefix}
use wizz_mania.Prelude.Result.{Result, ok, err}
use wizz_mania.Prelude.Int.{pos}
use wizz_mania.Number.{to_string}
use wizz_mania.Sql.{Exec, Exn, next_event, later_events}
use wizz_mania.Grpc.{
  Status, StatusCode, failed, status_ok, invalid_argument, not_found, already_exists,
  permission_denied, unauthenticated, unimplemented, unavailable, deadline_exceeded, internal,
  unknown, Stop, thrown, dangling,
}
use wizz_mania.Auth.Tables as AuthTables
use wizz_mania.Auth.Service.{TokenStatus, not_valid, validate_token}
use wizz_mania.Messaging.Service.{Handler, is_ok}
pub use wizz_mania.Gateway.Types.{
  HttpRequest, HttpResponse, ConversationEntry, MessageEntry, RoomEntry, Message, Credentials,
  NewAccount, NewRoom, Json, LinkFault, Env, Cloud, token_status, user_list, outcome,
  login_response, refresh_response, conversation_list, message_list, send_ack, room_list,
  room_response,
}

abbrev pub Gateway : Type 0 → Type 0
Gateway A = Cloud → Result Stop A × Cloud

abbrev pub reply : {A : Type 0} → A → Gateway A
reply a c = (ok a, c)

infixl 5 ◌>>=◌
abbrev pub ◌>>=◌ : {A B : Type 0} → Gateway A → (A → Gateway B) → Gateway B
◌>>=◌ m f c = let (r, c') = m c in elim r [ ok a ↦ f a c' | err e ↦ (err e, c') ]

abbrev pub lost_status : LinkFault → Status
lost_status f = failed (if f.timed_out then deadline_exceeded else unavailable) f.message

abbrev pub escaped : Status
escaped = failed unknown "Unexpected error in RPC handling"

-- What the client of an RPC receives.
unfoldable pub auth_answer : {A : Type 0} → A → Result Exn (Status × A) → Status × A
auth_answer none_yet (ok r) = r
auth_answer none_yet (err e) = (escaped, none_yet)

unfoldable pub auth_rpc :
    {A : Type 0} → A → Exec AuthTables.Tables (Status × A) → Gateway (Status × A)
unfolding auth_answer
auth_rpc none_yet m c =
    let (r, d) = m c.auth in
    let rest = later_events c.links in
    elim (next_event c.links) [
      | none ↦ (ok (auth_answer none_yet r), record c { auth = d; links = rest })
      | some f ↦ (
        ok (lost_status f, none_yet),
        record c { auth = if f.delivered then d else c.auth; links = rest },
      )
    ]

-- A handler that reads an object that is gone takes the system down: nothing is known from then on.
unfoldable pub messaging_answer :
    {A : Type 0} → A → Result Stop (Status × A) → Result Stop (Status × A)
messaging_answer none_yet (ok r) = ok r
messaging_answer none_yet (err (thrown e)) = ok (escaped, none_yet)
messaging_answer none_yet (err dangling) = err dangling

unfoldable pub messaging_rpc : {A : Type 0} → A → Handler (Status × A) → Gateway (Status × A)
unfolding messaging_answer
messaging_rpc none_yet m c =
    let (r, s) = m c.messaging in
    let rest = later_events c.links in
    elim (next_event c.links) [
      | none ↦ (messaging_answer none_yet r, record c { messaging = s; links = rest })
      | some f ↦ (
        ok (lost_status f, none_yet),
        record c { messaging = if f.delivered then s else c.messaging; links = rest },
      )
    ]

-- The values of `grpc::StatusCode`.
unfoldable pub code_number : StatusCode → ℕ
code_number status_ok = 0
code_number unknown = 2
code_number invalid_argument = 3
code_number deadline_exceeded = 4
code_number not_found = 5
code_number already_exists = 6
code_number permission_denied = 7
code_number unimplemented = 12
code_number internal = 13
code_number unavailable = 14
code_number unauthenticated = 16

-- The text of a status, or "gRPC <method> failed (code=<n>)" where it has none.
unfoldable pub error_text : Str → Status → Str
unfolding code_number
error_text method st =
    let text = codes st.message in
    if empty text
    then codes "gRPC "
      ++ (method
          ++ (codes " failed (code=" ++ (to_string (pos (code_number st.code)) ++ codes ")")))
    else text

unfoldable pub json_error : Str → Str
json_error message = codes "{\"success\":false,\"message\":\"" ++ (message ++ codes "\"}")

abbrev pub refuse : ℕ → Str → HttpResponse
refuse status message = record { status = status; body = json_error message }

unfoldable pub set_proto_json : Json → ℕ → Message → HttpResponse
unfolding json_error
set_proto_json json status message = elim (json.print message) [
  | none ↦ refuse 500 (codes "Failed to serialize response")
  | some text ↦ record { status = status; body = text }
]

unfoldable pub get_bearer_token : HttpRequest → Str
unfolding strip_prefix
get_bearer_token req = elim req.authorization [
  | none ↦ []
  | some value ↦
      if leb (length value) 7
      then []
      else elim (strip_prefix (codes "Bearer ") value) [ none ↦ [] | some token ↦ token ]
]

-- The end of `validate_access_token`: what ValidateToken tells, or the text of the error.
unfoldable pub token_verdict : Status × TokenStatus → Result Str TokenStatus
token_verdict r =
    if not (is_ok r.0)
    then err (codes r.0.message)
    else if not r.1.valid
    then err (codes "Invalid token")
    else ok r.1

unfoldable pub validate_access_token : Env → HttpRequest → Gateway (Result Str TokenStatus)
unfolding get_bearer_token token_verdict auth_rpc validate_token
validate_access_token env req =
    if empty (get_bearer_token req)
    then reply (err (codes "Missing Authorization: Bearer <token>"))
    else (auth_rpc not_valid (validate_token env.manager (get_bearer_token req)) >>= λ r.
        reply (token_verdict r))

-- `if (!validate_access_token(…)) { …401…; return; }`, and what follows.
unfoldable pub answer_for :
    (TokenStatus → Gateway HttpResponse) → Result Str TokenStatus → Gateway HttpResponse
unfolding json_error
answer_for k (err text) = reply (refuse 401 text)
answer_for k (ok caller) = k caller

unfoldable pub authorized :
    Env → HttpRequest → (TokenStatus → Gateway HttpResponse) → Gateway HttpResponse
unfolding validate_access_token answer_for
authorized env req k = validate_access_token env req >>= answer_for k

-- The checks of a body, and what follows.
unfoldable pub with_body :
    {A : Type 0}
    → (Str → Option A)
    → HttpRequest
    → (A → Gateway HttpResponse)
    → Gateway HttpResponse
unfolding json_error
with_body parse req k =
    if empty req.body
    then reply (refuse 400 (codes "Empty request body"))
    else elim (parse req.body) [
      | none ↦ reply (refuse 400 (codes "Invalid JSON payload"))
      | some a ↦ k a
    ]
