-- ===== src/Gateway/Revoked.antt =====
-- A token of a revoked session at the routes of gateway_service/src/main.cpp.
use wizz_mania.Prelude.{
  ◌≡◌, refl, ap, ◌∙◌, true, false, List, some, if◌then◌else◌, if_false, Bool-cases, Option-cases,
  inl, inr, arith,
}
use wizz_mania.Prelude.Text.{Str, codes, empty}
use wizz_mania.Prelude.Result.{Result, ok, err}
use wizz_mania.Grpc.{Status}
use wizz_mania.Sql.{Exec, Exn, next_event, later_events}
use wizz_mania.Auth.Tables as AuthTables
use wizz_mania.Auth.Service.{TokenStatus, not_valid, validate_token}
use wizz_mania.Auth.Revocation.{IsRevoked}
use wizz_mania.Auth.Sessions.{IsRefused, Call, run, validate_token-revoked}
use wizz_mania.Messaging.Service.{is_ok}
use wizz_mania.Gateway.Http
use wizz_mania.Gateway.Http.{
  Env, HttpRequest, HttpResponse, Gateway, Cloud, LinkFault, reply, refuse, lost_status, escaped,
  auth_answer, auth_rpc, get_bearer_token, token_verdict, validate_access_token, answer_for,
  authorized,
}
use wizz_mania.Gateway.Conversations.{conversations_route, messages_route}
use wizz_mania.Gateway.Routes.{
  Route, get_health, post_login, post_refresh, get_conversations, get_messages, post_messages,
  protected, handle,
}
use wizz_mania.Gateway.Guard.{
  gateway-bind, past_test, missing, needs_token, reads_token, optional_caller-refused,
  handle-refused, validate_access_token-missing,
}

-- A check of the token ends with the text of an error, and does not touch the messaging service.
record IsStopped {A : Type 0} (m : Gateway (Result Str A)) (c : Cloud) : Type 0 where
  text : Str
  later : Cloud
  stops : m c ≡ (ok (err text), later)
  untouched : later.messaging ≡ c.messaging

-- A verdict that is an error.
abbrev IsNo : Result Str TokenStatus → Type 0
IsNo r = (text : Str) × (r ≡ err text)

token_verdict-failed : (r : Status × TokenStatus) → is_ok r.0 ≡ false → IsNo (token_verdict r)
unfolding token_verdict
token_verdict-failed r h = (codes r.0.message, ground arith)

token_verdict-refused : (r : Status × TokenStatus) → r.1.valid ≡ false → IsNo (token_verdict r)
unfolding token_verdict
token_verdict-refused r h = elim (Bool-cases (is_ok r.0)) [
  | inl sent ↦ (codes "Invalid token", ground arith)
  | inr lost ↦ token_verdict-failed r lost
]

lost_status-failed : (f : LinkFault) → is_ok (lost_status f) ≡ false
lost_status-failed f = elim (Bool-cases f.timed_out) [ inl sent ↦ rw sent | inr lost ↦ rw lost ]

auth_answer-refused :
    (r : Result Exn (Status × TokenStatus))
    → IsRefused r
    → IsNo (token_verdict (auth_answer not_valid r))
unfolding auth_answer
auth_answer-refused (ok r) h = token_verdict-refused r h
auth_answer-refused (err e) h = token_verdict-failed (escaped, not_valid) refl

-- The call of `ValidateToken`, whether the network brings the answer or not.
record IsNoAnswer (m : Gateway (Status × TokenStatus)) (c : Cloud) : Type 0 where
  answer : Status × TokenStatus
  later : Cloud
  answers : m c ≡ (ok answer, later)
  says_no : IsNo (token_verdict answer)
  untouched : later.messaging ≡ c.messaging

auth_rpc-IsNoAnswer :
    (m : Exec AuthTables.Tables (Status × TokenStatus)) (c : Cloud)
    → IsRefused (m c.auth).0
    → IsNoAnswer (auth_rpc not_valid m) c
unfolding auth_rpc
auth_rpc-IsNoAnswer m c h = elim (Option-cases (next_event c.links)) [
  | inl arrives ↦ record {
    answer = auth_answer not_valid (m c.auth).0;
    later = record c { auth = (m c.auth).1; links = later_events c.links };
    answers = rw (arrives, auth_rpc);
    says_no = auth_answer-refused (m c.auth).0 h;
    untouched = refl;
  }
  | inr (f, lost) ↦ record {
    answer = (lost_status f, not_valid);
    later = record c {
      auth = if f.delivered then (m c.auth).1 else c.auth;
      links = later_events c.links;
    };
    answers = rw (lost, auth_rpc);
    says_no = token_verdict-failed (lost_status f, not_valid) (lost_status-failed f);
    untouched = refl;
  }
]

validate_access_token-IsStopped :
    (env : Env) (req : HttpRequest) (c : Cloud)
    → IsRefused (validate_token env.manager (get_bearer_token req) c.auth).0
    → IsStopped (validate_access_token env req) c
unfolding validate_access_token
validate_access_token-IsStopped env req c h = elim (Bool-cases (empty (get_bearer_token req))) [
  | inl none_there ↦ record {
    text = missing;
    later = c;
    stops = validate_access_token-missing env req c none_there;
    untouched = refl;
  }
  | inr there ↦
      let call = auth_rpc not_valid (validate_token env.manager (get_bearer_token req)) in
      let n = auth_rpc-IsNoAnswer (validate_token env.manager (get_bearer_token req)) c h in
      record {
        text = n.says_no.0;
        later = n.later;
        stops =
            ap (λ f. f c)
              (if_false (empty (get_bearer_token req)) (reply (err missing))
                (Http.◌>>=◌ call (λ r. reply (token_verdict r))) there)
            ∙ gateway-bind call (λ r. reply (token_verdict r)) c n.later n.answer n.answers
            ∙ ap (λ v. (ok v, n.later)) n.says_no.1;
        untouched = n.untouched;
      }
]

-- The answer is a 401 with some text, and the messaging service is not asked for anything.
pub record IsUnauthorized (m : Gateway HttpResponse) (c : Cloud) : Type 0 where
  pub text : Str
  pub later : Cloud
  pub answer : m c ≡ (ok (refuse 401 text), later)
  pub untouched : later.messaging ≡ c.messaging

handle-IsUnauthorized :
    (route : Route) (env : Env) (req : HttpRequest) (c : Cloud) (value : Str)
    → reads_token route req ≡ true
    → req.authorization ≡ some value
    → IsStopped (validate_access_token env req) c
    → IsUnauthorized (handle route env req) c
unfolding handle reads_token needs_token conversations_route messages_route
handle-IsUnauthorized route env req c value n there s = record {
  text = s.text;
  later = s.later;
  answer = answered route n;
  untouched = s.untouched;
}
  where
    answered :
        (route : Route)
        → reads_token route req ≡ true
        → handle route env req c ≡ (ok (refuse 401 s.text), s.later)
    answered get_conversations n =
        optional_caller-refused env req _ value c s.later s.text there s.stops
    answered (get_messages id) n =
        past_test (empty id) _ _ c (ok (refuse 401 s.text), s.later) n
          (optional_caller-refused env req _ value c s.later s.text there s.stops)
    answered (protected p) n = handle-refused (protected p) env req c s.later s.text n s.stops
    answered (post_messages id time) n =
        handle-refused (post_messages id time) env req c s.later s.text n s.stops
    answered get_health n = cc n
    answered post_refresh n = cc n
    answered (post_login random) n = cc n

-- A request whose bearer token belongs to a revoked session, one with an id, is answered 401 by every
-- route that reads a token (the listings of conversations and messages among them), and the messaging
-- service is left as it was: whatever methods the handlers of sessions have called on the
-- authentication database since the revocation, and whatever the network does to the request.
pub handle-revoked :
    (route : Route) (env : Env) (req : HttpRequest) (value : Str) (cs : List Call) (c : Cloud)
    → reads_token route req ≡ true
    → req.authorization ≡ some value
    → empty (env.manager.decode_token (get_bearer_token req)).jti ≡ false
    → IsRevoked (env.manager.decode_token (get_bearer_token req)).jti c.auth.tables
    → IsUnauthorized (handle route env req) (record c { auth = run cs c.auth })
handle-revoked route env req value cs c n there named h =
    let now : Cloud = record c { auth = run cs c.auth } in
    handle-IsUnauthorized route env req now value n there (
      validate_access_token-IsStopped env req now
        (validate_token-revoked env.manager (get_bearer_token req) cs c.auth named h))
