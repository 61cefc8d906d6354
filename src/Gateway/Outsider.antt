-- ===== src/Gateway/Outsider.antt =====
-- The calls of the authentication service that gateway_service/src/main.cpp makes for a token whose role is
-- not "admin".
use wizz_mania.Prelude.{◌≡◌, refl, Bool, true, false, not, if◌then◌else◌, Option-cases, inl, inr}
use wizz_mania.Prelude.Text.{Str, codes, empty, str_eq}
use wizz_mania.Prelude.Result.{Result, ok, err}
use wizz_mania.Grpc.{Status}
use wizz_mania.Sql.{Exec, Exn, next_event, later_events}
use wizz_mania.Auth.Tables as AuthTables
use wizz_mania.Auth.Service.{TokenStatus, not_valid, validate_token}
use wizz_mania.Auth.Outsider.{IsOutsider, validate_token-IsOutsider, validate_token-Keeps}
use wizz_mania.Messaging.Service.{is_ok}
use wizz_mania.Gateway.Http
use wizz_mania.Gateway.Http.{
  Env, HttpRequest, HttpResponse, Gateway, Cloud, LinkFault, NewAccount, reply, refuse, lost_status,
  escaped, auth_answer, auth_rpc, get_bearer_token, token_verdict, validate_access_token,
  answer_for, authorized, with_body, set_proto_json, outcome,
}
use wizz_mania.Gateway.Guard.{gateway-bind, missing}

-- The two services' tables are as they were.
pub record IsUnchanged (c later : Cloud) : Type 0 where
  pub accounts : later.auth.tables ≡ c.auth.tables
  pub messaging : later.messaging ≡ c.messaging

nobody : str_eq not_valid.role (codes "admin") ≡ false
unfolding str_eq
nobody = refl

-- A verdict on a token that does not name an admin.
abbrev pub IsNoAdmin : Result Str TokenStatus → Type 0
IsNoAdmin (ok caller) = str_eq caller.role (codes "admin") ≡ false
IsNoAdmin (err text) = Unit

-- A call of the authentication service that changes no table, and what its client receives.
pub record IsCall {A : Type 0} (Q : Status × A → Type 0) (m : Gateway (Status × A)) (c : Cloud)
    : Type 0 where
  pub answer : Status × A
  pub later : Cloud
  pub answers : m c ≡ (ok answer, later)
  pub says : Q answer
  pub unchanged : IsUnchanged c later

pub auth_rpc-IsCall :
    {A : Type 0} (Q : Status × A → Type 0) (none_yet : A) (m : Exec AuthTables.Tables (Status × A))
    (c : Cloud)
    → Q (auth_answer none_yet (m c.auth).0)
    → ((f : LinkFault) → Q (lost_status f, none_yet))
    → (m c.auth).1.tables ≡ c.auth.tables
    → IsCall Q (auth_rpc none_yet m) c
unfolding auth_rpc
auth_rpc-IsCall Q none_yet m c arrived lost kept = elim (Option-cases (next_event c.links)) [
  | inl arrives ↦ record {
    answer = auth_answer none_yet (m c.auth).0;
    later = record c { auth = (m c.auth).1; links = later_events c.links };
    answers = rw (arrives, auth_rpc);
    says = arrived;
    unchanged = record { accounts = kept; messaging = refl };
  }
  | inr (f, loses) ↦ record {
    answer = (lost_status f, none_yet);
    later = record c {
      auth = if f.delivered then (m c.auth).1 else c.auth;
      links = later_events c.links;
    };
    answers = rw (loses, auth_rpc);
    says = lost f;
    unchanged = record { accounts = either f.delivered; messaging = refl };
  }
]
  where
    either : (b : Bool) → (if b then (m c.auth).1 else c.auth).tables ≡ c.auth.tables
    either true = kept
    either false = refl

token_verdict-IsNoAdmin :
    (r : Status × TokenStatus)
    → str_eq r.1.role (codes "admin") ≡ false
    → IsNoAdmin (token_verdict r)
unfolding token_verdict
token_verdict-IsNoAdmin r other = by_tests (is_ok r.0) r.1.valid
  where
    by_tests :
        (b d : Bool)
        → IsNoAdmin (
            if not b
            then err (codes r.0.message)
            else if not d
            then err (codes "Invalid token")
            else ok r.1)
    by_tests false d = tt
    by_tests true false = tt
    by_tests true true = other

auth_answer-IsNoAdmin :
    (r : Result Exn (Status × TokenStatus))
    → IsOutsider r
    → IsNoAdmin (token_verdict (auth_answer not_valid r))
unfolding auth_answer
auth_answer-IsNoAdmin (ok r) other = token_verdict-IsNoAdmin r other
auth_answer-IsNoAdmin (err e) other = token_verdict-IsNoAdmin (escaped, not_valid) nobody

-- The check of a token that does not name an admin.
pub record IsCheck (m : Gateway (Result Str TokenStatus)) (c : Cloud) : Type 0 where
  pub verdict : Result Str TokenStatus
  pub later : Cloud
  pub checks : m c ≡ (ok verdict, later)
  pub no_admin : IsNoAdmin verdict
  pub unchanged : IsUnchanged c later

pub validate_access_token-IsCheck :
    (env : Env) (req : HttpRequest) (c : Cloud)
    → str_eq (env.manager.decode_token (get_bearer_token req)).role (codes "admin") ≡ false
    → IsCheck (validate_access_token env req) c
unfolding validate_access_token
validate_access_token-IsCheck env req c other = either (empty (get_bearer_token req))
  where
    call : Gateway (Status × TokenStatus)
    call = auth_rpc not_valid (validate_token env.manager (get_bearer_token req))

    n : IsCall (λ r. IsNoAdmin (token_verdict r)) call c
    n =
        auth_rpc-IsCall (λ r. IsNoAdmin (token_verdict r)) not_valid
          (validate_token env.manager (get_bearer_token req)) c
          (auth_answer-IsNoAdmin (validate_token env.manager (get_bearer_token req) c.auth).0
            (validate_token-IsOutsider env.manager (get_bearer_token req) c.auth other))
          (λ f. token_verdict-IsNoAdmin (lost_status f, not_valid) nobody)
          (validate_token-Keeps c.auth.tables env.manager (get_bearer_token req) c.auth refl)

    either :
        (b : Bool)
        → IsCheck
            (if b then reply (err missing) else Http.◌>>=◌ call λ r. reply (token_verdict r))
            c
    either true = record {
      verdict = err missing;
      later = c;
      checks = refl;
      no_admin = tt;
      unchanged = record { accounts = refl; messaging = refl };
    }
    either false = record {
      verdict = token_verdict n.answer;
      later = n.later;
      checks = gateway-bind call (λ r. reply (token_verdict r)) c n.later n.answer n.answers;
      no_admin = n.says;
      unchanged = n.unchanged;
    }
