-- ===== src/Gateway/Barred.antt =====
-- Answers of the routes of gateway_service/src/main.cpp that refuse one who is no admin.
use wizz_mania.Prelude.{
  ℕ, ◌==◌, ◌≡◌, refl, ap, ◌∙◌, Bool, true, false, not, List, [], ◌∷◌, if◌then◌else◌, if_true, any,
}
use wizz_mania.Prelude.Text.{Str, codes, str_eq}
use wizz_mania.Prelude.Result.{Result, ok, err}
use wizz_mania.Auth.Service.{TokenStatus}
use wizz_mania.Gateway.Http.{
  Env, HttpRequest, HttpResponse, Gateway, Cloud, reply, refuse, get_bearer_token,
  validate_access_token, answer_for, authorized,
}
use wizz_mania.Gateway.Guard.{gateway-bind}
use wizz_mania.Gateway.Outsider.{IsUnchanged, IsNoAdmin, validate_access_token-IsCheck}

-- The route's answer has one of these statuses, and the tables of both services are as they were.
pub record IsBarred (statuses : List ℕ) (m : Gateway HttpResponse) (c : Cloud) : Type 0 where
  pub answer : HttpResponse
  pub later : Cloud
  pub answers : m c ≡ (ok answer, later)
  pub refused : any (λ n. n == answer.status) statuses ≡ true
  pub unchanged : IsUnchanged c later

pub reply-IsBarred :
    (statuses : List ℕ) (answer : HttpResponse) (c : Cloud)
    → any (λ n. n == answer.status) statuses ≡ true
    → IsBarred statuses (reply answer) c
reply-IsBarred statuses answer c h = record {
  answer = answer;
  later = c;
  answers = refl;
  refused = h;
  unchanged = record { accounts = refl; messaging = refl };
}

-- What comes behind a call that changed nothing.
pub behind-IsBarred :
    (statuses : List ℕ) (m next : Gateway HttpResponse) (c c1 : Cloud)
    → m c ≡ next c1
    → IsUnchanged c c1
    → IsBarred statuses next c1
    → IsBarred statuses m c
behind-IsBarred statuses m next c c1 e u n = record {
  answer = n.answer;
  later = n.later;
  answers = e ∙ n.answers;
  refused = n.refused;
  unchanged = record {
    accounts = n.unchanged.accounts ∙ u.accounts;
    messaging = n.unchanged.messaging ∙ u.messaging;
  };
}

pub if-IsBarred :
    (statuses : List ℕ) (b : Bool) (x m : Gateway HttpResponse) (c : Cloud)
    → IsBarred statuses x c
    → IsBarred statuses m c
    → IsBarred statuses (if b then x else m) c
if-IsBarred statuses true x m c hx hm = hx
if-IsBarred statuses false x m c hx hm = hm

pub authorized-IsBarred :
    (statuses : List ℕ) (env : Env) (req : HttpRequest) (k : TokenStatus → Gateway HttpResponse)
    (c : Cloud)
    → str_eq (env.manager.decode_token (get_bearer_token req)).role (codes "admin") ≡ false
    → any (λ n. n == 401) statuses ≡ true
    → ((caller : TokenStatus) (c1 : Cloud)
        → str_eq caller.role (codes "admin") ≡ false
        → IsBarred statuses (k caller) c1)
    → IsBarred statuses (authorized env req k) c
unfolding authorized answer_for
authorized-IsBarred statuses env req k c other unauthorized within =
    let n = validate_access_token-IsCheck env req c other in
    behind-IsBarred statuses _ (answer_for k n.verdict) c n.later
      (gateway-bind (validate_access_token env req) (answer_for k) c n.later n.verdict n.checks)
      n.unchanged (after n.verdict n.later n.no_admin)
  where
    after :
        (v : Result Str TokenStatus) (c1 : Cloud)
        → IsNoAdmin v
        → IsBarred statuses (answer_for k v) c1
    after (err text) c1 h = reply-IsBarred statuses (refuse 401 text) c1 unauthorized
    after (ok caller) c1 h = within caller c1 h

-- The first test of a route that asks for the role.
pub gate-IsBarred :
    (env : Env) (req : HttpRequest) (k : TokenStatus → Gateway HttpResponse) (c : Cloud)
    → str_eq (env.manager.decode_token (get_bearer_token req)).role (codes "admin") ≡ false
    → IsBarred
        (401 ∷ 403 ∷ [])
        (authorized env req λ caller.
          if not (str_eq caller.role (codes "admin"))
          then reply (refuse 403 (codes "Admin required"))
          else k caller)
        c
gate-IsBarred env req k c other =
    authorized-IsBarred (401 ∷ 403 ∷ []) env req _ c other refl λ caller c1 h.
      behind-IsBarred (401 ∷ 403 ∷ []) _ (reply (refuse 403 (codes "Admin required"))) c1 c1
        (ap (λ (f : Gateway HttpResponse). f c1)
          (if_true (not (str_eq caller.role (codes "admin"))) _ _ (ap not h)))
        (record { accounts = refl; messaging = refl })
        (reply-IsBarred (401 ∷ 403 ∷ []) (refuse 403 (codes "Admin required")) c1 refl)
