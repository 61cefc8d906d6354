-- ===== src/Gateway/Answers.antt =====
-- What the routes for messages of gateway_service/src/main.cpp answer where nothing fails.
use wizz_mania.Prelude.{
  ◌≡◌, refl, ap, ◌∙◌, sym, subst, Bool, true, false, not, List, [], map, Option, none, some,
  if◌then◌else◌,
}
use mathlib.Core.List.{reverse}
use wizz_mania.Prelude.Text.{Str, codes, empty}
use wizz_mania.Prelude.Result.{Result, ok, err}
use wizz_mania.Prelude.Int.{ℤ}
use wizz_mania.Grpc.{Status, Stop, success}
use wizz_mania.Auth.Service.{TokenStatus, not_valid, validate_token}
use wizz_mania.Messaging.Service.{
  Service, Handler, EncryptedMessage, SendAck, is_ok, no_ack, get_history, send_message,
}
use wizz_mania.Gateway.Http
use wizz_mania.Gateway.Http.{
  Env, HttpRequest, HttpResponse, Gateway, Cloud, refuse, Message, message_list, send_ack, reply,
  auth_rpc, messaging_rpc, get_bearer_token, token_verdict, validate_access_token, answer_for,
  authorized, set_proto_json,
}
use wizz_mania.Gateway.Conversations.{
  optional_caller, answer_if, messages_route, post_message_route, history_request, message_entry,
  posted_message, with_content,
}
use wizz_mania.Gateway.Guard.{gateway-bind, past_test, missing, known, caller_in}

-- A call that the network does not lose.
pub messaging_rpc-delivered :
    {A : Type 0} (none_yet : A) (m : Handler (Status × A)) (c : Cloud) (r : Status × A)
    (s : Service)
    → c.links ≡ []
    → m c.messaging ≡ (ok r, s)
    → messaging_rpc none_yet m c ≡ (ok r, record c { messaging = s })
unfolding messaging_rpc
messaging_rpc-delivered none_yet m c r s linked e = rw (linked, e) refl

-- What a check of a token leaves alone.
pub record Leaves (c c' : Cloud) : Type 0 where
  pub messaging_kept : c'.messaging ≡ c.messaging
  pub linked : c'.links ≡ []

pub validate_access_token-Leaves :
    (env : Env) (req : HttpRequest) (c : Cloud)
    → c.links ≡ []
    → Leaves c (validate_access_token env req c).1
unfolding validate_access_token auth_rpc
validate_access_token-Leaves env req c linked = either (empty (get_bearer_token req))
  where
    check : Gateway (Status × TokenStatus)
    check = auth_rpc not_valid (validate_token env.manager (get_bearer_token req))

    either :
        (b : Bool)
        → Leaves c
            ((if b then reply (err missing) else Http.◌>>=◌ check λ r. reply (token_verdict r)) c).1
    either true = record { messaging_kept = refl; linked = linked }
    either false = rw (linked, auth_rpc) (record { messaging_kept = refl; linked = refl })

pub post_message_route-ok :
    (id : Str) (time : ℤ) (env : Env) (req : HttpRequest) (caller : TokenStatus) (content : Str)
    (c c1 : Cloud) (ack : SendAck) (s : Service)
    → empty id ≡ false
    → empty req.body ≡ false
    → empty content ≡ false
    → env.json.parse_content req.body ≡ some content
    → validate_access_token env req c ≡ (ok (ok caller), c1)
    → c1.links ≡ []
    → send_message time (posted_message time id caller content) c1.messaging
      ≡ (ok (success, ack), s)
    → post_message_route id time env req c
      ≡ (ok (set_proto_json env.json 200 (send_ack ack)), record c1 { messaging = s })
unfolding post_message_route authorized answer_for with_content
post_message_route-ok id time env req caller content c c1 ack s named full some_text parses valid
      linked sends =
    past_test (empty id) _ _ c result (ap not named) (
      past_test (empty req.body) _ _ c result (ap not full) (
        gateway-bind (validate_access_token env req)
          (answer_for (λ caller. with_content env req (k caller))) c c1 (ok caller) valid
        ∙ ap (λ o. accept o c1) parses
        ∙ past_test (empty content) (reply (refuse 400 (codes "Missing content")))
            (k caller content) c1 (k caller content c1) (ap not some_text) refl
        ∙ gateway-bind call answer c1 (record c1 { messaging = s }) (success, ack)
            (messaging_rpc-delivered no_ack
              (send_message time (posted_message time id caller content)) c1 (success, ack) s linked
              sends)))
  where
    result : Result Stop HttpResponse × Cloud
    result = (ok (set_proto_json env.json 200 (send_ack ack)), record c1 { messaging = s })

    answer : Status × SendAck → Gateway HttpResponse
    answer r =
        if is_ok r.0
        then reply (set_proto_json env.json 200 (send_ack r.1))
        else reply (refuse 502 (codes r.0.message))

    call : Gateway (Status × SendAck)
    call = messaging_rpc no_ack (send_message time (posted_message time id caller content))

    k : TokenStatus → Str → Gateway HttpResponse
    k caller content =
        Http.◌>>=◌
          (messaging_rpc no_ack (send_message time (posted_message time id caller content))) answer

    accept : Option Str → Gateway HttpResponse
    accept o = elim o [
      | none ↦ reply (refuse 400 (codes "Invalid JSON payload"))
      | some text ↦
          if empty text then reply (refuse 400 (codes "Missing content")) else k caller text
    ]

pub messages_route-ok :
    (id : Str) (env : Env) (req : HttpRequest) (caller : TokenStatus) (value : Str) (c c1 : Cloud)
    (ms : List EncryptedMessage) (s : Service)
    → empty id ≡ false
    → req.authorization ≡ some value
    → validate_access_token env req c ≡ (ok (ok caller), c1)
    → c1.links ≡ []
    → get_history (history_request req id (some caller)) c1.messaging ≡ (ok (success, ms), s)
    → messages_route id env req c ≡ (
      ok (set_proto_json env.json 200 (message_list (map (message_entry id) (reverse ms)))),
      record c1 { messaging = s },
    )
unfolding messages_route optional_caller answer_if
messages_route-ok id env req caller value c c1 ms s named there valid linked answers =
    past_test (empty id) _ _ c result (ap not named) (
      gateway-bind (optional_caller env req) (answer_if k) c c1 (ok (some caller)) (
        subst (λ o. caller_in env req o c ≡ (ok (ok (some caller)), c1)) (sym there)
          (gateway-bind (validate_access_token env req) (λ r. reply (known r)) c c1 (ok caller)
            valid))
      ∙ gateway-bind (messaging_rpc [] (get_history (history_request req id (some caller)))) answer
          c1 (record c1 { messaging = s }) (success, ms)
          (messaging_rpc-delivered [] (get_history (history_request req id (some caller))) c1
            (success, ms) s linked answers))
  where
    result : Result Stop HttpResponse × Cloud
    result = (
      ok (set_proto_json env.json 200 (message_list (map (message_entry id) (reverse ms)))),
      record c1 { messaging = s },
    )

    answer : Status × List EncryptedMessage → Gateway HttpResponse
    answer r =
        if is_ok r.0
        then reply
            (set_proto_json env.json 200 (message_list (map (message_entry id) (reverse r.1))))
        else reply (refuse 502 (codes r.0.message))

    k : Option TokenStatus → Gateway HttpResponse
    k caller = Http.◌>>=◌ (messaging_rpc [] (get_history (history_request req id caller))) answer
