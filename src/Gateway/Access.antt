-- ===== src/Gateway/Access.antt =====
-- What GET /conversations/:id/messages of gateway_service/src/main.cpp tells to one without a token.
use wizz_mania.Prelude.{◌≡◌, refl, ap, ◌∙◌, false, not, List, [], map, Option, none, if◌then◌else◌}
use mathlib.Core.List.{reverse}
use wizz_mania.Prelude.Text.{Str, codes, empty}
use wizz_mania.Prelude.Result.{ok}
use wizz_mania.Grpc.{Status, success}
use wizz_mania.Auth.Service.{TokenStatus}
use wizz_mania.Messaging.Service.{
  EncryptedMessage, HistoryRequest, is_ok, get_history, history_message,
}
use wizz_mania.Messaging.Tables.{limited}
use wizz_mania.Messaging.History.Order.{unlimited}
use wizz_mania.Messaging.Delivery.{IsQuiet}
use wizz_mania.Messaging.Reading.{page, get_history-nobody}
use wizz_mania.Gateway.Http
use wizz_mania.Gateway.Http.{
  Env, HttpRequest, HttpResponse, Gateway, Cloud, refuse, message_list, reply, messaging_rpc,
  set_proto_json,
}
use wizz_mania.Gateway.Conversations.{
  optional_caller, answer_if, messages_route, history_request, message_limit, message_entry,
}
use wizz_mania.Gateway.Guard.{gateway-bind, past_test, caller_in}
use wizz_mania.Gateway.Answers.{messaging_rpc-delivered}

-- Where no call is lost and the connection of the messaging service is open and nothing breaks it
-- off: a request without an Authorization header gets the messages of any conversation with a
-- name, a room or not, up to its limit and oldest first; nobody's membership is asked for, and
-- nothing changes.
pub messages_route-public :
    (id : Str) (env : Env) (req : HttpRequest) (c : Cloud)
    → empty id ≡ false
    → req.authorization ≡ none
    → c.links ≡ []
    → IsQuiet c.messaging.db
    → messages_route id env req c ≡ (
      ok (
          set_proto_json env.json 200 (
            message_list (
              map (message_entry id) (
                reverse (
                  limited
                    (message_limit req)
                    (map (history_message id) (unlimited id c.messaging.db.tables))))))),
      c,
    )
unfolding messages_route optional_caller answer_if history_request
messages_route-public id env req c named nobody linked quiet =
    past_test (empty id) _ _ c _ (ap not named) (
      gateway-bind (optional_caller env req) (answer_if k) c c (ok none)
        (ap (λ o. caller_in env req o c) nobody)
      ∙ gateway-bind (messaging_rpc [] (get_history hreq)) answer c c
          (success, page hreq c.messaging)
          (messaging_rpc-delivered [] (get_history hreq) c (success, page hreq c.messaging)
            c.messaging linked (get_history-nobody hreq c.messaging quiet refl)))
  where
    hreq : HistoryRequest
    hreq = history_request req id none

    answer : Status × List EncryptedMessage → Gateway HttpResponse
    answer r =
        if is_ok r.0
        then reply
            (set_proto_json env.json 200 (message_list (map (message_entry id) (reverse r.1))))
        else reply (refuse 502 (codes r.0.message))

    k : Option TokenStatus → Gateway HttpResponse
    k caller = Http.◌>>=◌ (messaging_rpc [] (get_history (history_request req id caller))) answer
