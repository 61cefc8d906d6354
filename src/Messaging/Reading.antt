-- ===== src/Messaging/Reading.antt =====
-- What `GetHistory` of services/messaging_service/src/messaging_service.cpp returns to one that it lets through.
use wizz_mania.Prelude.{
  ◌≡◌, refl, ap, ◌∙◌, Bool, true, false, ◌&&◌, not, List, [], map, Option, none, some,
  if◌then◌else◌,
}
use wizz_mania.Prelude.Text.{empty}
use wizz_mania.Prelude.Result.{ok}
use wizz_mania.Prelude.Int.{ℤ}
use wizz_mania.Number.{parse_int}
use wizz_mania.Keys.{parse_room_id}
use wizz_mania.Grpc.{failed, permission_denied, Status, success}
use wizz_mania.Messaging.Tables.{limited}
use wizz_mania.Messaging.Database.{get_history_db, history_body}
use wizz_mania.Messaging.History.Order.{unlimited, history_body-unlimited, limited-map}
use wizz_mania.Messaging.Service
use wizz_mania.Messaging.Service.{
  attempted, Service, Handler, EncryptedMessage, HistoryRequest, SendAck, is_ok, no_ack, db_id,
  check_access, may_read, get_history, history_reply, history_message, send_message,
}
use wizz_mania.Messaging.Delivery.{IsQuiet, quiet_write, handler-bind}

check_access-open :
    (req : HistoryRequest) (s : Service)
    → parse_room_id req.conversation_id ≡ none
    → check_access req s ≡ (ok true, s)
unfolding check_access may_read
check_access-open req s no_room =
    let_through (not (empty req.requester_id) && not (empty req.conversation_id))
      (parse_int req.requester_id) (parse_room_id req.conversation_id) no_room
  where
    let_through :
        (b : Bool) (requester room : Option ℤ)
        → room ≡ none
        → (if b then may_read requester room else (λ s. (ok true, s))) s ≡ (ok true, s)
    let_through false requester room e = refl
    let_through true requester (some room) e = cc e
    let_through true none none e = refl
    let_through true (some requester) none e = refl

-- The rows of a conversation, up to the limit.
abbrev pub page : HistoryRequest → Service → List EncryptedMessage
page req s =
    limited req.limit
      (map (history_message req.conversation_id) (unlimited req.conversation_id s.db.tables))

-- A request that is let through gets the rows of its conversation, up to its limit.
pub get_history-allowed :
    (req : HistoryRequest) (s : Service)
    → IsQuiet s.db
    → check_access req s ≡ (ok true, s)
    → get_history req s ≡ (ok (success, page req s), s)
unfolding get_history get_history_db history_reply
get_history-allowed req s q allowed =
    handler-bind (check_access req) (decide req) s s true allowed
    ∙ ap (λ r. history_reply req r.0 (record s { db = r.1 }))
        (quiet_write s.db q (history_body req.conversation_id req.limit)
          (limited req.limit (unlimited req.conversation_id s.db.tables)) s.db.tables
          (history_body-unlimited req.conversation_id req.limit s.db.tables))
    ∙ ap (λ ms. (ok (success, ms), s))
        (limited-map (history_message req.conversation_id) req.limit
          (unlimited req.conversation_id s.db.tables))
  where
    decide : HistoryRequest → Bool → Handler (Status × List EncryptedMessage)
    decide req allowed =
        if allowed
        then Service.◌>>=◌ (attempted (get_history_db req.conversation_id req.limit))
            (history_reply req)
        else Service.reply (failed permission_denied "Not a participant", [])

-- No one is asked whether he takes part in a conversation that is no room.
pub get_history-no_room :
    (req : HistoryRequest) (s : Service)
    → IsQuiet s.db
    → parse_room_id req.conversation_id ≡ none
    → get_history req s ≡ (ok (success, page req s), s)
get_history-no_room req s q no_room = get_history-allowed req s q (check_access-open req s no_room)

-- One who does not tell who he is is let through.
pub get_history-nobody :
    (req : HistoryRequest) (s : Service)
    → IsQuiet s.db
    → empty req.requester_id ≡ true
    → get_history req s ≡ (ok (success, page req s), s)
unfolding check_access
get_history-nobody req s q nobody = get_history-allowed req s q (rw nobody refl)
