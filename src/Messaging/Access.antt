-- ===== src/Messaging/Access.antt =====
-- Who may read a room, and what the deletion of a room leaves.
use wizz_mania.Prelude.{
  ◌≡◌, refl, ap, ◌∙◌, Bool, false, not, List, [], ◌∷◌, filter, some, arith, if◌then◌else◌,
}
use wizz_mania.Prelude.Text.{strip_prefix, Str, empty}
use wizz_mania.Prelude.Result.{ok}
use wizz_mania.Prelude.Int.{ℤ, int_eq, int_eq_iff}
use wizz_mania.Number.{parse_int}
use wizz_mania.Keys.{parse_room_id, room_id}
use wizz_mania.Grpc.{Status, failed, permission_denied}
use wizz_mania.Messaging.Tables.{
  Tables, Conversation, Message, titled, is_member, delete_conversation, select_messages,
}
use wizz_mania.Messaging.Database.{is_participant, recover}
use wizz_mania.Messaging.Retry.{attempt-opened}
use wizz_mania.Sql.{Body}
use wizz_mania.Sql.Laws.{transact-ok}
use wizz_mania.Messaging.Tables.{keep}
use wizz_mania.Messaging.Service.{
  Service, Handler, EncryptedMessage, HistoryRequest, get_history, check_access, may_read, call,
  attempted, reply, history_reply,
}
use wizz_mania.Messaging.Service
use wizz_mania.Messaging.Database.{get_history_db}
use wizz_mania.Messaging.Delivery.{IsQuiet, quiet_next, quiet_later, handler-bind}
use wizz_mania.Messaging.History.Order.{unlimited, all_rows}

parse_int-not_empty : (s : Str) (v : ℤ) → parse_int s ≡ some v → empty s ≡ false
unfolding parse_int
parse_int-not_empty s v h = ground arith

parse_room_id-not_empty : (s : Str) (v : ℤ) → parse_room_id s ≡ some v → empty s ≡ false
unfolding parse_room_id strip_prefix
parse_room_id-not_empty [] v h = cc h
parse_room_id-not_empty (c ∷ s) v h = refl

-- On a quiet database `isParticipant` tells the members, and changes nothing.
is_participant-quiet :
    (room user : ℤ) (s : Service)
    → IsQuiet s.db
    → is_participant room user s.db ≡ (ok (is_member room user s.db.tables.participants), s.db)
unfolding is_participant recover
is_participant-quiet room user s q =
    ap (recover (λ e. ok false) (λ e. ok false) body) (
      attempt-opened body s.db q.opened
      ∙ transact-ok keep body s.db (is_member room user s.db.tables.participants) s.db.tables
          (quiet_next s.db q) refl)
    ∙ ap (λ f. (ok (is_member room user s.db.tables.participants), record s.db { faults = f }))
        (quiet_later s.db q)
  where
    body : Body Tables Bool
    body t = (ok (is_member room user t.participants), t)

check_access-outside :
    (req : HistoryRequest) (s : Service) (requester room : ℤ)
    → IsQuiet s.db
    → parse_int req.requester_id ≡ some requester
    → parse_room_id req.conversation_id ≡ some room
    → is_member room requester s.db.tables.participants ≡ false
    → check_access req s ≡ (ok false, s)
unfolding check_access may_read
check_access-outside req s requester room q who which outside =
    rw
      (
        parse_int-not_empty req.requester_id requester who,
        parse_room_id-not_empty req.conversation_id room which,
        who,
        which,
      )
      (ap (λ r. call (λ d. r) s) (is_participant-quiet room requester s q)
        ∙ ap (λ b. (ok b, s)) outside)

-- On an open connection that nothing breaks off, a requester with a number who takes no part in
-- the room that he names is refused its history, and nothing changes.
pub get_history-denied :
    (req : HistoryRequest) (s : Service) (requester room : ℤ)
    → IsQuiet s.db
    → parse_int req.requester_id ≡ some requester
    → parse_room_id req.conversation_id ≡ some room
    → is_member room requester s.db.tables.participants ≡ false
    → get_history req s ≡ (ok (failed permission_denied "Not a participant", []), s)
unfolding get_history check_access may_read
get_history-denied req s requester room q who which outside =
    handler-bind (check_access req) (decide req) s s false
      (check_access-outside req s requester room q who which outside)
  where
    decide : HistoryRequest → Bool → Handler (Status × List EncryptedMessage)
    decide req allowed =
        if allowed
        then Service.◌>>=◌ (attempted (get_history_db req.conversation_id req.limit))
            (history_reply req)
        else reply (failed permission_denied "Not a participant", [])

titled-filter :
    (title : Str) (id : ℤ) (cs : List Conversation) (c : Conversation)
    → titled title cs ≡ some c
    → int_eq c.id id ≡ false
    → titled title (filter (λ c. not (int_eq c.id id)) cs) ≡ some c
unfolding titled
titled-filter title id [] c h e = cc h
titled-filter title id (x ∷ cs) c h e = ground (arith, titled-filter title id cs c, h, e)

filter-filter :
    (k id : ℤ) (ms : List Message)
    → int_eq k id ≡ false
    → filter (λ m. int_eq m.conversation k) (filter (λ m. not (int_eq m.conversation id)) ms)
      ≡ filter (λ m. int_eq m.conversation k) ms
filter-filter k id [] e = refl
filter-filter k id (m ∷ ms) e = ground (
  arith,
  filter-filter k id ms e,
  int_eq_iff m.conversation k,
  int_eq_iff m.conversation id,
  int_eq_iff k id,
)

-- Where a conversation with the title `room:<id>` has another id than the room, the deletion of
-- the room leaves its messages as they were: those are the messages sent under `room:<id>`.
pub delete_keeps_room_messages :
    (id : ℤ) (t : Tables) (c : Conversation)
    → titled (room_id id) t.conversations ≡ some c
    → int_eq c.id id ≡ false
    → unlimited (room_id id) (delete_conversation id t).1 ≡ unlimited (room_id id) t
unfolding delete_conversation unlimited all_rows select_messages
delete_keeps_room_messages id t c h e =
    rw (titled-filter (room_id id) id t.conversations c h e, h, filter-filter c.id id t.messages e)
