-- ===== src/Messaging/Service.antt =====
-- `MessagingServiceImpl` of services/messaging_service/src/messaging_service.cpp. A handler takes
-- the state and returns it with a status and a response, or stops. `objects` holds the
-- `ActiveStream` objects on the stacks of the running `ChatStream` calls, and `active_streams` the
-- pointers to them; `written` is what `stream->Write` was given, oldest first. The pointers of a
-- request are never null.
use Prim.Native.String.{◌++◌ as str_append}
use wizz_mania.Prelude.{
  ℕ, Bool, true, false, ◌&&◌, not, List, [], ◌∷◌, ◌++◌, map, filter, ◌==◌, if◌then◌else◌, Option,
  none, some,
}
use wizz_mania.Prelude.Text.{Str, codes, empty}
use wizz_mania.Prelude.Result.{Result, ok, err}
use wizz_mania.Prelude.Int.{ℤ, pos, negsuc}
use wizz_mania.Number.{parse_int, to_string}
use wizz_mania.Base64.{encode, safe_b64_decode}
use wizz_mania.Keys.{parse_room_id}
use wizz_mania.Grpc.{
  Status, success, failed, status_ok, invalid_argument, permission_denied, internal, Stop, thrown,
  dangling,
}
use wizz_mania.Sql.{Exn, Exec}
use wizz_mania.Messaging.Tables.{Tables}
use wizz_mania.Messaging.Database.{
  Db, MessageRow, insert_message_db, get_history_db, is_participant,
}

-- `EncryptedMessage`
pub record EncryptedMessage : Type 0 where
  pub message_id : Str
  pub conversation_id : Str
  pub sender_id : Str
  pub ciphertext : Str
  pub nonce : Str
  pub timestamp_unix : ℤ

pub record ActiveStream : Type 0 where
  pub written : List EncryptedMessage
  pub alive : Bool

pub record Service : Type 0 where
  pub db : Db
  pub active_streams : List ℕ
  pub objects : List (ℕ × ActiveStream)

abbrev pub Handler : Type 0 → Type 0
Handler A = Service → Result Stop A × Service

abbrev pub reply : {A : Type 0} → A → Handler A
reply a s = (ok a, s)

infixl 5 ◌>>=◌
abbrev pub ◌>>=◌ : {A B : Type 0} → Handler A → (A → Handler B) → Handler B
◌>>=◌ m f s = let (r, s') = m s in elim r [ ok a ↦ f a s' | err e ↦ (err e, s') ]

-- A call of the database whose exceptions leave the handler.
abbrev pub call : {A : Type 0} → Exec Tables A → Handler A
call m s =
    let (r, d) = m s.db in
    elim r [ ok a ↦ (ok a, record s { db = d }) | err e ↦ (err (thrown e), record s { db = d }) ]

-- A call in a `try` block: its result, or what was caught.
abbrev pub attempted : {A : Type 0} → Exec Tables A → Handler (Result Exn A)
attempted m s = let (r, d) = m s.db in (ok r, record s { db = d })

unfoldable pub object : ℕ → List (ℕ × ActiveStream) → Option ActiveStream
object p [] = none
object p ((q, o) ∷ os) = if q == p then some o else object p os

unfoldable pub set_object : ℕ → ActiveStream → List (ℕ × ActiveStream) → List (ℕ × ActiveStream)
set_object p o [] = []
set_object p o ((q, x) ∷ os) = if q == p then (q, o) ∷ os else (q, x) ∷ set_object p o os

unfoldable pub drop_object : ℕ → List (ℕ × ActiveStream) → List (ℕ × ActiveStream)
drop_object p = filter (λ e. not (e.0 == p))

-- The first loop of `broadcast`: the pointers whose object is alive; `none` where one dangles.
unfoldable pub purge : List (ℕ × ActiveStream) → List ℕ → Option (List ℕ)
unfolding object
purge os [] = some []
purge os (p ∷ ps) =
    let rest = purge os ps in
    elim (object p os) [
      | none ↦ none
      | some o ↦ elim rest [ none ↦ none | some qs ↦ if o.alive then some (p ∷ qs) else some qs ]
    ]

-- `s->stream->Write(msg)`, best-effort.
unfoldable pub write_to : EncryptedMessage → ℕ → List (ℕ × ActiveStream) → List (ℕ × ActiveStream)
unfolding object set_object
write_to msg p os = elim (object p os) [
  | none ↦ os
  | some o ↦ if o.alive then set_object p (record o { written = o.written ++ msg ∷ [] }) os else os
]

unfoldable pub write_all :
    EncryptedMessage → List ℕ → List (ℕ × ActiveStream) → List (ℕ × ActiveStream)
unfolding write_to
write_all msg [] os = os
write_all msg (p ∷ ps) os = write_all msg ps (write_to msg p os)

unfoldable pub broadcast : EncryptedMessage → Handler (Unit {0})
unfolding purge write_all
broadcast msg s = elim (purge s.objects s.active_streams) [
  | none ↦ (err dangling, s)
  | some ps ↦ (ok tt, record s { active_streams = ps; objects = write_all msg ps s.objects })
]

unfoldable pub db_error : Exn → Status
db_error e = failed internal (str_append "DB error: " e.what)

-- `"db_" + std::to_string(msgId)`
abbrev pub db_id : ℕ → Str
db_id n = codes "db_" ++ to_string (pos n)

abbrev is_zero : ℤ → Bool
is_zero (pos n) = n == 0
is_zero (negsuc n) = false

-- The message as it is stored: a time where the client gave none.
unfoldable pub stamp : ℤ → EncryptedMessage → EncryptedMessage
stamp time msg = if is_zero msg.timestamp_unix then record msg { timestamp_unix = time } else msg

-- `persist_and_broadcast`, behind the INSERT.
unfoldable pub announce : EncryptedMessage → Result Exn ℕ → Handler (Status × EncryptedMessage)
unfolding broadcast db_error
announce msg (err e) = reply (db_error e, msg)
announce msg (ok id) =
    let msg' = record msg { message_id = db_id id } in broadcast msg' >>= λ _. reply (success, msg')

-- `persist_and_broadcast` at the time `time`: the status, and the message as the call leaves it.
unfoldable pub persist_and_broadcast : ℤ → EncryptedMessage → Handler (Status × EncryptedMessage)
unfolding announce stamp
persist_and_broadcast time msg =
    if empty msg.conversation_id
    then reply (failed invalid_argument "Missing conversation_id", msg)
    else (attempted
          (insert_message_db msg.conversation_id (parse_int msg.sender_id) (encode msg.ciphertext))
        >>= announce (stamp time msg))

pub record SendAck : Type 0 where
  pub message_id : Str
  pub accepted : Bool

abbrev pub no_ack : SendAck
no_ack = record { message_id = []; accepted = false }

abbrev pub is_ok : Status → Bool
is_ok st = elim st.code [ status_ok ↦ true | _ ↦ false ]

-- The response starts empty, as gRPC hands it over.
unfoldable pub send_message : ℤ → EncryptedMessage → Handler (Status × SendAck)
send_message time request = persist_and_broadcast time request >>= λ r.
    if is_ok r.0
    then reply (success, record { message_id = r.1.message_id; accepted = true })
    else reply (r.0, no_ack)

pub record HistoryRequest : Type 0 where
  pub conversation_id : Str
  pub limit : ℤ
  pub requester_id : Str

-- The access control of `GetHistory`: `true` lets the request through.
unfoldable pub may_read : Option ℤ → Option ℤ → Handler Bool
may_read (some requester) (some room) = call (is_participant room requester)
may_read _ _ = reply true

unfoldable pub check_access : HistoryRequest → Handler Bool
unfolding may_read
check_access req =
    if not (empty req.requester_id) && not (empty req.conversation_id)
    then may_read (parse_int req.requester_id) (parse_room_id req.conversation_id)
    else reply true

unfoldable pub sender_text : Option ℤ → Str
sender_text none = []
sender_text (some u) = to_string u

unfoldable pub history_message : Str → MessageRow → EncryptedMessage
unfolding sender_text
history_message conversation_id row = record {
  message_id = db_id row.id_messages;
  conversation_id = if empty conversation_id then row.conversation_key else conversation_id;
  sender_id = sender_text row.sender_id;
  ciphertext = safe_b64_decode row.encrypted_content_b64;
  nonce = [];
  timestamp_unix = pos row.created_at_unix;
}

unfoldable pub history_reply :
    HistoryRequest → Result Exn (List MessageRow) → Handler (Status × List EncryptedMessage)
unfolding history_message db_error
history_reply req (err e) = reply (db_error e, [])
history_reply req (ok rows) = reply (success, map (history_message req.conversation_id) rows)

unfoldable pub get_history : HistoryRequest → Handler (Status × List EncryptedMessage)
unfolding check_access history_reply
get_history req = check_access req >>= λ allowed.
    if allowed
    then attempted (get_history_db req.conversation_id req.limit) >>= history_reply req
    else reply (failed permission_denied "Not a participant", [])
