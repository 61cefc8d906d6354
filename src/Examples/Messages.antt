-- ===== src/Examples/Messages.antt =====
-- Concrete messages, rooms and streams: services/messaging_service/src.
use wizz_mania.Prelude.{◌≡◌, refl, true, false, [], ◌∷◌, some, map, All, arith, filter}
use wizz_mania.Prelude.Text.{codes, str_eq, strip_prefix}
use wizz_mania.Prelude.Result.{ok, err}
use wizz_mania.Prelude.Int.{pos}
use wizz_mania.Number.{parse_int, stoi, to_string}
use wizz_mania.Keys.{parse_room_id, parse_dm_key, room_id}
use wizz_mania.Grpc.{success, failed, permission_denied, dangling}
use wizz_mania.Sql.{Fault, broken_connection}
use wizz_mania.Messaging.Tables.{keep, Tables, Conversation, titled, is_member, delete_conversation}
use wizz_mania.Messaging.Database.{Db, with_retry, history_body, insert_message_body}
use wizz_mania.Messaging.Integrity.{IsValid}
use wizz_mania.Messaging.Integrity.Methods.{run, run-IsValid, inserts, reads, deletes}
use wizz_mania.Messaging.Retry.{with_retry-reconnects, with_retry-twice}
use wizz_mania.Messaging.History.Order.{
  Descending, Fits, history_body-Descending, unlimited, all_rows,
}
use wizz_mania.Messaging.Service.{
  Service, EncryptedMessage, HistoryRequest, send_message, get_history, history_message, db_id,
  broadcast, object,
}
use wizz_mania.Messaging.Chat.{chat, joins, ends, leaves}
use wizz_mania.Messaging.Streams.{
  broadcast_after_call, broadcast_reaches, IsThere, count, written_to, is_alive,
}
use wizz_mania.Messaging.Delivery.{all_of, entry_of, insert_for, get_history-send_message}
use wizz_mania.Messaging.Access.{get_history-denied, delete_keeps_room_messages}

abbrev pub tables : Tables
tables = record {
  users = pos 7 ∷ pos 9 ∷ [];
  conversations =
      record { id = pos 1; title = codes "team"; kind = codes "group" }
      ∷ record { id = pos 2; title = codes "room:1"; kind = codes "private" }
      ∷ [];
  participants = record { user = pos 7; conversation = pos 1 } ∷ [];
  messages =
      record {
        id = 1;
        conversation = pos 2;
        sender = some (pos 7);
        encrypted_content = codes "YQ==";
        created_at = 10;
      }
      ∷ [];
  next_conversation = 3;
  next_message = 2;
  now = 20;
}

pub tables-IsValid : IsValid tables
tables-IsValid = record {
  conversations_below = (omega arith, (omega arith, tt));
  conversations_distinct = ((refl, tt), (tt, tt));
  participants_known = ((refl, refl), tt);
  messages_attached = ((refl, refl), tt);
  messages_below = (omega arith, tt);
  messages_ascending = (tt, tt);
}

abbrev calm : Db
calm = record {
  tables = tables;
  opened = true;
  connects = [];
  faults = [];
  describe = λ r. "refused";
}

abbrev lost : Fault
lost = record {
  committed = false;
  still_open = false;
  error = record { kind = broken_connection; what = "Lost connection" };
}

-- The first transaction is broken off.
abbrev shaky : Db
shaky = record calm { faults = some lost ∷ [] }

-- The same, when the commit took place.
abbrev in_doubt : Db
in_doubt = record calm { faults = some (record lost { committed = true }) ∷ [] }

abbrev pub service : Service
service = record {
  db = calm;
  active_streams = 4 ∷ [];
  objects = (4, record { written = []; alive = true }) ∷ [];
}

abbrev pub hello : EncryptedMessage
hello = record {
  message_id = [];
  conversation_id = codes "room:1";
  sender_id = codes "7";
  ciphertext = 104 ∷ 105 ∷ [];
  nonce = [];
  timestamp_unix = pos 0;
}

pub streams-IsThere : All (IsThere service.objects) service.active_streams
unfolding object
streams-IsThere = ((λ e. cc e), tt)

abbrev stored : Tables
stored = (insert_for hello tables).1

first_insert : insert_for hello tables ≡ (ok 2, stored)
unfolding insert_message_body str_eq parse_dm_key strip_prefix parse_int
first_insert = refl

get_history-send_message_example :
    ((send_message (pos 20) hello service).0
      ≡ ok (success, record { message_id = db_id 2; accepted = true }))
    × ((get_history (all_of (codes "room:1")) (send_message (pos 20) hello service).1).0
        ≡ ok (
          success,
          entry_of hello 2 20
              ∷ map (history_message (codes "room:1")) (unlimited (codes "room:1") tables),
        ))
get_history-send_message_example =
    get_history-send_message (pos 20) hello service 2 stored
      (record { opened = refl; no_faults = refl }) tables-IsValid refl
      (omega arith, (omega arith, tt)) streams-IsThere first_insert

run-IsValid_example :
    IsValid
      (run in_doubt (
        inserts (codes "room:1") (some (pos 7)) (codes "YQ==")
        ∷ reads (codes "room:1") (pos 5)
        ∷ deletes (pos 2)
        ∷ [])).tables
run-IsValid_example =
    run-IsValid in_doubt
      (inserts (codes "room:1") (some (pos 7)) (codes "YQ==")
        ∷ reads (codes "room:1") (pos 5)
        ∷ deletes (pos 2)
        ∷ [])
      tables-IsValid

abbrev stored_again : Tables
stored_again = (insert_for hello stored).1

second_insert : insert_for hello stored ≡ (ok 3, stored_again)
unfolding insert_message_body str_eq parse_dm_key strip_prefix parse_int
second_insert = refl

-- What the first try leaves: a gap in the ids.
abbrev skipped : Tables
skipped = keep tables stored

abbrev stored_late : Tables
stored_late = (insert_for hello skipped).1

late_insert : insert_for hello (keep tables (insert_for hello tables).1) ≡ (ok 3, stored_late)
unfolding insert_message_body str_eq parse_dm_key strip_prefix parse_int keep
late_insert = refl

with_retry-reconnects_example :
    with_retry (insert_for hello) shaky
    ≡ (ok 3, record shaky { tables = stored_late; opened = true; connects = []; faults = [] })
with_retry-reconnects_example =
    with_retry-reconnects (insert_for hello) shaky refl lost 3 stored_late refl refl refl refl refl
      refl late_insert

with_retry-twice_example :
    with_retry (insert_for hello) in_doubt
    ≡ (ok 3, record in_doubt { tables = stored_again; opened = true; connects = []; faults = [] })
with_retry-twice_example =
    with_retry-twice (insert_for hello) in_doubt (record lost { committed = true }) 2 3 stored
      stored_again refl refl refl refl refl refl refl first_insert second_insert

newest :
    history_body (codes "room:1") (pos 5) tables ≡ (ok (unlimited (codes "room:1") tables), tables)
unfolding history_body unlimited all_rows str_eq
newest = refl

history_body-Descending_example :
    Descending (unlimited (codes "room:1") tables)
    × Fits (pos 5) (unlimited (codes "room:1") tables)
    × (tables ≡ tables)
history_body-Descending_example =
    history_body-Descending (codes "room:1") (pos 5) tables tables
      (unlimited (codes "room:1") tables) newest

abbrev from_outside : HistoryRequest
from_outside = record { conversation_id = codes "room:1"; limit = pos 0; requester_id = codes "9" }

nine : parse_int (codes "9") ≡ some (pos 9)
unfolding parse_int
nine = refl

room_one : parse_room_id (codes "room:1") ≡ some (pos 1)
unfolding parse_room_id strip_prefix stoi
room_one = refl

outside : is_member (pos 1) (pos 9) tables.participants ≡ false
unfolding is_member
outside = refl

get_history-denied_example :
    get_history from_outside service
    ≡ (ok (failed permission_denied "Not a participant", []), service)
get_history-denied_example =
    get_history-denied from_outside service (pos 9) (pos 1)
      (record { opened = refl; no_faults = refl }) nine room_one outside

abbrev messages_of_one : Conversation
messages_of_one = record { id = pos 2; title = codes "room:1"; kind = codes "private" }

titled_one : titled (room_id (pos 1)) tables.conversations ≡ some messages_of_one
unfolding titled str_eq to_string
titled_one = refl

delete_keeps_room_messages_example :
    unlimited (room_id (pos 1)) (delete_conversation (pos 1) tables).1
    ≡ unlimited (room_id (pos 1)) tables
delete_keeps_room_messages_example =
    delete_keeps_room_messages (pos 1) tables messages_of_one titled_one refl

broadcast_after_call_example :
    (broadcast hello (chat (joins 6 ∷ ends 6 ∷ leaves 6 ∷ []) service).1).0 ≡ err dangling
broadcast_after_call_example = broadcast_after_call service 6 hello

broadcast_reaches_example :
    ((broadcast hello service).0 ≡ ok tt)
    × (object 4 (broadcast hello service).1.objects
        ≡ written_to (count 4 service.active_streams) hello (object 4 service.objects))
    × ((broadcast hello service).1.active_streams
        ≡ filter (is_alive service.objects) service.active_streams)
    × ((broadcast hello service).1.db ≡ service.db)
broadcast_reaches_example = broadcast_reaches service hello 4 streams-IsThere
