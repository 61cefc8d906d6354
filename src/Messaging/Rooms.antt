-- ===== src/Messaging/Rooms.antt =====
-- The handlers for rooms of services/messaging_service/src/messaging_service.cpp: creation, members,
-- listing and deletion.
use Prim.Native.String.{◌++◌ as str_append}
use wizz_mania.Prelude.{
  ℕ, Bool, true, false, ◌&&◌, List, [], ◌∷◌, map, ltb, String, if◌then◌else◌, Option, none, some,
}
use wizz_mania.Prelude.Text.{Str, empty}
use wizz_mania.Prelude.Result.{Result, ok, err}
use wizz_mania.Prelude.Int.{ℤ, pos, negsuc}
use wizz_mania.Number.{parse_int}
use wizz_mania.Keys.{parse_room_id, room_id}
use wizz_mania.Grpc.{Status, success, failed, invalid_argument, not_found, internal}
use wizz_mania.Sql.{Exn}
use wizz_mania.Messaging.Database.{
  ConversationRow, create_group_conversation, add_participant, list_conversations_for_user,
  delete_conversation_by_id,
}
use wizz_mania.Messaging.Service.{Handler, reply, ◌>>=◌, call, attempted, db_error}

pub record CreateConversationRequest : Type 0 where
  pub creator_id : Str
  pub title : Str
  pub participant_ids : List Str

-- `CreateConversationResponse`, and with an empty `conversation_id` the other responses that hold
-- a flag and a message.
pub record RoomResponse : Type 0 where
  pub success_flag : Bool
  pub message : String
  pub conversation_id : Str

abbrev pub refusal : String → RoomResponse
refusal m = record { success_flag = false; message = m; conversation_id = [] }

abbrev pub accepted : String → Str → RoomResponse
accepted m id = record { success_flag = true; message = m; conversation_id = id }

-- The loop of `CreateConversation`: ids that are no numbers are passed over, and so is what
-- `addParticipant` returns.
unfoldable pub add_provided : ℤ → List Str → Handler (Unit {0})
add_provided conversation [] = reply tt
add_provided conversation (pid ∷ pids) =
    let rest = add_provided conversation pids in
    elim (parse_int pid) [
      | none ↦ rest
      | some u ↦ call (add_participant conversation u) >>= λ _. rest
    ]

unfoldable pub fill_room : ℤ → ℤ → List Str → Handler (Status × RoomResponse)
unfolding add_provided
fill_room creator conversation pids = call (add_participant conversation creator) >>= λ _.
    add_provided conversation pids >>= λ _. reply (success, accepted "OK" (room_id conversation))

unfoldable pub new_room : ℤ → List Str → Result Exn ℤ → Handler (Status × RoomResponse)
unfolding fill_room
new_room creator pids (err e) =
    reply (failed internal "DB error", refusal (str_append "DB error: " e.what))
new_room creator pids (ok conversation) = fill_room creator conversation pids

unfoldable pub create_for : CreateConversationRequest → Option ℤ → Handler (Status × RoomResponse)
unfolding new_room
create_for req none =
    reply (failed invalid_argument "Invalid creator_id", refusal "Invalid creator_id")
create_for req (some creator) =
    if empty req.title
    then reply (failed invalid_argument "Missing title", refusal "Missing title")
    else (attempted (create_group_conversation req.title) >>= new_room creator req.participant_ids)

unfoldable pub create_conversation : CreateConversationRequest → Handler (Status × RoomResponse)
unfolding create_for
create_conversation req = create_for req (parse_int req.creator_id)

pub record AddParticipantsRequest : Type 0 where
  pub conversation_id : Str
  pub participant_ids : List Str

-- The loop of `AddParticipants`, from the flag `ok` on.
unfoldable pub add_each : ℤ → Bool → List Str → Handler Bool
add_each conversation flag [] = reply flag
add_each conversation flag (pid ∷ pids) = elim (parse_int pid) [
  | none ↦ add_each conversation false pids
  | some u ↦
      call (add_participant conversation u) >>= λ added. add_each conversation (added && flag) pids
]

unfoldable pub add_to : List Str → Option ℤ → Handler (Status × RoomResponse)
unfolding add_each
add_to pids none = reply (
  failed invalid_argument "Invalid conversation_id",
  refusal "Invalid conversation_id (expected room:<id>)",
)
add_to pids (some conversation) = add_each conversation true pids >>= λ flag.
    if flag
    then reply (success, accepted "OK" [])
    else reply (
      failed internal "Failed to add participants",
      refusal "Some participants could not be added",
    )

unfoldable pub add_participants : AddParticipantsRequest → Handler (Status × RoomResponse)
unfolding add_to
add_participants req = add_to req.participant_ids (parse_room_id req.conversation_id)

pub record ListConversationsRequest : Type 0 where
  pub user_id : Str
  pub limit : ℤ

pub record ConversationSummary : Type 0 where
  pub conversation_id : Str
  pub title : Str
  pub kind : Str
  pub last_timestamp_unix : ℕ

-- `limit() <= 0 ? 200 : max(1, min(1000, limit()))`
unfoldable pub listing_limit : ℤ → ℤ
listing_limit (negsuc n) = pos 200
listing_limit (pos n) =
    if ltb 0 n then (if ltb 1000 n then pos 1000 else if ltb n 1 then pos 1 else pos n) else pos 200

unfoldable pub summary : ConversationRow → ConversationSummary
summary c = record {
  conversation_id = room_id c.id_conversations;
  title = c.title;
  kind = c.kind;
  last_timestamp_unix = c.last_timestamp_unix;
}

unfoldable pub list_reply :
    Result Exn (List ConversationRow) → Handler (Status × List ConversationSummary)
unfolding summary db_error
list_reply (err e) = reply (db_error e, [])
list_reply (ok rows) = reply (success, map summary rows)

unfoldable pub list_for : ℤ → Option ℤ → Handler (Status × List ConversationSummary)
unfolding list_reply listing_limit
list_for limit none = reply (failed invalid_argument "Invalid user_id", [])
list_for limit (some user) =
    attempted (list_conversations_for_user user (listing_limit limit)) >>= list_reply

unfoldable pub list_conversations :
    ListConversationsRequest → Handler (Status × List ConversationSummary)
unfolding list_for
list_conversations req = list_for req.limit (parse_int req.user_id)

unfoldable pub delete_reply : Result Exn Bool → Handler (Status × RoomResponse)
delete_reply (err e) = reply (failed internal "DB error", refusal (str_append "DB error: " e.what))
delete_reply (ok false) = reply (failed not_found "Not found", refusal "Room not found")
delete_reply (ok true) = reply (success, accepted "OK" [])

unfoldable pub delete_room : Option ℤ → Handler (Status × RoomResponse)
unfolding delete_reply
delete_room none = reply (
  failed invalid_argument "Invalid conversation_id",
  refusal "Invalid conversation_id (expected room:<id>)",
)
delete_room (some id) = attempted (delete_conversation_by_id id) >>= delete_reply

unfoldable pub delete_conversation_rpc : Str → Handler (Status × RoomResponse)
unfolding delete_room
delete_conversation_rpc conversation_id = delete_room (parse_room_id conversation_id)
