-- ===== src/Gateway/Rooms.antt =====
-- The routes of gateway_service/src/main.cpp for rooms.
use wizz_mania.Prelude.{
  ℕ, true, ◌&&◌, ◌||◌, not, List, [], ◌∷◌, ◌++◌, map, filter, none, some, if◌then◌else◌,
}
use wizz_mania.Prelude.Text.{Str, codes, empty, str_eq}
use wizz_mania.Prelude.Maps.{Map, emplace, lookup}
use wizz_mania.Prelude.Result.{Result, ok, err}
use wizz_mania.Prelude.Int.{pos}
use wizz_mania.Keys.{is_room_id}
use wizz_mania.Grpc.{
  Status, StatusCode, invalid_argument, not_found, permission_denied, unimplemented,
}
use wizz_mania.Auth.Service.{TokenStatus}
use wizz_mania.Auth.Admin.{UserEntry, list_users_rpc}
use wizz_mania.Messaging.Service.{is_ok}
use wizz_mania.Messaging.Rooms.{
  ConversationSummary, CreateConversationRequest, refusal, list_conversations, create_conversation,
  delete_conversation_rpc,
}
use wizz_mania.Gateway.Http.{
  HttpRequest, HttpResponse, Env, Gateway, ◌>>=◌, reply, refuse, RoomEntry, room_list,
  room_response, NewRoom, get_bearer_token, authorized, with_body, auth_rpc, messaging_rpc,
  set_proto_json, error_text,
}

unfoldable pub room_entry : ConversationSummary → RoomEntry
room_entry c = record { room_id = c.conversation_id; title = c.title }

unfoldable pub room_entries : List ConversationSummary → List RoomEntry
unfolding room_entry
room_entries cs = map room_entry (filter (λ c. str_eq c.kind (codes "group")) cs)

-- GET /rooms
unfoldable pub rooms_route : Env → HttpRequest → Gateway HttpResponse
unfolding authorized messaging_rpc set_proto_json room_entries error_text
rooms_route env req = authorized env req λ caller.
    messaging_rpc [] (list_conversations (record { user_id = caller.user_id; limit = pos 200 }))
    >>= λ r.
        if is_ok r.0
        then reply (set_proto_json env.json 200 (room_list (room_entries r.1)))
        else reply (refuse 502 (error_text (codes "ListConversations") r.0))

-- The ids of the users by their emails.
unfoldable pub email_to_id : Map Str → List UserEntry → Map Str
unfolding emplace
email_to_id found [] = found
email_to_id found (u ∷ us) =
    email_to_id
      (if not (empty u.email) && not (empty u.user_id)
        then emplace u.email u.user_id found
        else found)
      us

-- The ids of the participants, or the first email that is unknown.
unfoldable pub participant_ids_of : Map Str → List Str → Result Str (List Str)
unfolding lookup
participant_ids_of ids [] = ok []
participant_ids_of ids (mail ∷ mails) = elim (lookup mail ids) [
  | none ↦ err mail
  | some id ↦ elim (participant_ids_of ids mails) [ ok rest ↦ ok (id ∷ rest) | err m ↦ err m ]
]

unfoldable pub create_error : Status → Str
unfolding error_text
create_error st = elim st.code [
  | unimplemented ↦
      error_text (codes "CreateConversation") st
      ++ codes ". messaging_service likely needs rebuild/restart."
  | _ ↦ error_text (codes "CreateConversation") st
]

unfoldable pub create_with : Env → CreateConversationRequest → Gateway HttpResponse
unfolding messaging_rpc set_proto_json create_error
create_with env creq = messaging_rpc (refusal "") (create_conversation creq) >>= λ r.
    if is_ok r.0
    then reply (set_proto_json env.json 200 (room_response r.1))
    else reply (refuse 502 (create_error r.0))

-- The end of `POST /rooms`, from the list of users on.
unfoldable pub create_from :
    Env → TokenStatus → NewRoom → Status × List UserEntry → Gateway HttpResponse
unfolding email_to_id participant_ids_of create_with
create_from env caller room r =
    if not (is_ok r.0)
    then reply (refuse 502 (codes r.0.message))
    else elim (participant_ids_of (email_to_id [] r.1) room.participant_emails) [
      | err mail ↦ reply (refuse 400 (codes "Unknown participant email: " ++ mail))
      | ok ids ↦
          create_with env
            (record { creator_id = caller.user_id; title = room.title; participant_ids = ids })
    ]

-- POST /rooms
unfoldable pub create_room_route : Env → HttpRequest → Gateway HttpResponse
unfolding authorized with_body auth_rpc create_from
create_room_route env req = authorized env req λ caller.
    if not (str_eq caller.role (codes "admin"))
    then reply (refuse 403 (codes "Admin required"))
    else with_body env.json.parse_room req λ room.
      if empty room.title
      then reply (refuse 400 (codes "Missing title"))
      else (auth_rpc [] (list_users_rpc env.before env.manager (get_bearer_token req) true)
          >>= create_from env caller room)

unfoldable pub room_status : StatusCode → ℕ
room_status invalid_argument = 400
room_status not_found = 404
room_status permission_denied = 403
room_status _ = 502

-- DELETE /rooms/:roomId
unfoldable pub delete_room_route : Str → Env → HttpRequest → Gateway HttpResponse
unfolding authorized messaging_rpc set_proto_json room_status error_text is_room_id
delete_room_route room_id env req = authorized env req λ caller.
    if not (str_eq caller.role (codes "admin"))
    then reply (refuse 403 (codes "Admin required"))
    else if empty room_id || not (is_room_id room_id)
    then reply (refuse 400 (codes "Invalid room id"))
    else (messaging_rpc (refusal "") (delete_conversation_rpc room_id) >>= λ r.
        if is_ok r.0
        then reply (set_proto_json env.json 200 (room_response r.1))
        else reply (refuse (room_status r.0.code) (error_text (codes "DeleteConversation") r.0)))
