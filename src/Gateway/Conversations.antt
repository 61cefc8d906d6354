-- ===== src/Gateway/Conversations.antt =====
-- The routes of gateway_service/src/main.cpp for messages. `time` is `std::time(nullptr)` in the
-- gateway; the messaging service takes its own time only where this is 0.
use wizz_mania.Prelude.{◌&&◌, not, List, [], ◌∷◌, map, ltb, Option, none, some, if◌then◌else◌}
use mathlib.Core.List.{reverse}
use wizz_mania.Prelude.Text.{Str, codes, empty}
use wizz_mania.Prelude.Maps.{Map, emplace}
use wizz_mania.Prelude.Result.{Result, ok, err}
use wizz_mania.Prelude.Int.{ℤ, pos, negsuc, int_half}
use wizz_mania.Number.{stoi}
use wizz_mania.Keys.{is_room_id, is_numeric_id, dm_conversation_key}
use wizz_mania.Auth.Service.{TokenStatus}
use wizz_mania.Messaging.Service.{
  is_ok, EncryptedMessage, HistoryRequest, get_history, send_message, no_ack,
}
use wizz_mania.Gateway.Http.{
  HttpRequest, HttpResponse, Env, Gateway, ◌>>=◌, reply, refuse, ConversationEntry, MessageEntry,
  conversation_list, message_list, send_ack, validate_access_token, authorized, messaging_rpc,
  set_proto_json,
}

-- `if (req.has_header("Authorization")) { … }`: the caller, where there is a header; the text of
-- the error for a 401.
unfoldable pub optional_caller : Env → HttpRequest → Gateway (Result Str (Option TokenStatus))
unfolding validate_access_token
optional_caller env req = elim req.authorization [
  | none ↦ reply (ok none)
  | some value ↦ validate_access_token env req >>= λ r.
      reply (elim r [ ok caller ↦ ok (some caller) | err text ↦ err text ])
]

-- The 401, or what follows.
unfoldable pub answer_if :
    (Option TokenStatus → Gateway HttpResponse)
    → Result Str (Option TokenStatus)
    → Gateway HttpResponse
answer_if k (err text) = reply (refuse 401 text)
answer_if k (ok caller) = k caller

-- The loop that keeps the first message of each conversation.
unfoldable pub last_by_conversation :
    Map EncryptedMessage → List EncryptedMessage → Map EncryptedMessage
unfolding emplace
last_by_conversation found [] = found
last_by_conversation found (m ∷ ms) =
    last_by_conversation
      (if empty m.conversation_id then found else emplace m.conversation_id m found) ms

unfoldable pub conversation_entry : Str × EncryptedMessage → ConversationEntry
conversation_entry (id, msg) = record {
  conversation_id = id;
  last_message = msg.ciphertext;
  last_timestamp_unix = msg.timestamp_unix;
}

-- GET /conversations. The order of a `std::unordered_map` is not specified; here it is that of the
-- insertions.
unfoldable pub conversations_route : Env → HttpRequest → Gateway HttpResponse
unfolding optional_caller answer_if messaging_rpc set_proto_json last_by_conversation
    conversation_entry
conversations_route env req =
    optional_caller env req
    >>= answer_if λ caller.
      messaging_rpc []
        (get_history (record { conversation_id = []; limit = pos 200; requester_id = [] }))
      >>= λ r.
          if is_ok r.0
          then reply (
              set_proto_json env.json 200
                (conversation_list (map conversation_entry (last_by_conversation [] r.1))))
          else reply (refuse 502 (codes r.0.message))

-- `std::max(1, std::min(500, v))`
abbrev pub clamped : ℤ → ℤ
clamped (negsuc n) = pos 1
clamped (pos n) = if ltb 500 n then pos 500 else if ltb n 1 then pos 1 else pos n

-- The parameter `limit`: 50 where there is none, or where `std::stoi` throws.
unfoldable pub message_limit : HttpRequest → ℤ
unfolding stoi
message_limit req = elim req.limit [
  | none ↦ pos 50
  | some text ↦ elim (stoi int_half text) [ none ↦ pos 50 | some (v, rest) ↦ clamped v ]
]

-- The key of the conversation that a caller means by an id.
unfoldable pub key_for : TokenStatus → Str → Str
unfolding is_room_id is_numeric_id
key_for caller id =
    if not (is_room_id id) && is_numeric_id id then dm_conversation_key caller.user_id id else id

unfoldable pub message_entry : Str → EncryptedMessage → MessageEntry
message_entry id m = record {
  message_id = m.message_id;
  conversation_id = id;
  sender_id = m.sender_id;
  content = m.ciphertext;
  timestamp_unix = m.timestamp_unix;
}

-- What is asked of `GetHistory`.
unfoldable pub history_request : HttpRequest → Str → Option TokenStatus → HistoryRequest
unfolding message_limit key_for
history_request req id none = record {
  conversation_id = id;
  limit = message_limit req;
  requester_id = [];
}
history_request req id (some caller) = record {
  conversation_id = key_for caller id;
  limit = message_limit req;
  requester_id = caller.user_id;
}

-- GET /conversations/:id/messages, oldest first.
unfoldable pub messages_route : Str → Env → HttpRequest → Gateway HttpResponse
unfolding optional_caller answer_if messaging_rpc set_proto_json history_request message_entry
messages_route id env req =
    if empty id
    then reply (refuse 400 (codes "Missing conversation id"))
    else (optional_caller env req
        >>= answer_if λ caller.
          messaging_rpc [] (get_history (history_request req id caller)) >>= λ r.
          if is_ok r.0
          then reply
              (set_proto_json env.json 200 (message_list (map (message_entry id) (reverse r.1))))
          else reply (refuse 502 (codes r.0.message)))

unfoldable pub posted_message : ℤ → Str → TokenStatus → Str → EncryptedMessage
unfolding key_for
posted_message time id caller content = record {
  message_id = [];
  conversation_id = key_for caller id;
  sender_id = caller.user_id;
  ciphertext = content;
  nonce = [];
  timestamp_unix = time;
}

-- The parse of the body, and its `content`.
unfoldable pub with_content :
    Env → HttpRequest → (Str → Gateway HttpResponse) → Gateway HttpResponse
with_content env req k = elim (env.json.parse_content req.body) [
  | none ↦ reply (refuse 400 (codes "Invalid JSON payload"))
  | some content ↦ if empty content then reply (refuse 400 (codes "Missing content")) else k content
]

-- POST /conversations/:id/messages
unfoldable pub post_message_route : Str → ℤ → Env → HttpRequest → Gateway HttpResponse
unfolding authorized messaging_rpc set_proto_json posted_message with_content
post_message_route id time env req =
    if empty id
    then reply (refuse 400 (codes "Missing conversation id"))
    else if empty req.body
    then reply (refuse 400 (codes "Empty request body"))
    else (authorized env req λ caller. with_content env req λ content.
        messaging_rpc no_ack (send_message time (posted_message time id caller content)) >>= λ r.
        if is_ok r.0
        then reply (set_proto_json env.json 200 (send_ack r.1))
        else reply (refuse 502 (codes r.0.message)))
