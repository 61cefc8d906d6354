-- ===== src/Messaging/Database.antt =====
-- services/messaging_service/src/db/Database.cpp: each method runs one transaction under the lock,
-- and once more on a new connection where the first try lost its connection.
use text.Mathlib.Text.{find? as text_find?}
use wizz_mania.Prelude.{
  ℕ, Bool, true, false, ◌||◌, not, List, [], ◌∷◌, filter, find?, ltb, map, String, if◌then◌else◌,
  Option, none, some,
}
use wizz_mania.Prelude.Text.{Str, empty}
use wizz_mania.Prelude.Result.{Result, ok, err}
use wizz_mania.Prelude.Int.{ℤ, int_eq, int_gt}
use wizz_mania.Keys.{parse_dm_key}
use wizz_mania.Sql.{
  Exn, Session, Exec, Body, bind, ◌>>=◌, pure, transact, connect, ensure_connected, is_failure,
}
use wizz_mania.Messaging.Tables.{
  Tables, Conversation, Message, keep, titled, is_member, insert_conversation, ensure_conversation,
  insert_participant, insert_message, delete_conversation, limited, newest_first, select_messages,
  last_timestamp, sort_by, group_type,
}

abbrev pub Db : Type 0
Db = Session Tables

abbrev mentions : String → String → Bool
mentions msg phrase = elim (text_find? msg phrase) [ none ↦ false | some i ↦ true ]

unfoldable pub is_likely_connection_loss : String → Bool
is_likely_connection_loss msg =
    mentions msg "Lost connection"
    || mentions msg "server closed the connection"
    || mentions msg "connection not open"
    || mentions msg "no connection to the server"

-- `reconnectLocked` closes the connection, whatever comes of it, and opens another.
unfoldable pub reconnect_locked : Exec Tables (Unit {0})
unfolding connect
reconnect_locked s = connect (record s { opened = false })

-- The lambda `attempt` of each method: `ensureConnectedLocked()` and the transaction.
unfoldable pub attempt : {A : Type 0} → Body Tables A → Exec Tables A
unfolding ensure_connected transact
attempt body = bind ensure_connected (λ _. transact keep body)

-- The catch clauses behind `return attempt();`. What the second try throws is not caught.
unfoldable pub recover :
    {A : Type 0}
    → (Exn → Result Exn A)
    → (Exn → Result Exn A)
    → Body Tables A
    → Result Exn A × Db
    → Result Exn A × Db
unfolding reconnect_locked attempt
recover on_failure on_other body (ok a, s) = (ok a, s)
recover on_failure on_other body (err e, s) =
    if is_failure e
    then (if not s.opened || is_likely_connection_loss e.what
        then bind reconnect_locked (λ _. attempt body) s
        else (on_failure e, s))
    else (on_other e, s)

-- A method that lets through what it does not retry.
unfoldable pub with_retry : {A : Type 0} → Body Tables A → Exec Tables A
unfolding recover attempt
with_retry body s = recover (λ e. err e) (λ e. err e) body (attempt body s)

unfoldable pub ensure_conversation_id : Str → Exec Tables ℤ
unfolding with_retry
ensure_conversation_id key = with_retry (ensure_conversation key)

-- The two INSERTs for a direct message.
unfoldable pub insert_pair : ℤ → Option (ℤ × ℤ) → Body Tables (Unit {0})
unfolding insert_participant
insert_pair conversation none = pure tt
insert_pair conversation (some (a, b)) =
    insert_participant a conversation >>= λ _. insert_participant b conversation

unfoldable pub insert_message_body : Str → Option ℤ → Str → Body Tables ℕ
unfolding ensure_conversation insert_pair insert_message
insert_message_body key sender content = ensure_conversation key >>= λ conversation.
    insert_pair conversation (parse_dm_key key) >>= λ _. insert_message conversation sender content

unfoldable pub insert_message_db : Str → Option ℤ → Str → Exec Tables ℕ
unfolding with_retry
insert_message_db key sender content = with_retry (insert_message_body key sender content)

-- `DbMessageRow`
pub record MessageRow : Type 0 where
  pub id_messages : ℕ
  pub conversation_key : Str
  pub sender_id : Option ℤ
  pub encrypted_content_b64 : Str
  pub created_at_unix : ℕ

unfoldable pub message_row : Str → Message → MessageRow
message_row key m = record {
  id_messages = m.id;
  conversation_key = key;
  sender_id = m.sender;
  encrypted_content_b64 = m.encrypted_content;
  created_at_unix = m.created_at;
}

-- FROM messages m JOIN conversations c ON c.id_conversations = m.conversation_id
unfoldable pub joined : List Conversation → List Message → List MessageRow
unfolding message_row
joined cs [] = []
joined cs (m ∷ ms) =
    let rest = joined cs ms in
    elim (find? (λ c. int_eq c.id m.conversation) cs) [
      | none ↦ rest
      | some c ↦ message_row c.title m ∷ rest
    ]

-- The rows of one conversation, or of none where no conversation has the key for a title.
unfoldable pub history_of : Str → ℤ → Option Conversation → List Message → List MessageRow
unfolding message_row select_messages
history_of key limit none ms = []
history_of key limit (some c) ms = map (message_row key) (limited limit (select_messages c.id ms))

-- `getHistory`; the empty key asks for the messages of all conversations.
unfoldable pub history_body : Str → ℤ → Body Tables (List MessageRow)
unfolding joined history_of titled newest_first
history_body key limit t =
    if empty key
    then pure (limited limit (joined t.conversations (newest_first t.messages))) t
    else pure (history_of key limit (titled key t.conversations) t.messages) t

unfoldable pub get_history_db : Str → ℤ → Exec Tables (List MessageRow)
unfolding with_retry
get_history_db key limit = with_retry (history_body key limit)

unfoldable pub create_group_conversation : Str → Exec Tables ℤ
unfolding with_retry
create_group_conversation title = with_retry (insert_conversation title group_type)

unfoldable pub add_participant_body : ℤ → ℤ → Body Tables Bool
unfolding insert_participant
add_participant_body conversation user = insert_participant user conversation >>= λ _. pure true

-- `catch (...) { return false; }` behind the clause for `pqxx::failure`.
unfoldable pub add_participant : ℤ → ℤ → Exec Tables Bool
unfolding recover attempt
add_participant conversation user s =
    let body = add_participant_body conversation user in
    recover (λ e. err e) (λ e. ok false) body (attempt body s)

unfoldable pub is_participant : ℤ → ℤ → Exec Tables Bool
unfolding recover attempt
is_participant conversation user s =
    let body : Body Tables Bool = λ t. pure (is_member conversation user t.participants) t in
    recover (λ e. ok false) (λ e. ok false) body (attempt body s)

-- `DbConversationRow`
pub record ConversationRow : Type 0 where
  pub id_conversations : ℤ
  pub title : Str
  pub kind : Str
  pub last_timestamp_unix : ℕ

unfoldable pub conversation_row : List Message → Conversation → ConversationRow
unfolding last_timestamp
conversation_row ms c = record {
  id_conversations = c.id;
  title = c.title;
  kind = c.kind;
  last_timestamp_unix = last_timestamp c.id ms;
}

-- ORDER BY last_ts DESC, c.id_conversations DESC
abbrev pub listed_before : ConversationRow → ConversationRow → Bool
listed_before a b =
    if ltb b.last_timestamp_unix a.last_timestamp_unix
    then true
    else if ltb a.last_timestamp_unix b.last_timestamp_unix
    then false
    else int_gt a.id_conversations b.id_conversations

-- The conversations that the user takes part in. The primary key of `conversation_participant`
-- makes the GROUP BY one row for each.
unfoldable pub list_body : ℤ → ℤ → Body Tables (List ConversationRow)
unfolding conversation_row is_member sort_by
list_body user limit t =
    pure
      (limited limit (
        sort_by listed_before (
          map (conversation_row t.messages)
            (filter (λ c. is_member c.id user t.participants) t.conversations))))
      t

unfoldable pub list_conversations_for_user : ℤ → ℤ → Exec Tables (List ConversationRow)
unfolding with_retry
list_conversations_for_user user limit = with_retry (list_body user limit)

unfoldable pub delete_conversation_by_id : ℤ → Exec Tables Bool
unfolding with_retry
delete_conversation_by_id id = with_retry (delete_conversation id)
