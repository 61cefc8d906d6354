-- ===== src/Messaging/Delivery.antt =====
-- A message that a client sends comes back to the clients that ask for the history.
use wizz_mania.Prelude.{
  ℕ, ◌≡◌, ap, sym, ◌∙◌, subst, true, false, [], ◌∷◌, map, none, if◌then◌else◌, All,
}
use wizz_mania.Prelude.Text.{Str, empty}
use wizz_mania.Prelude.Result.{ok}
use wizz_mania.Prelude.Int.{ℤ, pos}
use wizz_mania.Number.{parse_int}
use wizz_mania.Base64.{encode}
use wizz_mania.Base64.RoundTrip.{AreBytes, safe_b64_decode-encode}
use wizz_mania.Grpc.{success}
use wizz_mania.Sql.{Body, next_event, later_events}
use wizz_mania.Messaging.Tables.{Tables, limited}
use wizz_mania.Messaging.Database.{
  Db, with_retry, insert_message_body, insert_message_db, get_history_db, history_body,
}
use wizz_mania.Messaging.Integrity.{IsValid}
use wizz_mania.Messaging.Retry.{with_retry-ok}
use wizz_mania.Messaging.History.Order.{unlimited, history_body-unlimited}
use wizz_mania.Messaging.History.Insert.{unlimited-insert}
use wizz_mania.Messaging.Service
use wizz_mania.Messaging.Service.{
  Service, Handler, EncryptedMessage, SendAck, no_ack, is_ok, reply, HistoryRequest, stamp, db_id,
  send_message, persist_and_broadcast, announce, get_history, check_access, history_reply,
  history_message, broadcast, sender_text,
}
use wizz_mania.Messaging.Streams.{IsThere, broadcast_reaches}

-- A connection that is open, and that nothing will break off.
pub record IsQuiet (d : Db) : Type 0 where
  pub opened : d.opened ≡ true
  pub no_faults : d.faults ≡ []

-- The history of a conversation for a client that names no requester.
abbrev pub all_of : Str → HistoryRequest
all_of key = record { conversation_id = key; limit = pos 0; requester_id = [] }

module _ (d : Db) (q : IsQuiet d) where
  pub quiet_next : next_event d.faults ≡ none
  quiet_next = ap next_event q.no_faults

  pub quiet_later : later_events d.faults ≡ d.faults
  quiet_later = rw q.no_faults

  -- On a quiet database a method is its body.
  pub quiet_write :
      {A : Type 0} (body : Body Tables A) (a : A) (t : Tables)
      → body d.tables ≡ (ok a, t)
      → with_retry body d ≡ (ok a, record d { tables = t })
  quiet_write body a t e =
      with_retry-ok body d q.opened a t quiet_next e
      ∙ ap (λ f. (ok a, record d { tables = t; faults = f })) quiet_later

-- On a quiet database it is the messages of `unlimited`.
pub get_history-unlimited :
    (key : Str) (s : Service)
    → IsQuiet s.db
    → get_history (all_of key) s
      ≡ (ok (success, map (history_message key) (unlimited key s.db.tables)), s)
unfolding get_history get_history_db
get_history-unlimited key s q =
    ap (λ r. history_reply (all_of key) r.0 (record s { db = r.1 }))
      (quiet_write s.db q (history_body key (pos 0)) (limited (pos 0) (unlimited key s.db.tables))
        s.db.tables (history_body-unlimited key (pos 0) s.db.tables))

-- What `insertMessage` is given for a message, and the history entry of the message.
abbrev pub insert_for : EncryptedMessage → Body Tables ℕ
insert_for msg =
    insert_message_body msg.conversation_id (parse_int msg.sender_id) (encode msg.ciphertext)

abbrev pub entry_of : EncryptedMessage → ℕ → ℕ → EncryptedMessage
entry_of msg id now = record {
  message_id = db_id id;
  conversation_id = msg.conversation_id;
  sender_id = sender_text (parse_int msg.sender_id);
  ciphertext = msg.ciphertext;
  nonce = [];
  timestamp_unix = pos now;
}

history_message-entry :
    (msg : EncryptedMessage) (id now : ℕ)
    → empty msg.conversation_id ≡ false
    → AreBytes msg.ciphertext
    → history_message msg.conversation_id (record {
      id_messages = id;
      conversation_key = msg.conversation_id;
      sender_id = parse_int msg.sender_id;
      encrypted_content_b64 = encode msg.ciphertext;
      created_at_unix = now;
    })
      ≡ entry_of msg id now
unfolding history_message
history_message-entry msg id now named bytes =
    rw (named, safe_b64_decode-encode msg.ciphertext bytes)

-- The state after the message is stored, before it is announced.
abbrev pub with_tables : Tables → Service → Service
with_tables u s = record s { db = record s.db { tables = u } }

pub handler-bind :
    {A B : Type 0} (m : Handler A) (f : A → Handler B) (s s' : Service) (a : A)
    → m s ≡ (ok a, s')
    → Service.◌>>=◌ m f s ≡ f a s'
handler-bind m f s s' a e = ap (λ r. Service.◌>>=◌ (λ s. r) f s) e

abbrev numbered : EncryptedMessage → ℕ → EncryptedMessage
numbered msg id = record msg { message_id = db_id id }

announce-ok :
    (msg : EncryptedMessage) (id : ℕ) (s : Service)
    → (broadcast (numbered msg id) s).0 ≡ ok tt
    → announce msg (ok id) s ≡ (ok (success, numbered msg id), (broadcast (numbered msg id) s).1)
unfolding announce
announce-ok msg id s e =
    handler-bind (broadcast (numbered msg id)) (λ _. reply (success, numbered msg id)) s
      (broadcast (numbered msg id) s).1 tt (ap (λ r. (r, (broadcast (numbered msg id) s).1)) e)

persist-stores :
    (time : ℤ) (msg : EncryptedMessage) (s : Service) (id : ℕ) (u : Tables)
    → IsQuiet s.db
    → empty msg.conversation_id ≡ false
    → insert_for msg s.db.tables ≡ (ok id, u)
    → persist_and_broadcast time msg s ≡ announce (stamp time msg) (ok id) (with_tables u s)
unfolding persist_and_broadcast insert_message_db
persist-stores time msg s id u q named stored = rw named (
    ap (λ r. announce (stamp time msg) r.0 (record s { db = r.1 }))
      (quiet_write s.db q (insert_for msg) id u stored))

-- What `send_message` makes of the result of `persist_and_broadcast`.
send_message-persist :
    (time : ℤ) (msg m : EncryptedMessage) (s s' : Service)
    → persist_and_broadcast time msg s ≡ (ok (success, m), s')
    → send_message time msg s
      ≡ (ok (success, record { message_id = m.message_id; accepted = true }), s')
unfolding send_message
send_message-persist time msg m s s' e =
    handler-bind (persist_and_broadcast time msg)
      (λ r.
        if is_ok r.0
        then reply (success, record { message_id = r.1.message_id; accepted = true })
        else reply (r.0, no_ack))
      s s' (success, m) e

-- `SendMessage` stores a message that the database takes, and returns its new id.
pub send_message-stores :
    (time : ℤ) (msg : EncryptedMessage) (s : Service) (id : ℕ) (u : Tables)
    → IsQuiet s.db
    → empty msg.conversation_id ≡ false
    → All (IsThere s.objects) s.active_streams
    → insert_for msg s.db.tables ≡ (ok id, u)
    → ((send_message time msg s).0
        ≡ ok (success, record { message_id = db_id id; accepted = true }))
      × ((send_message time msg s).1.db ≡ record s.db { tables = u })
send_message-stores time msg s id u q named there stored =
    let m : EncryptedMessage = numbered (stamp time msg) id in
    let (fine, _, _, same) = broadcast_reaches (with_tables u s) m 0 there in
    let sent = send_message-persist time msg m s (broadcast m (with_tables u s)).1 (
      persist-stores time msg s id u q named stored
      ∙ announce-ok (stamp time msg) id (with_tables u s) fine) in
    (ap (λ r. r.0) sent, ap (λ r. r.1.db) sent ∙ same)

-- A stored message stands first in the history of its conversation.
pub history-sent :
    (msg : EncryptedMessage) (t u : Tables) (id : ℕ)
    → IsValid t
    → empty msg.conversation_id ≡ false
    → AreBytes msg.ciphertext
    → insert_for msg t ≡ (ok id, u)
    → map (history_message msg.conversation_id) (unlimited msg.conversation_id u)
      ≡ entry_of msg id t.now
        ∷ map (history_message msg.conversation_id) (unlimited msg.conversation_id t)
history-sent msg t u id v named bytes stored =
    let entry = history_message msg.conversation_id in
    ap (map entry) (
      unlimited-insert msg.conversation_id (encode msg.ciphertext) (parse_int msg.sender_id) t u id
        named v stored)
    ∙ ap (λ m. m ∷ map entry (unlimited msg.conversation_id t))
        (history_message-entry msg id t.now named bytes)

-- On an open connection that nothing breaks off, with valid tables and no listed stream gone: a
-- message with a conversation id and a ciphertext of bytes, which the database takes under the
-- id `id`, is acknowledged under that id, and then stands first in the history of its
-- conversation, with its ciphertext and its sender's number, before all that stood there.
pub get_history-send_message :
    (time : ℤ) (msg : EncryptedMessage) (s : Service) (id : ℕ) (u : Tables)
    → IsQuiet s.db
    → IsValid s.db.tables
    → empty msg.conversation_id ≡ false
    → AreBytes msg.ciphertext
    → All (IsThere s.objects) s.active_streams
    → insert_for msg s.db.tables ≡ (ok id, u)
    → ((send_message time msg s).0
        ≡ ok (success, record { message_id = db_id id; accepted = true }))
      × ((get_history (all_of msg.conversation_id) (send_message time msg s).1).0
          ≡ ok (
            success,
            entry_of msg id s.db.tables.now
                ∷ map
                    (history_message msg.conversation_id)
                    (unlimited msg.conversation_id s.db.tables),
          ))
get_history-send_message time msg s id u q v named bytes there stored =
    let (answer, db) = send_message-stores time msg s id u q named there stored in
    let after = (send_message time msg s).1 in
    let quiet : IsQuiet after.db =
      subst IsQuiet (sym db) (record { opened = q.opened; no_faults = q.no_faults }) in
    (
      answer,
      ap (λ r. r.0) (get_history-unlimited msg.conversation_id after quiet)
          ∙ ap
              (λ d. ok (
                success,
                map (history_message msg.conversation_id) (unlimited msg.conversation_id d.tables),
              ))
              db
          ∙ ap (λ ms. ok (success, ms)) (history-sent msg s.db.tables u id v named bytes stored),
    )
