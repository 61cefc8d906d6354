-- ===== src/Gateway/Delivery.antt =====
-- A message that one user posts to another through gateway_service/src/main.cpp comes back to the
-- other one.
use wizz_mania.Prelude.{
  ℕ, ◌≡◌, refl, ap, ◌∙◌, sym, subst, true, false, List, [], ◌∷◌, ◌++◌, map, some, All,
}
use mathlib.Core.List.{reverse, reverse-cons, map-append}
use wizz_mania.Prelude.Text.{Str, empty}
use wizz_mania.Prelude.Result.{ok}
use wizz_mania.Prelude.Int.{ℤ, pos}
use wizz_mania.Number.{parse_int}
use wizz_mania.Base64.RoundTrip.{AreBytes}
use wizz_mania.Keys.{is_room_id, is_numeric_id, dm_conversation_key, parse_room_id}
use wizz_mania.Keys.Pairs.{dm_conversation_key_comm, dm_conversation_key-IsPrivate}
use wizz_mania.Grpc.{success}
use wizz_mania.Auth.Service.{TokenStatus}
use wizz_mania.Messaging.Tables.{Tables, limited}
use wizz_mania.Messaging.History.Order.{unlimited}
use wizz_mania.Messaging.Integrity.{IsValid}
use wizz_mania.Messaging.Service.{
  Service, EncryptedMessage, db_id, sender_text, get_history, history_message, send_message,
}
use wizz_mania.Messaging.Streams.{IsThere}
use wizz_mania.Messaging.Delivery.{IsQuiet, insert_for, entry_of, send_message-stores, history-sent}
use wizz_mania.Gateway.Http.{
  Env, HttpRequest, Cloud, MessageEntry, message_list, send_ack, validate_access_token,
  set_proto_json,
}
use wizz_mania.Gateway.Conversations.{
  messages_route, post_message_route, history_request, key_for, message_limit, message_entry,
  posted_message,
}
use wizz_mania.Messaging.Reading.{get_history-no_room}
use wizz_mania.Gateway.Limits.{message_limit-InLimits, limited-cons}
use wizz_mania.Gateway.Answers.{
  validate_access_token-Leaves, post_message_route-ok, messages_route-ok,
}

-- The id of a user in a path, as the client of the gateway passes it for a conversation with him.
pub record IsContact (id : Str) : Type 0 where
  pub named : empty id ≡ false
  pub no_room : is_room_id id ≡ false
  pub numeric : is_numeric_id id ≡ true

key_for-contact :
    (caller : TokenStatus) (id : Str)
    → IsContact id
    → key_for caller id ≡ dm_conversation_key caller.user_id id
unfolding key_for
key_for-contact caller id h = rw (h.no_room, h.numeric) refl

-- A cloud that loses no call, and whose messaging service has an open connection that nothing
-- breaks off, valid tables and no listed stream that is gone.
pub record IsCalm (c : Cloud) : Type 0 where
  pub linked : c.links ≡ []
  pub quiet : IsQuiet c.messaging.db
  pub valid : IsValid c.messaging.db.tables
  pub there : All (IsThere c.messaging.objects) c.messaging.active_streams

-- The last message of a page is the first one of the history.
oldest_first :
    (f : EncryptedMessage → MessageEntry) (m : EncryptedMessage) (ms : List EncryptedMessage)
    → map f (reverse (m ∷ ms)) ≡ map f (reverse ms) ++ f m ∷ []
oldest_first f m ms = ap (map f) (reverse-cons m ms) ∙ map-append f (reverse ms) (m ∷ [])

module _ (env : Env) (post get : HttpRequest) (sender receiver : TokenStatus) (value content : Str)
    (time : ℤ) (c c1 : Cloud) (id : ℕ) (u : Tables) where
  abbrev posted : EncryptedMessage
  posted = posted_message time receiver.user_id sender content

  posts-ok :
      IsCalm c
      → IsContact receiver.user_id
      → empty post.body ≡ false
      → empty content ≡ false
      → env.json.parse_content post.body ≡ some content
      → validate_access_token env post c ≡ (ok (ok sender), c1)
      → insert_for posted c.messaging.db.tables ≡ (ok id, u)
      → (s : Service) × (s.db ≡ record c.messaging.db { tables = u })
        × (post_message_route receiver.user_id time env post c ≡ (
          ok (
              set_proto_json env.json 200
                (send_ack (record { message_id = db_id id; accepted = true }))),
          record c1 { messaging = s },
        ))
  unfolding posted_message
  posts-ok calm contact full some_text parses valid stored =
      let left = validate_access_token-Leaves env post c calm.linked in
      let kept = ap (λ r. r.1.messaging) (sym valid) ∙ left.messaging_kept in
      let named =
        ap empty (key_for-contact sender receiver.user_id contact)
        ∙ (dm_conversation_key-IsPrivate sender.user_id receiver.user_id).named in
      let (answer, db) =
        send_message-stores time posted c.messaging id u calm.quiet named calm.there stored in
      let s = (send_message time posted c.messaging).1 in
      (
        s,
        db,
        post_message_route-ok receiver.user_id time env post sender content c c1
            (record { message_id = db_id id; accepted = true }) s contact.named full some_text
            parses valid (ap (λ r. r.1.links) (sym valid) ∙ left.linked)
            (ap (send_message time posted) kept ∙ ap (λ r. (r, s)) answer),
      )

  abbrev entry : EncryptedMessage
  entry = entry_of posted id c.messaging.db.tables.now

  -- What `GetHistory` then returns to the receiver.
  history-starts :
      (s : Service)
      → IsCalm c
      → IsContact receiver.user_id
      → IsContact sender.user_id
      → AreBytes content
      → insert_for posted c.messaging.db.tables ≡ (ok id, u)
      → s.db ≡ record c.messaging.db { tables = u }
      → (rest : List EncryptedMessage) × (get_history
            (history_request get sender.user_id (some receiver))
            s
          ≡ (ok (success, entry ∷ rest), s))
  unfolding history_request posted_message
  history-starts s calm to from bytes stored db =
      let key = posted.conversation_id in
      let same : key_for receiver sender.user_id ≡ key =
        key_for-contact receiver sender.user_id from
        ∙ dm_conversation_key_comm receiver.user_id sender.user_id
        ∙ sym (key_for-contact sender receiver.user_id to) in
      let limit = message_limit get in
      let entries =
        λ (k : Str) (t : Tables). limited limit (map (history_message k) (unlimited k t)) in
      let named : empty key ≡ false =
        ap empty (key_for-contact sender receiver.user_id to)
        ∙ (dm_conversation_key-IsPrivate sender.user_id receiver.user_id).named in
      let no_room =
        ap parse_room_id (key_for-contact receiver sender.user_id from)
        ∙ (dm_conversation_key-IsPrivate receiver.user_id sender.user_id).no_room in
      let quiet : IsQuiet s.db =
        subst IsQuiet (sym db)
          (record { opened = calm.quiet.opened; no_faults = calm.quiet.no_faults }) in
      let (rest, cut) =
        limited-cons limit entry (map (history_message key) (unlimited key c.messaging.db.tables))
          (message_limit-InLimits get) in
      (
        rest,
        get_history-no_room (history_request get sender.user_id (some receiver)) s quiet no_room
            ∙ ap (λ ms. (ok (success, ms), s))
                (ap (λ k. entries k s.db.tables) same
                  ∙ ap (λ d. entries key d.tables) db
                  ∙ ap (limited limit)
                      (history-sent posted c.messaging.db.tables u id calm.valid named bytes stored)
                  ∙ cut),
      )

  -- In a calm cloud, for users with numeric ids: a text of bytes, not empty, that the sender posts
  -- under the receiver's id, in a request with a valid token, and that the database takes under the
  -- id `id`, is acknowledged under that id; and where the receiver's token is valid, the page that
  -- the receiver then gets under the sender's id ends, whatever limit is asked for, with that text,
  -- its sender's number and the database's time.
  pub messages_route-post_message_route :
      (c3 : Cloud)
      → IsCalm c
      → IsContact receiver.user_id
      → IsContact sender.user_id
      → empty post.body ≡ false
      → empty content ≡ false
      → AreBytes content
      → env.json.parse_content post.body ≡ some content
      → get.authorization ≡ some value
      → insert_for (posted_message time receiver.user_id sender content) c.messaging.db.tables
        ≡ (ok id, u)
      → validate_access_token env post c ≡ (ok (ok sender), c1)
      → validate_access_token env get (post_message_route receiver.user_id time env post c).1
        ≡ (ok (ok receiver), c3)
      → ((post_message_route receiver.user_id time env post c).0
          ≡ ok (
              set_proto_json env.json 200
                (send_ack (record { message_id = db_id id; accepted = true }))))
        × ((earlier : List MessageEntry) × ((messages_route sender.user_id env get
                (post_message_route receiver.user_id time env post c).1).0
              ≡ ok (
                  set_proto_json env.json 200 (
                    message_list (
                      earlier
                      ++ record {
                        message_id = db_id id;
                        conversation_id = sender.user_id;
                        sender_id = sender_text (parse_int sender.user_id);
                        content = content;
                        timestamp_unix = pos c.messaging.db.tables.now;
                      }
                        ∷ [])))))
  unfolding posted_message message_entry
  messages_route-post_message_route c3 calm to from full some_text bytes parses there stored valid
        valid' =
      let (s, db, sent) = posts-ok calm to full some_text parses valid stored in
      let c2 = (post_message_route receiver.user_id time env post c).1 in
      let arrived : c2 ≡ record c1 { messaging = s } = ap (λ r. r.1) sent in
      let linked1 : c1.links ≡ [] =
        ap (λ r. r.1.links) (sym valid)
        ∙ (validate_access_token-Leaves env post c calm.linked).linked in
      let left = validate_access_token-Leaves env get c2 (ap (λ x. x.links) arrived ∙ linked1) in
      let kept : c3.messaging ≡ s =
        ap (λ r. r.1.messaging) (sym valid')
        ∙ left.messaging_kept
        ∙ ap (λ x. x.messaging) arrived in
      let (rest, answers) =
        history-starts c3.messaging calm to from bytes stored (ap (λ m. m.db) kept ∙ db) in
      (
        ap (λ r. r.0) sent,
        (
          map (message_entry sender.user_id) (reverse rest),
          ap (λ r. r.0)
                (messages_route-ok sender.user_id env get receiver value c2 c3 (entry ∷ rest)
                  c3.messaging from.named there valid'
                  (ap (λ r. r.1.links) (sym valid') ∙ left.linked) answers)
              ∙ ap (λ ms. ok (set_proto_json env.json 200 (message_list ms)))
                  (oldest_first (message_entry sender.user_id) entry rest),
        ),
      )
