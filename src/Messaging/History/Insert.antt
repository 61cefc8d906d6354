-- ===== src/Messaging/History/Insert.antt =====
-- A message that is inserted stands first in the history of its conversation.
use wizz_mania.Prelude.{
  ℕ, ◌≡◌, ap, sym, false, [], ◌∷◌, ◌++◌, map, Option, some, arith, All-filter, filter,
}
use wizz_mania.Prelude.Text.{Str, empty}
use wizz_mania.Prelude.Int.{ℤ, int_eq, int_eq_iff}
use wizz_mania.Prelude.Result.{ok}
use wizz_mania.Keys.{parse_dm_key}
use wizz_mania.Sql.{◌>>=◌}
use wizz_mania.Messaging.Tables.{
  Tables, Message, titled, newest_first, select_messages, ensure_conversation, insert_message,
}
use wizz_mania.Messaging.Database.{message_row, insert_pair, insert_message_body}
use wizz_mania.Messaging.Integrity.{IsValid}
use wizz_mania.Messaging.History.Order.{all_rows, unlimited, newest_first-append}
use wizz_mania.Messaging.History.Ensured.{
  body-ok, ensure_conversation-Ensured, insert_pair-Same, filter-append, before-Ensured, Ensured,
  Same, stored_message,
}

insert_message-stores :
    (conversation : ℤ) (sender : Option ℤ) (content : Str) (t u : Tables) (n : ℕ)
    → insert_message conversation sender content t ≡ (ok n, u)
    → (n ≡ t.next_message)
      × (u.conversations ≡ t.conversations)
      × (u.messages
          ≡ t.messages ++ stored_message t.next_message conversation sender content t.now ∷ [])
unfolding insert_message
insert_message-stores conversation sender content t u n e = ground arith

module _ (key content : Str) (sender : Option ℤ) (t t1 t2 u : Tables) (id : ℤ) (n : ℕ)
    (v : IsValid t) (w : Ensured key t t1 id) (same : Same t1 t2)
    (e : insert_message id sender content t2 ≡ (ok n, u)) where
  message : Message
  message = stored_message t.next_message id sender content t.now

  messages-eq : u.messages ≡ t.messages ++ message ∷ []
  unfolding message
  messages-eq = cc (
    (insert_message-stores id sender content t2 u n e).2,
    same.messages,
    same.now,
    same.next_message,
    w.messages_kept,
    w.now_kept,
    w.next_kept,
  )

  number-eq : n ≡ t.next_message
  number-eq =
      cc ((insert_message-stores id sender content t2 u n e).0, same.next_message, w.next_kept)

  titled-eq : titled key u.conversations ≡ some w.conversation
  titled-eq =
      cc ((insert_message-stores id sender content t2 u n e).1, same.conversations, w.is_titled)

  select-eq :
      newest_first (filter (λ m. int_eq m.conversation w.conversation.id) u.messages)
      ≡ message ∷ newest_first (filter (λ m. int_eq m.conversation w.conversation.id) t.messages)
  unfolding message
  select-eq =
      rw
        (
          messages-eq,
          filter-append w.conversation.id t.messages message
              ((int_eq_iff id w.conversation.id).1 (sym w.has_id)),
        )
        (newest_first-append _ message (All-filter _ _ t.messages v.messages_below))

  stored-first :
      all_rows key (titled key u.conversations) u.messages
      ≡ record {
        id_messages = n;
        conversation_key = key;
        sender_id = sender;
        encrypted_content_b64 = content;
        created_at_unix = t.now;
      }
        ∷ all_rows key (titled key t.conversations) t.messages
  unfolding all_rows select_messages message_row message
  stored-first =
      rw (before-Ensured key t t1 id w v, titled-eq, number-eq)
        (ap (map (message_row key)) select-eq)

named-insert :
    (c : ℕ) (k content : Str) (sender : Option ℤ) (t u : Tables) (n : ℕ)
    → IsValid t
    → insert_message_body (c ∷ k) sender content t ≡ (ok n, u)
    → unlimited (c ∷ k) u
      ≡ record {
        id_messages = n;
        conversation_key = c ∷ k;
        sender_id = sender;
        encrypted_content_b64 = content;
        created_at_unix = t.now;
      }
        ∷ unlimited (c ∷ k) t
unfolding insert_message_body unlimited
named-insert c k content sender t u n v e =
    let key : Str = c ∷ k in
    let t1 = (ensure_conversation key t).1 in
    let (id, found, rest) =
      body-ok (λ id. insert_pair id (parse_dm_key key) >>= λ _. insert_message id sender content)
        (ensure_conversation key t).0 t1 u n e in
    let t2 = (insert_pair id (parse_dm_key key) t1).1 in
    let (_, _, last) =
      body-ok (λ _. insert_message id sender content) (insert_pair id (parse_dm_key key) t1).0 t2 u
        n rest in
    stored-first key content sender t t1 t2 u id n v
      (ensure_conversation-Ensured key t t1 id (ap (λ r. (r, t1)) found))
      (insert_pair-Same id (parse_dm_key key) t1) last

-- A message that `insertMessage` has stored stands first in the history of its conversation, with
-- its sender, its content and the time of the call, before all that stood there.
pub unlimited-insert :
    (key content : Str) (sender : Option ℤ) (t u : Tables) (n : ℕ)
    → empty key ≡ false
    → IsValid t
    → insert_message_body key sender content t ≡ (ok n, u)
    → unlimited key u
      ≡ record {
        id_messages = n;
        conversation_key = key;
        sender_id = sender;
        encrypted_content_b64 = content;
        created_at_unix = t.now;
      }
        ∷ unlimited key t
unlimited-insert [] content sender t u n named v e = cc named
unlimited-insert (c ∷ k) content sender t u n named v e = named-insert c k content sender t u n v e
