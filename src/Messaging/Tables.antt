-- ===== src/Messaging/Tables.antt =====
-- The tables of init/schema.sql that the messaging service uses, and the statements of
-- services/messaging_service/src/db/Database.cpp. A list holds the rows of a table in the order of
-- their insertion, and `LIMIT 1` without an order takes the first. SERIAL ids and ids in
-- parameters are of type `int`. `now` is the clock, in the seconds that EXTRACT(EPOCH …) gives.
use wizz_mania.Prelude.{
  ℕ, suc, Bool, true, ◌&&◌, not, List, [], ◌∷◌, ◌++◌, take, filter, find?, any, ltb, leb,
  if◌then◌else◌, Option, none, some,
}
use wizz_mania.Prelude.Text.{Str, codes, str_eq, char_length}
use wizz_mania.Prelude.Int.{ℤ, pos, int_eq, int_half}
use wizz_mania.Sql.{Body, refuse, pure, foreign_key, too_long, sequence_exhausted}

pub record Conversation : Type 0 where
  pub id : ℤ
  pub title : Str
  pub kind : Str

pub record Participant : Type 0 where
  pub user : ℤ
  pub conversation : ℤ

pub record Message : Type 0 where
  pub id : ℕ
  pub conversation : ℤ
  pub sender : Option ℤ
  pub encrypted_content : Str
  pub created_at : ℕ

-- `users` holds the ids of the table `users`, which the auth service writes.
pub record Tables : Type 0 where
  pub users : List ℤ
  pub conversations : List Conversation
  pub participants : List Participant
  pub messages : List Message
  pub next_conversation : ℕ
  pub next_message : ℕ
  pub now : ℕ

-- What an aborted transaction leaves: all as it was, but the sequences.
unfoldable pub keep : Tables → Tables → Tables
keep old new = record old {
  next_conversation = new.next_conversation;
  next_message = new.next_message;
}

abbrev pub private_type : Str
private_type = codes "private"

abbrev pub group_type : Str
group_type = codes "group"

unfoldable pub titled : Str → List Conversation → Option Conversation
titled title = find? (λ c. str_eq c.title title)

abbrev pub has_conversation : ℤ → List Conversation → Bool
has_conversation id = any (λ c. int_eq c.id id)

abbrev pub has_user : ℤ → List ℤ → Bool
has_user id = any (λ u. int_eq u id)

-- SELECT 1 FROM conversation_participant WHERE id_conversations = $1 AND id_users = $2 LIMIT 1
unfoldable pub is_member : ℤ → ℤ → List Participant → Bool
is_member conversation user = any (λ p. int_eq p.conversation conversation && int_eq p.user user)

-- INSERT INTO conversations(title, type) VALUES ($1, $2) RETURNING id_conversations
unfoldable pub insert_conversation : Str → Str → Body Tables ℤ
unfolding char_length
insert_conversation title kind t =
    if leb int_half t.next_conversation
    then refuse sequence_exhausted t
    else (let t' = record t { next_conversation = suc t.next_conversation } in
        let row : Conversation = record {
          id = pos t.next_conversation;
          title = title;
          kind = kind;
        } in
        if ltb 150 (char_length title)
        then refuse too_long t'
        else pure row.id (record t' { conversations = t.conversations ++ row ∷ [] }))

-- WITH existing AS (…), inserted AS (…) SELECT … LIMIT 1
unfoldable pub ensure_conversation : Str → Body Tables ℤ
unfolding titled insert_conversation
ensure_conversation title t = elim (titled title t.conversations) [
  | none ↦ insert_conversation title private_type t
  | some c ↦ pure c.id t
]

-- INSERT INTO conversation_participant(…) VALUES ($1, $2) ON CONFLICT DO NOTHING
unfoldable pub insert_participant : ℤ → ℤ → Body Tables (Unit {0})
unfolding is_member
insert_participant user conversation t =
    if is_member conversation user t.participants
    then pure tt t
    else if has_user user t.users && has_conversation conversation t.conversations
    then pure tt (record t {
      participants = t.participants ++ record { user = user; conversation = conversation } ∷ [];
    })
    else refuse foreign_key t

abbrev pub sender_exists : Option ℤ → List ℤ → Bool
sender_exists none users = true
sender_exists (some u) users = has_user u users

-- INSERT INTO messages(conversation_id, sender_id, encrypted_content) VALUES … RETURNING
-- id_messages, with a sender or with NULL.
unfoldable pub insert_message : ℤ → Option ℤ → Str → Body Tables ℕ
insert_message conversation sender content t =
    if leb int_half t.next_message
    then refuse sequence_exhausted t
    else (let t' = record t { next_message = suc t.next_message } in
        let row : Message = record {
          id = t.next_message;
          conversation = conversation;
          sender = sender;
          encrypted_content = content;
          created_at = t.now;
        } in
        if has_conversation conversation t.conversations && sender_exists sender t.users
        then pure row.id (record t' { messages = t.messages ++ row ∷ [] })
        else refuse foreign_key t')

-- DELETE FROM conversations WHERE id_conversations = $1, with its two ON DELETE CASCADE, and
-- whether a row was there.
unfoldable pub delete_conversation : ℤ → Body Tables Bool
delete_conversation id t = pure (has_conversation id t.conversations) (record t {
  conversations = filter (λ c. not (int_eq c.id id)) t.conversations;
  participants = filter (λ p. not (int_eq p.conversation id)) t.participants;
  messages = filter (λ m. not (int_eq m.conversation id)) t.messages;
})

-- ORDER BY: insertion into a sorted list, behind the rows that go before.
unfoldable pub insert_by {ℓ} : {A : Type ℓ} → (A → A → Bool) → A → List A → List A
insert_by before a [] = a ∷ []
insert_by before a (x ∷ xs) =
    let rest = insert_by before a xs in if before a x then a ∷ x ∷ xs else x ∷ rest

unfoldable pub sort_by {ℓ} : {A : Type ℓ} → (A → A → Bool) → List A → List A
unfolding insert_by
sort_by before [] = []
sort_by before (x ∷ xs) = insert_by before x (sort_by before xs)

-- LIMIT $n, which the code appends for a positive limit alone.
abbrev pub limited {ℓ} : {A : Type ℓ} → ℤ → List A → List A
limited (pos n) rows = if ltb 0 n then take n rows else rows
limited _ rows = rows

-- ORDER BY id_messages DESC
unfoldable pub newest_first : List Message → List Message
unfolding sort_by
newest_first = sort_by (λ a b. ltb b.id a.id)

-- SELECT … FROM messages WHERE conversation_id = $1 ORDER BY id_messages DESC
unfoldable pub select_messages : ℤ → List Message → List Message
unfolding newest_first
select_messages conversation ms = newest_first (filter (λ m. int_eq m.conversation conversation) ms)

-- COALESCE(MAX(EXTRACT(EPOCH FROM m.created_at)::bigint), 0) over the messages of one conversation
unfoldable pub last_timestamp : ℤ → List Message → ℕ
last_timestamp id [] = 0
last_timestamp id (m ∷ ms) =
    let rest = last_timestamp id ms in
    if int_eq m.conversation id && ltb rest m.created_at then m.created_at else rest
