-- ===== src/Messaging/History/Ensured.antt =====
-- The conversation of a message that is inserted: `ensure_conversation` and the INSERTs of its members.
use wizz_mania.Prelude.{
  ℕ, ◌≡◌, ◌⊎◌, refl, subst, inl, inr, true, false, List, [], ◌∷◌, ◌++◌, map, Option, none, some,
  arith, Bool-cases, Option-cases, All, All-imp, filter,
}
use wizz_mania.Prelude.Text.{Str, str_eq, str_eq_refl}
use wizz_mania.Prelude.Int.{ℤ, pos, negsuc, int_eq, int_eq_iff}
use wizz_mania.Prelude.Result.{Result, ok, err}
use wizz_mania.Sql.{Body, Throw, ◌>>=◌}
use wizz_mania.Messaging.Tables.{
  Tables, Conversation, Message, titled, has_conversation, newest_first, select_messages,
  private_type, insert_conversation, ensure_conversation, insert_participant,
}
use wizz_mania.Messaging.Database.{message_row, insert_pair}
use wizz_mania.Messaging.Integrity.{IsValid, Below}
use wizz_mania.Messaging.History.Order.{all_rows}

-- A successful block of statements, taken apart.
pub body-ok :
    {A B : Type 0} (f : A → Body Tables B) (r : Result Throw A) (t u : Tables) (b : B)
    → (◌>>=◌ (λ v. (r, v)) f t) ≡ (ok b, u)
    → (a : A) × (r ≡ ok a) × (f a t ≡ (ok b, u))
body-ok f (ok a) t u b e = (a, refl, e)
body-ok f (err x) t u b e = cc e

-- What `ensure_conversation` leaves: a conversation with the title, and the messages as they were.
pub record Ensured (key : Str) (t u : Tables) (id : ℤ) : Type 0 where
  pub conversation : Conversation
  pub is_titled : titled key u.conversations ≡ some conversation
  pub has_id : conversation.id ≡ id
  pub messages_kept : u.messages ≡ t.messages
  pub now_kept : u.now ≡ t.now
  pub next_kept : u.next_message ≡ t.next_message
  was_titled :
      (titled key t.conversations ≡ some conversation)
      ⊎ ((titled key t.conversations ≡ none) × (id ≡ pos t.next_conversation))

titled-append :
    (key : Str) (cs : List Conversation) (c : Conversation)
    → titled key cs ≡ none
    → str_eq c.title key ≡ true
    → titled key (cs ++ c ∷ []) ≡ some c
unfolding titled
titled-append key [] c h e = rw e
titled-append key (x ∷ cs) c h e = ground (arith, titled-append key cs c)

new_conversation : Str → ℕ → Conversation
new_conversation key n = record { id = pos n; title = key; kind = private_type }

insert_conversation-Ensured :
    (key : Str) (t u : Tables) (id : ℤ)
    → titled key t.conversations ≡ none
    → insert_conversation key private_type t ≡ (ok id, u)
    → Ensured key t u id
unfolding insert_conversation new_conversation
insert_conversation-Ensured key t u id absent e = record {
  conversation = new_conversation key t.next_conversation;
  is_titled = ground (
    arith,
    titled-append key t.conversations (new_conversation key t.next_conversation) absent
        (str_eq_refl key),
  );
  has_id = ground arith;
  messages_kept = ground arith;
  now_kept = ground arith;
  next_kept = ground arith;
  was_titled = inr (absent, ground arith);
}

pub ensure_conversation-Ensured :
    (key : Str) (t u : Tables) (id : ℤ)
    → ensure_conversation key t ≡ (ok id, u)
    → Ensured key t u id
unfolding ensure_conversation
ensure_conversation-Ensured key t u id e = elim (Option-cases (titled key t.conversations)) [
  | inl absent ↦ insert_conversation-Ensured key t u id absent (ground (arith, e, absent))
  | inr (c, present) ↦ found c present
]
  where
    found : (c : Conversation) → titled key t.conversations ≡ some c → Ensured key t u id
    found c present =
        let call : ensure_conversation key t ≡ (ok c.id, t) = rw (present, ensure_conversation) in
        let same : t ≡ u = cc (e, call) in
        subst (λ v. Ensured key t v id) same
          (record {
            conversation = c;
            is_titled = present;
            has_id = cc (e, call);
            messages_kept = refl;
            now_kept = refl;
            next_kept = refl;
            was_titled = inl present;
          })

-- The statements about members leave these tables alone.
pub record Same (t u : Tables) : Type 0 where
  pub conversations : u.conversations ≡ t.conversations
  pub messages : u.messages ≡ t.messages
  pub now : u.now ≡ t.now
  pub next_message : u.next_message ≡ t.next_message

insert_participant-Same :
    (user conversation : ℤ) (t : Tables) → Same t (insert_participant user conversation t).1
unfolding insert_participant
insert_participant-Same user conversation t = ground arith

pub insert_pair-Same :
    (conversation : ℤ) (pair : Option (ℤ × ℤ)) (t : Tables)
    → Same t (insert_pair conversation pair t).1
unfolding insert_pair
insert_pair-Same conversation none t = record {
  conversations = refl;
  messages = refl;
  now = refl;
  next_message = refl;
}
insert_pair-Same conversation (some (a, b)) t =
    second (insert_participant a conversation t).0 (insert_participant a conversation t).1
      (insert_participant-Same a conversation t)
  where
    second :
        (r : Result Throw (Unit {0})) (v : Tables)
        → Same t v
        → Same t (◌>>=◌ (λ v. (r, v)) (λ _. insert_participant b conversation) v).1
    second (ok x) v h = ground (arith, h, insert_participant-Same b conversation v)
    second (err x) v h = h

has_conversation-Below :
    (n : ℕ) (k : ℤ) (cs : List Conversation)
    → All (λ c. Below n c.id) cs
    → has_conversation k cs ≡ true
    → int_eq k (pos n) ≡ false
has_conversation-Below n k [] h e = cc
has_conversation-Below n k (c ∷ cs) h e = elim (Bool-cases (int_eq c.id k)) [
  | inl here ↦
      subst (λ j. int_eq j (pos n) ≡ false) ((int_eq_iff c.id k).0 here) (not_next c.id h.0)
  | inr there ↦ has_conversation-Below n k cs h.1 (ground (arith, e, there))
]
  where
    not_next : (id : ℤ) → Below n id → int_eq id (pos n) ≡ false
    not_next (pos m) b = ground arith
    not_next (negsuc m) b = refl

filter-none :
    (id : ℤ) (ms : List Message)
    → All (λ m. int_eq m.conversation id ≡ false) ms
    → filter (λ m. int_eq m.conversation id) ms ≡ []
filter-none id [] h = refl
filter-none id (m ∷ ms) h = rw (h.0, filter-none id ms h.1)

pub filter-append :
    (id : ℤ) (ms : List Message) (m : Message)
    → int_eq m.conversation id ≡ true
    → filter (λ m. int_eq m.conversation id) (ms ++ m ∷ [])
      ≡ filter (λ m. int_eq m.conversation id) ms ++ m ∷ []
filter-append id [] m e = rw e
filter-append id (x ∷ ms) m e = ground (arith, filter-append id ms m e)

-- The messages of the conversation before, newest first.
pub before-Ensured :
    (key : Str) (t u : Tables) (id : ℤ) (w : Ensured key t u id)
    → IsValid t
    → all_rows key (titled key t.conversations) t.messages
      ≡ map
          (message_row key)
          (newest_first (filter (λ m. int_eq m.conversation w.conversation.id) t.messages))
unfolding all_rows select_messages newest_first
before-Ensured key t u id w v = known w.was_titled
  where
    known :
        (titled key t.conversations ≡ some w.conversation)
          ⊎ ((titled key t.conversations ≡ none) × (id ≡ pos t.next_conversation))
        → all_rows key (titled key t.conversations) t.messages
          ≡ map
              (message_row key)
              (newest_first (filter (λ m. int_eq m.conversation w.conversation.id) t.messages))
    known (inl e) = rw (e, all_rows)
    known (inr (absent, fresh)) = rw (
      absent,
      all_rows,
      w.has_id,
      fresh,
      filter-none (pos t.next_conversation) t.messages (
          All-imp _ _
            (λ m a.
              has_conversation-Below t.next_conversation m.conversation t.conversations
                v.conversations_below a.1)
            t.messages v.messages_attached),
    )

-- The message that `insertMessage` stores.
abbrev pub stored_message : ℕ → ℤ → Option ℤ → Str → ℕ → Message
stored_message id conversation sender content now = record {
  id = id;
  conversation = conversation;
  sender = sender;
  encrypted_content = content;
  created_at = now;
}
