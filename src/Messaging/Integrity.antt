-- ===== src/Messaging/Integrity.antt =====
-- The integrity of the messaging tables: what the keys and references of init/schema.sql promise,
-- and that every method keeps it, whatever fails.
pub mod Statements
pub mod Methods
use wizz_mania.Prelude.{
  ℕ, suc, ◌≤◌, ◌<◌, ◌≡◌, refl, ap, sym, ◌∙◌, subst, inl, inr, Bool, true, false, ◌&&◌, ◌||◌, not,
  List, [], ◌∷◌, ◌++◌, map, Option, none, some, arith, if◌then◌else◌, Bool-cases, Option-cases, All,
  All-append, All-imp, All-filter, All-filter_test, any, any-append_left, any-append_last, filter,
  leb, ltb,
}
use wizz_mania.Prelude.Text.{Str, char_length}
use wizz_mania.Prelude.Int.{ℤ, pos, negsuc, int_eq, int_eq_iff, int_half}
use wizz_mania.Prelude.Result.{Result, ok, err}
use wizz_mania.Sql.{Session, Body, Throw, pure, ◌>>=◌}
use wizz_mania.Sql.Laws.{Keeps}
use wizz_mania.Messaging.Tables.{
  Tables, Conversation, Participant, Message, keep, has_conversation, has_user, sender_exists,
  is_member, titled, insert_conversation, ensure_conversation, insert_participant, insert_message,
  delete_conversation,
}

abbrev pub Below : ℕ → ℤ → Type 0
Below n (pos k) = k < n
Below n (negsuc k) = ⊥

-- Ids that differ from those behind them.
abbrev pub Distinct : List Conversation → Type 0
Distinct [] = Unit
Distinct (c ∷ cs) = All (λ d. int_eq d.id c.id ≡ false) cs × Distinct cs

abbrev pub Ascending : List Message → Type 0
Ascending [] = Unit
Ascending (m ∷ ms) = All (λ x. m.id < x.id) ms × Ascending ms

abbrev pub IsKnown : Tables → Participant → Type 0
IsKnown t p =
    (has_user p.user t.users ≡ true) × (has_conversation p.conversation t.conversations ≡ true)

abbrev pub IsAttached : Tables → Message → Type 0
IsAttached t m =
    (sender_exists m.sender t.users ≡ true)
    × (has_conversation m.conversation t.conversations ≡ true)

pub record IsValid (t : Tables) : Type 0 where
  pub conversations_below : All (λ c. Below t.next_conversation c.id) t.conversations
  pub conversations_distinct : Distinct t.conversations
  pub participants_known : All (IsKnown t) t.participants
  pub messages_attached : All (IsAttached t) t.messages
  pub messages_below : All (λ m. m.id < t.next_message) t.messages
  pub messages_ascending : Ascending t.messages

pub Below-mono : (m n : ℕ) (id : ℤ) → m ≤ n → Below m id → Below n id
Below-mono m n (pos k) h b = omega arith
Below-mono m n (negsuc k) h b = b

-- The sequences go on, also where a transaction is aborted.
pub record Advances (t u : Tables) : Type 0 where
  pub conversation_ids : t.next_conversation ≤ u.next_conversation
  pub message_ids : t.next_message ≤ u.next_message

pub keep-IsValid : (t u : Tables) → Advances t u → IsValid t → IsValid (keep t u)
unfolding keep
keep-IsValid t u a v = record {
  conversations_below =
      All-imp _ _
        (λ c h. Below-mono t.next_conversation u.next_conversation c.id a.conversation_ids h)
        t.conversations v.conversations_below;
  conversations_distinct = v.conversations_distinct;
  participants_known = v.participants_known;
  messages_attached = v.messages_attached;
  messages_below = All-imp _ _ (λ m h. omega arith) t.messages v.messages_below;
  messages_ascending = v.messages_ascending;
}

-- A body of statements that keeps the tables valid at each point, and the sequences going on.
pub record Sound {A : Type 0} (body : Body Tables A) : Type 0 where
  pub valid : (t : Tables) → IsValid t → IsValid (body t).1
  pub advances : (t : Tables) → Advances t (body t).1

Below-fresh : (n : ℕ) (id : ℤ) → Below n id → int_eq (pos n) id ≡ false
Below-fresh n (pos k) h = ground arith
Below-fresh n (negsuc k) h = refl

Distinct-append :
    (cs : List Conversation) (c : Conversation)
    → Distinct cs
    → All (λ d. int_eq c.id d.id ≡ false) cs
    → Distinct (cs ++ c ∷ [])
Distinct-append [] c h k = (tt, tt)
Distinct-append (d ∷ cs) c h k =
    (All-append _ cs (c ∷ []) h.0 (k.0, tt), Distinct-append cs c h.1 k.1)

pub Ascending-append :
    (ms : List Message) (m : Message)
    → Ascending ms
    → All (λ x. x.id < m.id) ms
    → Ascending (ms ++ m ∷ [])
Ascending-append [] m h k = (tt, tt)
Ascending-append (x ∷ ms) m h k =
    (All-append _ ms (m ∷ []) h.0 (k.0, tt), Ascending-append ms m h.1 k.1)

-- A new conversation takes the next id.
pub added-IsValid :
    (t : Tables) (title kind : Str)
    → IsValid t
    → IsValid (record t {
      next_conversation = suc t.next_conversation;
      conversations =
          t.conversations
          ++ record { id = pos t.next_conversation; title = title; kind = kind } ∷ [];
    })
added-IsValid t title kind v = record {
  conversations_below =
      All-append _ t.conversations _
        (All-imp _ _ (λ c h. Below-mono t.next_conversation _ c.id (omega arith) h) t.conversations
          v.conversations_below)
        (omega arith, tt);
  conversations_distinct = Distinct-append t.conversations _ v.conversations_distinct (
      All-imp _ _ (λ c h. Below-fresh t.next_conversation c.id h) t.conversations
        v.conversations_below);
  participants_known =
      All-imp _ _ (λ p h. (h.0, any-append_left _ t.conversations _ h.1)) t.participants
        v.participants_known;
  messages_attached =
      All-imp _ _ (λ m h. (h.0, any-append_left _ t.conversations _ h.1)) t.messages
        v.messages_attached;
  messages_below = v.messages_below;
  messages_ascending = v.messages_ascending;
}
