-- ===== src/Messaging/Integrity/Statements.antt =====
-- Each statement keeps the tables valid, also where the server refuses it.
use wizz_mania.Prelude.{
  suc, ◌≡◌, inl, inr, Bool, true, false, ◌&&◌, not, List, [], ◌∷◌, ◌++◌, Option, arith,
  Option-cases, All-append, All-imp, All-filter, All-filter_test, filter,
}
use wizz_mania.Prelude.Text.{Str}
use wizz_mania.Prelude.Int.{ℤ, int_eq, int_eq_iff}
use wizz_mania.Prelude.Result.{Result, ok, err}
use wizz_mania.Sql.{Body, Throw, pure, ◌>>=◌}
use wizz_mania.Messaging.Tables.{
  Tables, Conversation, Message, has_conversation, has_user, sender_exists, titled,
  insert_conversation, ensure_conversation, insert_participant, insert_message, delete_conversation,
  private_type,
}
use wizz_mania.Messaging.Integrity.{
  Distinct, Ascending, IsKnown, IsAttached, IsValid, Advances, Sound, Below-mono, Ascending-append,
  added-IsValid,
}

skipped-IsValid :
    (t : Tables) → IsValid t → IsValid (record t { next_conversation = suc t.next_conversation })
skipped-IsValid t v = record {
  conversations_below =
      All-imp _ _ (λ c h. Below-mono t.next_conversation _ c.id (omega arith) h) t.conversations
        v.conversations_below;
  conversations_distinct = v.conversations_distinct;
  participants_known = v.participants_known;
  messages_attached = v.messages_attached;
  messages_below = v.messages_below;
  messages_ascending = v.messages_ascending;
}

pub insert_conversation-Sound : (title kind : Str) → Sound (insert_conversation title kind)
unfolding insert_conversation
insert_conversation-Sound title kind = record {
  valid = λ t v. ground (arith, v, skipped-IsValid t v, added-IsValid t title kind v);
  advances = λ t. ground arith;
}

pub pure-Sound : {A : Type 0} (a : A) → Sound (pure a)
pure-Sound a = record {
  valid = λ t v. v;
  advances = λ t. record { conversation_ids = omega arith; message_ids = omega arith };
}

pub bind-Sound :
    {A B : Type 0} (m : Body Tables A) (f : A → Body Tables B)
    → Sound m
    → ((a : A) → Sound (f a))
    → Sound (m >>= f)
bind-Sound m f sm sf = record {
  valid = λ t v. after_valid f sf (m t).0 (m t).1 (sm.valid t v);
  advances = λ t. after_advances f sf t (m t).0 (m t).1 (sm.advances t);
}
  where
    after_valid :
        {A B : Type 0} (f : A → Body Tables B)
        → ((a : A) → Sound (f a))
        → (r : Result Throw A) (u : Tables) → IsValid u
        → IsValid (◌>>=◌ (λ t. (r, t)) f u).1
    after_valid f sf (ok a) u v = (sf a).valid u v
    after_valid f sf (err e) u v = v

    after_advances :
        {A B : Type 0} (f : A → Body Tables B)
        → ((a : A) → Sound (f a))
        → (t : Tables) (r : Result Throw A) (u : Tables) → Advances t u
        → Advances t (◌>>=◌ (λ t. (r, t)) f u).1
    after_advances f sf t (ok a) u v = ground (arith, (sf a).advances u)
    after_advances f sf t (err e) u v = v

pub ensure_conversation-Sound : (title : Str) → Sound (ensure_conversation title)
unfolding ensure_conversation
ensure_conversation-Sound title = record {
  valid = λ t v. elim (Option-cases (titled title t.conversations)) [
    | inl e ↦ rw (e, ensure_conversation) ((insert_conversation-Sound title private_type).valid t v)
    | inr (c, e) ↦ rw (e, ensure_conversation) v
  ];
  advances = λ t. elim (Option-cases (titled title t.conversations)) [
    | inl e ↦
        rw (e, ensure_conversation) ((insert_conversation-Sound title private_type).advances t)
    | inr (c, e) ↦
        rw (e, ensure_conversation)
          (record { conversation_ids = omega arith; message_ids = omega arith })
  ];
}

joined_member-IsValid :
    (t : Tables) (user conversation : ℤ)
    → IsValid t
    → (has_user user t.users && has_conversation conversation t.conversations) ≡ true
    → IsValid (record t {
      participants = t.participants ++ record { user = user; conversation = conversation } ∷ [];
    })
joined_member-IsValid t user conversation v known = record {
  conversations_below = v.conversations_below;
  conversations_distinct = v.conversations_distinct;
  participants_known = All-append _ t.participants _ v.participants_known (ground arith, tt);
  messages_attached = v.messages_attached;
  messages_below = v.messages_below;
  messages_ascending = v.messages_ascending;
}

pub insert_participant-Sound :
    (user conversation : ℤ) → Sound (insert_participant user conversation)
unfolding insert_participant
insert_participant-Sound user conversation = record {
  valid = λ t v. ground (arith, v, joined_member-IsValid t user conversation v);
  advances = λ t. ground arith;
}

-- A message with the next id.
stored-IsValid :
    (t : Tables) (m : Message)
    → IsValid t
    → m.id ≡ t.next_message
    → (has_conversation m.conversation t.conversations && sender_exists m.sender t.users) ≡ true
    → IsValid (record t { next_message = suc t.next_message; messages = t.messages ++ m ∷ [] })
stored-IsValid t m v newest attached = record {
  conversations_below = v.conversations_below;
  conversations_distinct = v.conversations_distinct;
  participants_known = v.participants_known;
  messages_attached = All-append _ t.messages _ v.messages_attached (ground arith, tt);
  messages_below =
      All-append _ t.messages _ (All-imp _ _ (λ m h. omega arith) t.messages v.messages_below)
        (omega arith, tt);
  messages_ascending =
      Ascending-append t.messages m v.messages_ascending
        (All-imp _ _ (λ x h. omega arith) t.messages v.messages_below);
}

unsent-IsValid : (t : Tables) → IsValid t → IsValid (record t { next_message = suc t.next_message })
unsent-IsValid t v = record {
  conversations_below = v.conversations_below;
  conversations_distinct = v.conversations_distinct;
  participants_known = v.participants_known;
  messages_attached = v.messages_attached;
  messages_below = All-imp _ _ (λ m h. omega arith) t.messages v.messages_below;
  messages_ascending = v.messages_ascending;
}

pub insert_message-Sound :
    (conversation : ℤ) (sender : Option ℤ) (content : Str)
    → Sound (insert_message conversation sender content)
unfolding insert_message
insert_message-Sound conversation sender content = record {
  valid = λ t v. ground (
    arith,
    v,
    unsent-IsValid t v,
    stored-IsValid t
        (record {
          id = t.next_message;
          conversation = conversation;
          sender = sender;
          encrypted_content = content;
          created_at = t.now;
        })
        v,
  );
  advances = λ t. ground arith;
}

has_conversation-filter :
    (k id : ℤ) (cs : List Conversation)
    → int_eq k id ≡ false
    → has_conversation k cs ≡ true
    → has_conversation k (filter (λ c. not (int_eq c.id id)) cs) ≡ true
has_conversation-filter k id [] e h = cc
has_conversation-filter k id (c ∷ cs) e h = ground (
  arith,
  has_conversation-filter k id cs e,
  int_eq_iff c.id id,
  int_eq_iff c.id k,
  int_eq_iff k id,
)

Distinct-filter :
    (p : Conversation → Bool) (cs : List Conversation) → Distinct cs → Distinct (filter p cs)
Distinct-filter p [] h = tt
Distinct-filter p (c ∷ cs) h = ground (arith, Distinct-filter p cs h.1, All-filter _ p cs h.0)

Ascending-filter : (p : Message → Bool) (ms : List Message) → Ascending ms → Ascending (filter p ms)
Ascending-filter p [] h = tt
Ascending-filter p (m ∷ ms) h = ground (arith, Ascending-filter p ms h.1, All-filter _ p ms h.0)

pub delete_conversation-Sound : (id : ℤ) → Sound (delete_conversation id)
unfolding delete_conversation
delete_conversation-Sound id = record {
  valid = λ t v. record {
    conversations_below = All-filter _ _ t.conversations v.conversations_below;
    conversations_distinct = Distinct-filter _ t.conversations v.conversations_distinct;
    participants_known =
        All-filter_test (IsKnown t) _ _
          (λ p kept h.
            (h.0, has_conversation-filter p.conversation id t.conversations (ground arith) h.1))
          t.participants v.participants_known;
    messages_attached =
        All-filter_test (IsAttached t) _ _
          (λ m kept h.
            (h.0, has_conversation-filter m.conversation id t.conversations (ground arith) h.1))
          t.messages v.messages_attached;
    messages_below = All-filter _ _ t.messages v.messages_below;
    messages_ascending = Ascending-filter _ t.messages v.messages_ascending;
  };
  advances = λ t. record { conversation_ids = omega arith; message_ids = omega arith };
}
