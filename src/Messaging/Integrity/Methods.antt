-- ===== src/Messaging/Integrity/Methods.antt =====
-- Every method of `Database` keeps the tables valid, whatever the network and the server do.
use wizz_mania.Prelude.{◌≡◌, true, false, List, [], ◌∷◌, Option, none, some, arith, subst}
use wizz_mania.Prelude.Text.{Str}
use wizz_mania.Prelude.Int.{ℤ}
use wizz_mania.Prelude.Result.{Result, ok, err}
use wizz_mania.Keys.{parse_dm_key}
use wizz_mania.Sql.{Body, Throw}
use wizz_mania.Sql.Laws.{Keeps}
use wizz_mania.Messaging.Tables.{Tables, keep, group_type, is_member}
use wizz_mania.Messaging.Database.{
  Db, with_retry, ensure_conversation_id, insert_pair, insert_message_body, insert_message_db,
  history_body, get_history_db, create_group_conversation, add_participant_body, add_participant,
  is_participant, list_body, list_conversations_for_user, delete_conversation_by_id,
}
use wizz_mania.Messaging.Retry.{recover-Keeps, with_retry-Keeps}
use wizz_mania.Messaging.Integrity.{IsValid, Sound, keep-IsValid}
use wizz_mania.Messaging.Integrity.Statements.{
  pure-Sound, bind-Sound, insert_conversation-Sound, ensure_conversation-Sound,
  insert_participant-Sound, insert_message-Sound, delete_conversation-Sound,
}

module _ {A : Type 0} (body : Body Tables A) (sound : Sound body) where
  aborts : (t : Tables) → IsValid t → IsValid (keep t (body t).1)
  aborts t v = keep-IsValid t (body t).1 (sound.advances t) v

  commits : (t : Tables) (a : A) (t' : Tables) → IsValid t → body t ≡ (ok a, t') → IsValid t'
  commits t a t' v e = subst (λ (r : Result Throw A × Tables). IsValid r.1) e (sound.valid t v)

  with_retry-IsValid : Keeps IsValid (with_retry body)
  with_retry-IsValid = with_retry-Keeps IsValid body aborts commits

insert_pair-Sound :
    (conversation : ℤ) (pair : Option (ℤ × ℤ)) → Sound (insert_pair conversation pair)
unfolding insert_pair
insert_pair-Sound conversation none = pure-Sound tt
insert_pair-Sound conversation (some (a, b)) =
    bind-Sound _ _ (insert_participant-Sound a conversation)
      (λ _. insert_participant-Sound b conversation)

pub insert_message_body-Sound :
    (key : Str) (sender : Option ℤ) (content : Str) → Sound (insert_message_body key sender content)
unfolding insert_message_body
insert_message_body-Sound key sender content = bind-Sound _ _ (ensure_conversation-Sound key) (λ c.
    bind-Sound _ _ (insert_pair-Sound c (parse_dm_key key))
      (λ _. insert_message-Sound c sender content))

-- A read changes nothing.
read-Sound : {A : Type 0} (f : Tables → A) → Sound {A = A} (λ t. (ok (f t), t))
read-Sound f = record {
  valid = λ t v. v;
  advances = λ t. record { conversation_ids = omega arith; message_ids = omega arith };
}

history_body-Sound : (key : Str) (limit : ℤ) → Sound (history_body key limit)
unfolding history_body
history_body-Sound key limit = record {
  valid = λ t v. ground (arith, v);
  advances = λ t. ground arith;
}

list_body-Sound : (user limit : ℤ) → Sound (list_body user limit)
unfolding list_body
list_body-Sound user limit = read-Sound _

add_participant_body-Sound :
    (conversation user : ℤ) → Sound (add_participant_body conversation user)
unfolding add_participant_body
add_participant_body-Sound conversation user =
    bind-Sound _ _ (insert_participant-Sound user conversation) (λ _. pure-Sound true)

-- The methods of `Database`, as calls.
pub data Call : Type 0 where
  ensures creates : Str → Call
  inserts : Str → Option ℤ → Str → Call
  reads : Str → ℤ → Call
  adds asks lists : ℤ → ℤ → Call
  deletes : ℤ → Call

-- The state that a call leaves, whether it returned or threw.
pub step : Db → Call → Db
step s (ensures key) = (ensure_conversation_id key s).1
step s (creates title) = (create_group_conversation title s).1
step s (inserts key sender content) = (insert_message_db key sender content s).1
step s (reads key limit) = (get_history_db key limit s).1
step s (adds conversation user) = (add_participant conversation user s).1
step s (asks conversation user) = (is_participant conversation user s).1
step s (lists user limit) = (list_conversations_for_user user limit s).1
step s (deletes id) = (delete_conversation_by_id id s).1

pub run : Db → List Call → Db
unfolding step
run s [] = s
run s (c ∷ cs) = run (step s c) cs

step-IsValid : (s : Db) (c : Call) → IsValid s.tables → IsValid (step s c).tables
unfolding step ensure_conversation_id create_group_conversation insert_message_db get_history_db
    history_body list_conversations_for_user list_body delete_conversation_by_id
step-IsValid s (ensures key) v = with_retry-IsValid _ (ensure_conversation-Sound key) s v
step-IsValid s (creates title) v =
    with_retry-IsValid _ (insert_conversation-Sound title group_type) s v
step-IsValid s (inserts key sender content) v =
    with_retry-IsValid _ (insert_message_body-Sound key sender content) s v
step-IsValid s (reads key limit) v = with_retry-IsValid _ (history_body-Sound key limit) s v
step-IsValid s (adds conversation user) v =
    unfold add_participant in
    recover-Keeps IsValid _ (aborts _ (add_participant_body-Sound conversation user))
      (commits _ (add_participant_body-Sound conversation user)) (λ e. err e) (λ e. ok false) s v
step-IsValid s (asks conversation user) v =
    unfold is_participant in
    recover-Keeps IsValid _
      (aborts _ (read-Sound (λ t. is_member conversation user t.participants)))
      (commits _ (read-Sound (λ t. is_member conversation user t.participants))) (λ e. ok false)
      (λ e. ok false) s v
step-IsValid s (lists user limit) v = with_retry-IsValid _ (list_body-Sound user limit) s v
step-IsValid s (deletes id) v = with_retry-IsValid _ (delete_conversation-Sound id) s v

-- From valid tables every sequence of calls leaves valid tables: ids are unique and below their
-- sequences, members and messages belong to conversations and users that exist, and message ids
-- ascend, whatever transactions are refused, broken off, retried or committed twice.
pub run-IsValid : (s : Db) (cs : List Call) → IsValid s.tables → IsValid (run s cs).tables
unfolding run
run-IsValid s [] v = v
run-IsValid s (c ∷ cs) v = run-IsValid (step s c) cs (step-IsValid s c v)
