-- ===== src/Examples/Gateway.antt =====
-- Concrete requests to the routes of gateway_service/src/main.cpp.
use wizz_mania.Prelude.{arith, ◌≡◌, refl, true, false, List, [], ◌∷◌, ◌++◌, some, map}
use mathlib.Core.List.{reverse}
use wizz_mania.Prelude.Text.{split_at, codes, empty, str_eq, strip_prefix}
use wizz_mania.Prelude.Result.{ok}
use wizz_mania.Prelude.Int.{pos}
use wizz_mania.Number.{to_string, parse_int, try_parse_int64}
use wizz_mania.Keys.{dm_conversation_key, parse_dm_key, is_room_id, is_numeric_id}
use wizz_mania.Auth.Tables.{is_revoked, user_by_id}
use wizz_mania.Auth.Service.{TokenStatus, token_status}
use wizz_mania.Auth.Sessions.{set_jti, run}
use wizz_mania.Auth.Revocation.{IsRevoked}
use wizz_mania.Auth.Admin.{delete_user_rpc}
use wizz_mania.Auth.Current.{IsCurrent}
use wizz_mania.Messaging.Tables.{limited}
use wizz_mania.Messaging.Service.{
  send_message, persist_and_broadcast, history_message, db_id, sender_text, EncryptedMessage,
}
use wizz_mania.Messaging.Delivery.{insert_for}
use wizz_mania.Messaging.Database.{insert_message_db, insert_message_body}
use wizz_mania.Examples.Messages.{hello, tables, tables-IsValid, streams-IsThere}
use wizz_mania.Gateway.Http.{
  Cloud, Env, MessageEntry, refuse, get_bearer_token, validate_access_token, set_proto_json,
  send_ack, message_list,
}
use wizz_mania.Gateway.Conversations.{
  message_entry, message_limit, posted_message, post_message_route, messages_route,
  last_by_conversation,
}
use wizz_mania.Gateway.Accounts.{delete_user_route, logout_route}
use wizz_mania.Gateway.Barred.{IsBarred}
use wizz_mania.Gateway.Admin.{for_admins, refusals, handle-IsBarred}
use wizz_mania.Gateway.Routes.{handle, protected, post_register, get_me, get_messages, delete_rooms}
use wizz_mania.Gateway.Guard.{needs_token, reads_token, missing, handle-missing}
use wizz_mania.Gateway.Revoked.{IsUnauthorized, handle-revoked}
use wizz_mania.Gateway.Access.{messages_route-public}
use wizz_mania.Gateway.Listing.{first_of, last_by_conversation-first}
use wizz_mania.Prelude.Maps.{lookup}
use wizz_mania.Messaging.History.Order.{unlimited}
use wizz_mania.Gateway.Limits.{InLimits, message_limit-InLimits}
use wizz_mania.Gateway.Logout.{validate_access_token-current, logout_route-ends}
use wizz_mania.Gateway.Delivery.{IsContact, messages_route-post_message_route}
use wizz_mania.Examples.Cloud.{
  manager, json, env, alice, bob, accounts, cloud, anonymous, from_alice, from_eve, from_bob,
}

anonymous-bare : empty (get_bearer_token anonymous) ≡ true
unfolding get_bearer_token
anonymous-bare = refl

needs_token-rooms : needs_token (protected (delete_rooms (codes "room:1"))) anonymous ≡ true
unfolding needs_token
needs_token-rooms = refl

handle-missing_example :
    handle (protected (delete_rooms (codes "room:1"))) env anonymous cloud
    ≡ (ok (refuse 401 missing), cloud)
handle-missing_example =
    handle-missing (protected (delete_rooms (codes "room:1"))) env anonymous cloud needs_token-rooms
      anonymous-bare

eve-IsRevoked :
    IsRevoked (env.manager.decode_token (get_bearer_token from_eve)).jti cloud.auth.tables
unfolding get_bearer_token strip_prefix is_revoked str_eq
eve-IsRevoked = refl

eve-named : empty (env.manager.decode_token (get_bearer_token from_eve)).jti ≡ false
unfolding get_bearer_token strip_prefix
eve-named = refl

reads_token-messages : reads_token (get_messages (codes "room:1")) from_eve ≡ true
unfolding reads_token
reads_token-messages = refl

handle-revoked_example :
    IsUnauthorized
      (handle (get_messages (codes "room:1")) env from_eve)
      (record cloud { auth = run (set_jti (pos 7) (codes "8") ∷ []) cloud.auth })
handle-revoked_example =
    handle-revoked (get_messages (codes "room:1")) env from_eve (codes "Bearer 8")
      (set_jti (pos 7) (codes "8") ∷ []) cloud reads_token-messages refl eve-named eve-IsRevoked

message_limit-InLimits_example : InLimits (message_limit anonymous)
message_limit-InLimits_example = message_limit-InLimits anonymous

messages_route-public_example : messages_route (codes "room:1") env anonymous cloud ≡ (
  ok (
      set_proto_json json 200 (
        message_list (
          map (message_entry (codes "room:1")) (
            reverse (
              limited
                (message_limit anonymous)
                (map (history_message (codes "room:1")) (unlimited (codes "room:1") tables))))))),
  cloud,
)
messages_route-public_example =
    messages_route-public (codes "room:1") env anonymous cloud refl refl refl
      (record { opened = refl; no_faults = refl })

last_by_conversation-first_example :
    lookup (codes "b") (last_by_conversation [] (hello ∷ [])) ≡ first_of (codes "b") (hello ∷ [])
last_by_conversation-first_example = last_by_conversation-first (codes "b") (hello ∷ []) refl

-- The session of a user whose token is his id.
alice-IsCurrent : IsCurrent (manager.decode_token (get_bearer_token from_alice)) (pos 7) accounts
unfolding get_bearer_token strip_prefix parse_int user_by_id is_revoked str_eq
alice-IsCurrent = record {
  is_valid = refl;
  named = refl;
  subject = refl;
  session = record { row = alice; found = refl; session = refl };
  not_revoked = refl;
}

alice-bearer : empty (get_bearer_token from_alice) ≡ false
unfolding get_bearer_token strip_prefix
alice-bearer = refl

alice-access :
    str_eq (manager.decode_token (get_bearer_token from_alice)).token_type (codes "access") ≡ true
unfolding str_eq
alice-access = refl

reads_token-me : reads_token (protected get_me) from_alice ≡ true
unfolding reads_token needs_token
reads_token-me = refl

logout_route-ends_example :
    ((logout_route env from_alice cloud).0
      ≡ ok (record { status = 200; body = codes "{\"success\":true}" }))
    × IsUnauthorized
        (handle (protected get_me) env from_alice)
        (record (logout_route env from_alice cloud).1 {
          auth = run (set_jti (pos 7) (codes "7") ∷ []) (logout_route env from_alice cloud).1.auth;
        })
logout_route-ends_example =
    logout_route-ends (protected get_me) env from_alice (codes "Bearer 7") (pos 7)
      (set_jti (pos 7) (codes "7") ∷ []) cloud refl (record { opened = refl; no_faults = refl })
      refl alice-bearer alice-access alice-bearer alice-IsCurrent reads_token-me

bob-IsCurrent : IsCurrent (manager.decode_token (get_bearer_token from_bob)) (pos 9) accounts
unfolding get_bearer_token strip_prefix parse_int user_by_id is_revoked str_eq
bob-IsCurrent = record {
  is_valid = refl;
  named = refl;
  subject = refl;
  session = record { row = bob; found = refl; session = refl };
  not_revoked = refl;
}

bob-bearer : empty (get_bearer_token from_bob) ≡ false
unfolding get_bearer_token strip_prefix
bob-bearer = refl

abbrev sender : TokenStatus
sender = token_status (manager.decode_token (codes "7")) true

abbrev receiver : TokenStatus
receiver = token_status (manager.decode_token (codes "9")) true

posts : validate_access_token env from_alice cloud ≡ (ok (ok sender), cloud)
unfolding get_bearer_token strip_prefix
posts =
    validate_access_token-current env from_alice (pos 7) cloud refl
      (record { opened = refl; no_faults = refl }) alice-bearer alice-IsCurrent

alice-IsContact : IsContact (codes "7")
unfolding is_room_id is_numeric_id strip_prefix try_parse_int64
alice-IsContact = record { named = refl; no_room = refl; numeric = refl }

bob-IsContact : IsContact (codes "9")
unfolding is_room_id is_numeric_id strip_prefix try_parse_int64
bob-IsContact = record { named = refl; no_room = refl; numeric = refl }

abbrev note : EncryptedMessage
note = posted_message (pos 20) (codes "9") sender (codes "hi")

note_stored : insert_for note tables ≡ (ok 2, (insert_for note tables).1)
unfolding insert_message_body str_eq parse_dm_key strip_prefix parse_int posted_message
    try_parse_int64 dm_conversation_key to_string split_at
note_stored = refl

abbrev later : Cloud
later = (post_message_route (codes "9") (pos 20) env from_alice cloud).1

gets : validate_access_token env from_bob later ≡ (ok (ok receiver), later)
unfolding get_bearer_token strip_prefix post_message_route str_eq parse_int send_message
    persist_and_broadcast try_parse_int64 dm_conversation_key insert_message_db insert_message_body
    to_string parse_dm_key split_at
gets =
    validate_access_token-current env from_bob (pos 9) later refl
      (record { opened = refl; no_faults = refl }) bob-bearer bob-IsCurrent

abbrev answer : MessageEntry
answer = record {
  message_id = db_id 2;
  conversation_id = codes "7";
  sender_id = sender_text (some (pos 7));
  content = codes "hi";
  timestamp_unix = pos 20;
}

messages_route-post_message_route_example :
    ((post_message_route (codes "9") (pos 20) env from_alice cloud).0
      ≡ ok (set_proto_json json 200 (send_ack (record { message_id = db_id 2; accepted = true }))))
    × ((earlier : List MessageEntry) × ((messages_route (codes "7") env from_bob later).0
          ≡ ok (set_proto_json json 200 (message_list (earlier ++ answer ∷ [])))))
unfolding parse_int
messages_route-post_message_route_example =
    messages_route-post_message_route env from_alice from_bob sender receiver (codes "Bearer 9")
      (codes "hi") (pos 20) cloud cloud 2 (insert_for note tables).1 later
      (record {
        linked = refl;
        quiet = record { opened = refl; no_faults = refl };
        valid = tables-IsValid;
        there = streams-IsThere;
      })
      bob-IsContact alice-IsContact refl refl (omega arith, (omega arith, tt)) refl refl note_stored
      posts gets

-- One who is no admin asks for a new account.
abbrev accepting : Env
accepting = record env {
  json = record json {
    parse_register = λ s. some (record {
      full_name = codes "Mallory";
      email = codes "mallory@example.org";
      password = codes "p";
      role_name = codes "admin";
    });
  };
}

alice_no_admin :
    str_eq (accepting.manager.decode_token (get_bearer_token from_alice)).role (codes "admin")
    ≡ false
unfolding str_eq
alice_no_admin = refl

for_admins-register : for_admins post_register ≡ true
unfolding for_admins
for_admins-register = refl

handle-IsBarred_example :
    IsBarred (refusals post_register) (handle (protected post_register) accepting from_alice) cloud
handle-IsBarred_example =
    handle-IsBarred post_register accepting from_alice cloud for_admins-register alice_no_admin

-- The user 7 is an admin, and deletes the user 9.
abbrev admin_env : Env
admin_env = record accepting {
  manager = record manager {
    decode_token = λ token. record {
      valid = true;
      user_id = token;
      email = [];
      role = codes "admin";
      permissions = [];
      jti = token;
      token_type = codes "access";
    };
  };
}

users_left :
    (delete_user_route (codes "9") admin_env from_alice cloud).1.messaging.db.tables.users
    ≡ pos 7 ∷ []
unfolding delete_user_route delete_user_rpc parse_int str_eq
users_left = refl
