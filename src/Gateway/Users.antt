-- ===== src/Gateway/Users.antt =====
-- The table `users` of init/schema.sql is one, while the states of the two services each have their
-- part of it: what a call of gateway_service/src/main.cpp that makes or deletes accounts does to the
-- tables of the messaging service, through the foreign keys.
use wizz_mania.Prelude.{not, List, ◌++◌, map, filter, Option, none, some, if◌then◌else◌}
use wizz_mania.Prelude.Int.{ℤ}
use wizz_mania.Grpc.{Status}
use wizz_mania.Sql.{Exec}
use wizz_mania.Auth.Tables as AuthTables
use wizz_mania.Auth.Tables.{User}
use wizz_mania.Messaging.Tables as MessagingTables
use wizz_mania.Messaging.Tables.{Message, Participant, has_user}
use wizz_mania.Gateway.Http.{Gateway, Cloud, auth_rpc}

abbrev pub ids_of : List User → List ℤ
ids_of us = map (λ u. u.id) us

-- The ids of the first list that are not in the second.
unfoldable pub missing_from : List ℤ → List ℤ → List ℤ
missing_from ids others = filter (λ id. not (has_user id others)) ids

-- ON DELETE SET NULL of `messages.sender_id`
unfoldable pub sender_left : List ℤ → Option ℤ → Option ℤ
sender_left gone none = none
sender_left gone (some id) = if has_user id gone then none else some id

unfoldable pub set_null : List ℤ → Message → Message
unfolding sender_left
set_null gone m = record m { sender = sender_left gone m.sender }

-- The rows of users `gone` are deleted, with ON DELETE CASCADE of `conversation_participant` and ON
-- DELETE SET NULL of `messages`, and those of users `come` inserted.
unfoldable pub change_users : List ℤ → List ℤ → MessagingTables.Tables → MessagingTables.Tables
unfolding set_null
change_users gone come t = record t {
  users = filter (λ id. not (has_user id gone)) t.users ++ come;
  participants = filter (λ p. not (has_user p.user gone)) t.participants;
  messages = map (set_null gone) t.messages;
}

-- The messaging service's tables follow those of the authentication service.
unfoldable pub follow_users :
    AuthTables.Tables → AuthTables.Tables → MessagingTables.Tables → MessagingTables.Tables
unfolding missing_from change_users
follow_users old new t =
    let before = ids_of old.users in
    let after = ids_of new.users in
    change_users (missing_from before after) (missing_from after before) t

abbrev pub following : Cloud → Cloud → Cloud
following c c' =
    let s = c'.messaging in
    record c' {
      messaging = record s {
        db = record s.db { tables = follow_users c.auth.tables c'.auth.tables s.db.tables };
      };
    }

-- A call that may make or delete an account.
unfoldable pub account_rpc :
    {A : Type 0} → A → Exec AuthTables.Tables (Status × A) → Gateway (Status × A)
unfolding auth_rpc follow_users
account_rpc none_yet m c = let (r, c') = auth_rpc none_yet m c in (r, following c c')
