-- ===== src/Examples/Cloud.antt =====
-- Accounts, a cloud and requests: gateway_service/src/main.cpp.
use wizz_mania.Prelude.{true, false, [], ◌∷◌, none, some}
use wizz_mania.Prelude.Text.{codes}
use wizz_mania.Prelude.Int.{pos}
use wizz_mania.Auth.Tables as AuthTables
use wizz_mania.Auth.Tables.{User, is_revoked, user_by_id}
use wizz_mania.Auth.Service.{AuthManager}
use wizz_mania.Examples.Sessions.{hasher}
use wizz_mania.Examples.Messages.{service}
use wizz_mania.Gateway.Http.{Env, HttpRequest, Cloud, Json}

-- Tokens that are the ids of their users and of their sessions.
abbrev pub manager : AuthManager
manager = record {
  generate_access_token = λ id email role permissions jti ttl. jti;
  generate_refresh_token = λ id jti ttl. jti;
  decode_token = λ token. record {
    valid = true;
    user_id = token;
    email = [];
    role = [];
    permissions = [];
    jti = token;
    token_type = codes "access";
  };
}

-- Bodies that are their contents.
abbrev pub json : Json
json = record {
  print = λ m. some [];
  parse_login = λ s. none;
  parse_refresh = λ s. some s;
  parse_register = λ s. none;
  parse_content = λ s. some s;
  parse_room = λ s. none;
}

abbrev pub env : Env
env = record { manager = manager; hasher = hasher; json = json; before = λ a b. false }

abbrev pub alice : User
alice = record {
  id = pos 7;
  full_name = codes "Alice";
  email = codes "alice@example.org";
  password_hash = codes "x";
  role_id = none;
  token_jti = some (codes "7");
}

abbrev pub bob : User
bob = record alice {
  id = pos 9;
  full_name = codes "Bob";
  email = codes "bob@example.org";
  token_jti = some (codes "9");
}

abbrev pub accounts : AuthTables.Tables
accounts = record {
  roles = [];
  permissions = [];
  role_permission = [];
  users = alice ∷ bob ∷ [];
  tokens_revoked = codes "8" ∷ [];
  next_role = 1;
  next_permission = 1;
  next_user = 10;
}

abbrev pub cloud : Cloud
cloud = record {
  auth = record {
    tables = accounts;
    opened = true;
    connects = [];
    faults = [];
    describe = λ r. "refused";
  };
  messaging = service;
  links = [];
}

abbrev pub anonymous : HttpRequest
anonymous = record { authorization = none; limit = some (codes "900"); body = [] }

-- Requests of the users 7, 8 and 9.
abbrev pub from_alice : HttpRequest
from_alice = record { authorization = some (codes "Bearer 7"); limit = none; body = codes "hi" }

abbrev pub from_eve : HttpRequest
from_eve = record from_alice { authorization = some (codes "Bearer 8") }

abbrev pub from_bob : HttpRequest
from_bob = record { authorization = some (codes "Bearer 9"); limit = some (codes "1"); body = [] }
