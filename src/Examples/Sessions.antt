-- ===== src/Examples/Sessions.antt =====
-- Concrete accounts and sessions: auth_service/src/db/Database.cpp and
-- auth_service/src/service/AuthServiceImpl.cpp.
use wizz_mania.Prelude.{List, ◌≡◌, refl, true, false, [], ◌∷◌, none, some}
use wizz_mania.Prelude.Text.{Str, codes, str_eq}
use wizz_mania.Prelude.Result.{ok}
use wizz_mania.Prelude.Int.{pos}
use wizz_mania.Sql.{broken_connection}
use wizz_mania.Auth.Tables.{Tables, User, user_by_email, user_by_id, is_revoked}
use wizz_mania.Auth.Database.{user_record, select_jti, Db, delete_user_by_id}
use wizz_mania.Auth.Service.{token_status, login, PasswordHasher, AuthManager, validate_token}
use wizz_mania.Auth.Revocation.{IsRevoked}
use wizz_mania.Auth.Sessions.{set_jti, revoke, run, IsRefused, validate_token-revoked}
use wizz_mania.Auth.Current.{IsCurrent, validate_token-current}
use wizz_mania.Auth.Rotation.{session_of, login-rotates}
use wizz_mania.Grpc.{success}
use wizz_mania.Number.{parse_int}
use wizz_mania.Auth.Admin.{
  RegisterRequest, is_not_admin, register_user_rpc, delete_user_rpc, assign_role, create_role_rpc,
  list_roles_rpc, get_user_permissions_rpc,
}
use wizz_mania.Auth.Guard.{IsDenied, is_not_admin-IsDenied}
use wizz_mania.Auth.Accounts.{delete_user_by_id-revokes}

abbrev alice : User
alice = record {
  id = pos 7;
  full_name = codes "Alice";
  email = codes "alice@example.org";
  password_hash = codes "x";
  role_id = none;
  token_jti = some (codes "a1");
}

abbrev tables : Tables
tables = record {
  roles = [];
  permissions = [];
  role_permission = [];
  users = alice ∷ [];
  tokens_revoked = codes "b2" ∷ [];
  next_role = 1;
  next_permission = 1;
  next_user = 8;
}

-- A database whose first transaction is broken off, and that cannot be reached again at once.
abbrev shaky : Db
shaky = record {
  tables = tables;
  opened = true;
  connects = some "no route" ∷ [];
  faults =
      some (record {
        committed = false;
        still_open = false;
        error = record { kind = broken_connection; what = "lost" };
      })
      ∷ [];
  describe = λ r. "refused";
}

abbrev calm : Db
calm = record shaky { connects = []; faults = [] }

-- A manager whose tokens are the ids of their sessions.
abbrev manager : AuthManager
manager = record {
  generate_access_token = λ id email role permissions jti ttl. jti;
  generate_refresh_token = λ id jti ttl. jti;
  decode_token = λ token. record {
    valid = true;
    user_id = codes "7";
    email = [];
    role = [];
    permissions = [];
    jti = token;
    token_type = codes "access";
  };
}

b2-IsRevoked : IsRevoked (codes "b2") tables
unfolding is_revoked str_eq
b2-IsRevoked = refl

validate_token-revoked_example :
    IsRefused
      (validate_token manager
        (codes "b2")
        (run (set_jti (pos 7) (codes "b2") ∷ revoke (codes "a1") ∷ []) shaky)).0
validate_token-revoked_example =
    validate_token-revoked manager (codes "b2")
      (set_jti (pos 7) (codes "b2") ∷ revoke (codes "a1") ∷ []) shaky refl b2-IsRevoked

alice_found : user_by_id (pos 7) tables ≡ some alice
unfolding user_by_id
alice_found = refl

delete_user_by_id-revokes_example :
    ((delete_user_by_id (pos 7) calm).0 ≡ ok true)
    × (user_by_id (pos 7) (delete_user_by_id (pos 7) calm).1.tables ≡ none)
    × IsRevoked (codes "a1") (delete_user_by_id (pos 7) calm).1.tables
delete_user_by_id-revokes_example =
    delete_user_by_id-revokes (pos 7) alice (codes "a1") calm refl refl alice_found refl refl

abbrev sneaky : RegisterRequest
sneaky = record {
  admin_token = codes "b2";
  full_name = codes "Bob";
  email = codes "bob@example.org";
  password = codes "secret";
  role_name = codes "admin";
}

abbrev pub hasher : PasswordHasher
hasher = record {
  hash_password = λ p. p;
  verify_password = str_eq;
  is_legacy_hash_format = λ h. false;
}

no_admin : is_not_admin manager (codes "b2") ≡ true
unfolding is_not_admin str_eq
no_admin = refl

is_not_admin-IsDenied_example :
    IsDenied (register_user_rpc manager hasher sneaky) calm
    × IsDenied (delete_user_rpc manager (codes "b2") (codes "7")) calm
    × IsDenied (assign_role manager (codes "b2") (codes "bob@example.org") (codes "boss")) calm
    × IsDenied (create_role_rpc manager (codes "b2") (codes "boss") [] []) calm
    × IsDenied (list_roles_rpc (λ a b. false) manager (codes "b2")) calm
    × IsDenied (get_user_permissions_rpc manager (codes "b2") (codes "bob@example.org")) calm
is_not_admin-IsDenied_example =
    is_not_admin-IsDenied manager hasher sneaky (λ a b. false) (codes "7") (codes "bob@example.org")
      (codes "boss") [] [] calm no_admin

alice_by_email : user_by_email (codes "alice@example.org") tables ≡ some alice
unfolding user_by_email str_eq
alice_by_email = refl

alice_verified : hasher.verify_password (codes "x") alice.password_hash ≡ true
unfolding str_eq
alice_verified = refl

login-rotates_example :
    ((permissions : List Str) × ((login manager hasher
          (codes "c3")
          (codes "alice@example.org")
          (codes "x")
          calm).0
        ≡ ok (success, session_of manager (codes "c3") (user_record tables alice) permissions)))
    × IsRevoked
        (codes "a1")
        (login manager hasher (codes "c3") (codes "alice@example.org") (codes "x") calm).1.tables
    × (select_jti
          (pos 7)
          (login manager hasher (codes "c3") (codes "alice@example.org") (codes "x") calm).1.tables
        ≡ some (codes "c3"))
login-rotates_example =
    login-rotates manager hasher (codes "c3") (codes "a1") (codes "alice@example.org") (codes "x")
      alice calm (record { opened = refl; no_faults = refl }) alice_by_email alice_found
      alice_verified refl refl refl

a1-IsCurrent : IsCurrent (manager.decode_token (codes "a1")) (pos 7) tables
unfolding parse_int user_by_id is_revoked str_eq
a1-IsCurrent = record {
  is_valid = refl;
  named = refl;
  subject = refl;
  session = record { row = alice; found = refl; session = refl };
  not_revoked = refl;
}

validate_token-current_example :
    validate_token manager (codes "a1") calm
    ≡ (ok (success, token_status (manager.decode_token (codes "a1")) true), calm)
validate_token-current_example =
    validate_token-current manager (codes "a1") (pos 7) calm
      (record { opened = refl; no_faults = refl }) a1-IsCurrent
