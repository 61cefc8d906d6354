-- ===== src/Auth/Service.antt =====
-- `AuthServiceImpl`, auth_service/src/service/AuthServiceImpl.cpp: sessions. A session is known by
-- its `jti`; the row of a user holds the one that is current. `AuthManager` (which makes and reads
-- the tokens) and `PasswordHasher` are not in the repository, and a record of their functions here.
-- `random` is what `random_hex(16)` yields. The pointers to a request and its context are not null.
use wizz_mania.Prelude.{
  ℕ, Bool, true, false, ◌&&◌, not, List, [], Option, none, some, if◌then◌else◌,
}
use wizz_mania.Prelude.Text.{Str, codes, empty, str_eq, strip_prefix}
use wizz_mania.Prelude.Result.{ok, err}
use wizz_mania.Number.{parse_int, to_string}
use wizz_mania.Sql.{Exec, bind}
use wizz_mania.Grpc.{
  Status, success, failed, invalid_argument, not_found, permission_denied, unauthenticated,
  internal,
}
use wizz_mania.Auth.Tables.{Tables}
use wizz_mania.Auth.Roles.{get_user_permissions}
use wizz_mania.Auth.Database.{
  UserRecord, get_user_by_email, get_user_token_jti, set_user_token_jti, is_token_revoked,
  revoke_token_jti, update_user_password_hash, guarded,
}

-- What `decodeToken` reads in a token.
pub record TokenInfo : Type 0 where
  pub valid : Bool
  pub user_id : Str
  pub email : Str
  pub role : Str
  pub permissions : List Str
  pub jti : Str
  pub token_type : Str

pub record AuthManager : Type 0 where
  pub generate_access_token : Str → Str → Str → List Str → Str → ℕ → Str
  pub generate_refresh_token : Str → Str → ℕ → Str
  pub decode_token : Str → TokenInfo

pub record PasswordHasher : Type 0 where
  pub hash_password : Str → Str
  pub verify_password : Str → Str → Bool
  pub is_legacy_hash_format : Str → Bool

infixl 5 ◌>>=◌
abbrev pub ◌>>=◌ : {A B : Type 0} → Exec Tables A → (A → Exec Tables B) → Exec Tables B
m >>= f = bind m f

abbrev pub reply : {A : Type 0} → A → Exec Tables A
reply a s = (ok a, s)

-- `catch (const std::exception& e) { return Status(INTERNAL, e.what()); }` around a handler, whose
-- response is then `a`.
unfoldable pub caught : {A : Type 0} → A → Exec Tables (Status × A) → Exec Tables (Status × A)
caught a m s =
    let (r, s') = m s in elim r [ ok x ↦ (ok x, s') | err e ↦ (ok (failed internal e.what, a), s') ]

pub record LoginResponse : Type 0 where
  pub access_token : Str
  pub refresh_token : Str
  pub expires_in : ℕ
  pub role : Str
  pub permissions : List Str

abbrev pub no_login : LoginResponse
no_login = record {
  access_token = [];
  refresh_token = [];
  expires_in = 0;
  role = [];
  permissions = [];
}

-- A session that is there is revoked; what comes of it is not asked.
unfoldable pub revoke_current : Option Str → Exec Tables (Unit {0})
unfolding revoke_token_jti
revoke_current none = reply tt
revoke_current (some jti) = if empty jti then reply tt else (revoke_token_jti jti >>= λ _. reply tt)

-- The upgrade of a legacy hash, whatever comes of it.
unfoldable pub upgrade_hash : PasswordHasher → Str → UserRecord → Exec Tables (Unit {0})
unfolding guarded update_user_password_hash
upgrade_hash hasher password user =
    if hasher.is_legacy_hash_format user.password_hash
    then (guarded false (update_user_password_hash user.id (hasher.hash_password password)) >>= λ _.
        reply tt)
    else reply tt

-- `Login` from the password on: the session rotates.
unfoldable pub open_session :
    AuthManager → PasswordHasher → Str → Str → UserRecord → Exec Tables (Status × LoginResponse)
unfolding upgrade_hash get_user_permissions get_user_token_jti revoke_current set_user_token_jti
open_session manager hasher jti password user = upgrade_hash hasher password user >>= λ _.
    get_user_permissions user.id >>= λ permissions.
    get_user_token_jti user.id >>= revoke_current >>= λ _. set_user_token_jti user.id jti >>= λ _.
    reply (
      success,
      record {
        access_token =
            manager.generate_access_token (to_string user.id) user.email user.role_name permissions
              jti 3600;
        refresh_token = manager.generate_refresh_token (to_string user.id) jti 2592000;
        expires_in = 3600;
        role = user.role_name;
        permissions = permissions;
      },
    )

unfoldable pub check_password :
    AuthManager
    → PasswordHasher
    → Str
    → Str
    → Option UserRecord
    → Exec Tables (Status × LoginResponse)
unfolding open_session
check_password manager hasher random password none =
    reply (failed not_found "Utilisateur introuvable", no_login)
check_password manager hasher random password (some user) =
    if hasher.verify_password password user.password_hash
    then open_session manager hasher random password user
    else reply (failed unauthenticated "Mot de passe incorrect", no_login)

unfoldable pub login :
    AuthManager → PasswordHasher → Str → Str → Str → Exec Tables (Status × LoginResponse)
unfolding caught check_password get_user_by_email
login manager hasher random username password =
    caught no_login (get_user_by_email username >>= check_password manager hasher random password)

pub record TokenStatus : Type 0 where
  pub valid : Bool
  pub user_id : Str
  pub email : Str
  pub role : Str
  pub permissions : List Str

-- Whether the user has another session than `jti`.
abbrev pub superseded : Str → Option Str → Bool
superseded jti none = false
superseded jti (some current) = not (empty current) && not (str_eq current jti)

-- The database's part of `ValidateToken`: the session is neither revoked nor superseded.
unfoldable pub session_holds : TokenInfo → Exec Tables Bool
unfolding is_token_revoked get_user_token_jti
session_holds info = is_token_revoked info.jti >>= λ revoked.
    if revoked then reply false else elim (parse_int info.user_id) [
      | none ↦ reply true
      | some uid ↦ get_user_token_jti uid >>= λ current. reply (not (superseded info.jti current))
    ]

abbrev pub not_valid : TokenStatus
not_valid = record { valid = false; user_id = []; email = []; role = []; permissions = [] }

abbrev pub token_status : TokenInfo → Bool → TokenStatus
token_status info true = record {
  valid = true;
  user_id = info.user_id;
  email = info.email;
  role = info.role;
  permissions = info.permissions;
}
token_status info false = not_valid

unfoldable pub validate_token : AuthManager → Str → Exec Tables (Status × TokenStatus)
unfolding caught session_holds
validate_token manager token =
    let info = manager.decode_token token in
    caught not_valid (
      (if info.valid && not (empty info.jti) then session_holds info else reply info.valid)
      >>= λ valid. reply (success, token_status info valid))

-- `get_bearer_from_metadata` of the value of the header, where there is one.
unfoldable pub get_bearer : Option Str → Option Str
unfolding strip_prefix
get_bearer none = none
get_bearer (some value) = elim (strip_prefix (codes "Bearer ") value) [
  | none ↦ none
  | some token ↦ if empty token then none else some token
]

-- `RevokeTokens` once the caller is known: an admin may revoke others, anybody himself.
unfoldable pub revoke_for : TokenInfo → Str → Exec Tables (Status × Bool)
unfolding get_user_token_jti revoke_current set_user_token_jti
revoke_for caller target =
    if not caller.valid
    then reply (failed permission_denied "Invalid access token", false)
    else if not (str_eq caller.token_type (codes "access")) && not (empty caller.token_type)
    then reply (failed permission_denied "Not an access token", false)
    else if empty target
    then reply (failed invalid_argument "Missing user_id", false)
    else if not (str_eq caller.role (codes "admin")) && not (str_eq caller.user_id target)
    then reply (failed permission_denied "Forbidden", false)
    else elim (parse_int target) [
      | none ↦ reply (failed invalid_argument "Invalid user_id", false)
      | some uid ↦ get_user_token_jti uid >>= revoke_current >>= λ _.
          set_user_token_jti uid [] >>= λ _. reply (success, true)
    ]

unfoldable pub revoke_tokens : AuthManager → Option Str → Str → Exec Tables (Status × Bool)
unfolding caught get_bearer revoke_for
revoke_tokens manager header target = elim (get_bearer header) [
  | none ↦ reply (failed permission_denied "Missing authorization metadata", false)
  | some bearer ↦ caught false (revoke_for (manager.decode_token bearer) target)
]
