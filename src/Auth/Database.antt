-- ===== src/Auth/Database.antt =====
-- auth_service/src/db/Database.cpp: a method opens the connection where it is closed, and runs one
-- transaction. Behind a `broken_connection` some methods run it a second time, on a connection
-- that is opened again where it is closed; what the catch clauses do with the other exceptions
-- differs from method to method.
use wizz_mania.Prelude.{Bool, true, false, not, List, [], map, Option, none, some, if◌then◌else◌}
use wizz_mania.Prelude.Text.{Str, codes, empty, str_eq}
use wizz_mania.Prelude.Result.{Result, ok, err}
use wizz_mania.Prelude.Int.{ℤ, pos, int_gt}
use wizz_mania.Sql.{
  Exn, Session, Exec, Body, bind, ◌>>=◌, pure, transact, ensure_connected, is_broken,
}
use wizz_mania.Messaging.Tables.{sort_by}
use wizz_mania.Auth.Tables.{
  Tables, User, keep, user_by_email, user_by_id, role_by_name, role_by_id, insert_user, insert_role,
  update_user, delete_user, is_revoked, insert_revoked,
}

abbrev pub Db : Type 0
Db = Session Tables

-- `try { … } catch (const pqxx::broken_connection&) { ensureConnection(); … }`, with what the
-- other catch clause makes of an exception.
unfoldable pub on_broken :
    {A : Type 0} → (Exn → Result Exn A) → Exec Tables A → Result Exn A × Db → Result Exn A × Db
unfolding ensure_connected
on_broken other again (ok a, s) = (ok a, s)
on_broken other again (err e, s) =
    if is_broken e then bind ensure_connected (λ _. again) s else (other e, s)

-- `ensureConnection()`, a transaction, and the catch clauses.
unfoldable pub with_retry :
    {A : Type 0} → (Exn → Result Exn A) → Body Tables A → Exec Tables A → Exec Tables A
unfolding ensure_connected transact on_broken
with_retry other body again =
    bind ensure_connected (λ _ s. on_broken other again (transact keep body s))

-- `try { … } catch (const std::exception&) { return a; }`
unfoldable pub guarded : {A : Type 0} → A → Exec Tables A → Exec Tables A
guarded a m s = let (r, s') = m s in elim r [ ok x ↦ (ok x, s') | err e ↦ (ok a, s') ]

-- The same transaction once more; what it throws then leaves the method.
unfoldable pub retried : {A : Type 0} → (Exn → Result Exn A) → Body Tables A → Exec Tables A
unfolding with_retry transact
retried other body = with_retry other body (transact keep body)

-- The same transaction once more, inside a `try` that returns `a`.
unfoldable pub retried_or : {A : Type 0} → A → Body Tables A → Exec Tables A
unfolding with_retry guarded transact
retried_or a body = with_retry (λ e. ok a) body (guarded a (transact keep body))

-- No second try: any exception of the transaction makes the method return `a`.
unfoldable pub swallowed : {A : Type 0} → A → Body Tables A → Exec Tables A
unfolding guarded transact ensure_connected
swallowed a body = bind ensure_connected (λ _. guarded a (transact keep body))

pub record UserRecord : Type 0 where
  pub id : ℤ
  pub email : Str
  pub password_hash : Str
  pub full_name : Str
  pub role_id : ℤ
  pub role_name : Str

-- The row of a user LEFT JOIN its role.
unfoldable pub user_record : Tables → User → UserRecord
unfolding role_by_id
user_record t u = record {
  id = u.id;
  email = u.email;
  password_hash = u.password_hash;
  full_name = u.full_name;
  role_id = elim u.role_id [ none ↦ pos 0 | some r ↦ r ];
  role_name = elim u.role_id [
    | none ↦ []
    | some r ↦ elim (role_by_id r t) [ none ↦ [] | some role ↦ role.name ]
  ];
}

abbrev pub selected : Tables → Option User → Option UserRecord
selected t none = none
selected t (some u) = some (user_record t u)

unfoldable pub user_exists : Str → Exec Tables Bool
unfolding retried user_by_email
user_exists email =
    retried (λ e. err e)
      (λ t. pure (elim (user_by_email email t) [ none ↦ false | some u ↦ true ]) t)

unfoldable pub register_user : Str → Str → Str → Exec Tables (Unit {0})
unfolding retried insert_user
register_user full_name email hash = retried (λ e. err e) (insert_user full_name email hash none)

-- `int role_id = 0; if (!role_r.empty()) …`
unfoldable pub role_id_of : Str → Tables → ℤ
unfolding role_by_name
role_id_of name t = elim (role_by_name name t) [ none ↦ pos 0 | some r ↦ r.id ]

-- The INSERT of a user with the role, where there is one.
unfoldable pub insert_with_role : Str → Str → Str → ℤ → Body Tables (Unit {0})
unfolding insert_user
insert_with_role full_name email hash role_id =
    if int_gt role_id (pos 0)
    then insert_user full_name email hash (some role_id)
    else insert_user full_name email hash none

-- The id of the role, and 0 where there is none. The role "user" is created where it is missing.
unfoldable pub find_or_create_role : Str → Body Tables ℤ
unfolding role_by_name insert_role role_id_of
find_or_create_role name t = elim (role_by_name name t) [
  | some r ↦ pure r.id t
  | none ↦
      if str_eq name (codes "user")
      then (insert_role (codes "user") (codes "Utilisateur standard") >>= λ _ t.
            pure (role_id_of name t) t)
          t
      else pure (pos 0) t
]

-- The retry looks for the role only.
unfoldable pub register_user_with_role : Str → Str → Str → Str → Exec Tables (Unit {0})
unfolding with_retry find_or_create_role insert_with_role role_id_of transact
register_user_with_role full_name email hash role_name =
    with_retry (λ e. err e)
      (find_or_create_role role_name >>= insert_with_role full_name email hash)
      (transact keep (λ t. insert_with_role full_name email hash (role_id_of role_name t) t))

unfoldable pub get_user_by_email : Str → Exec Tables (Option UserRecord)
unfolding retried user_by_email user_record
get_user_by_email email = retried (λ e. err e) (λ t. pure (selected t (user_by_email email t)) t)

unfoldable pub get_user_by_id : ℤ → Exec Tables (Option UserRecord)
unfolding retried user_by_id user_record
get_user_by_id id = retried (λ e. err e) (λ t. pure (selected t (user_by_id id t)) t)

-- SELECT token_jti FROM users WHERE id_users = $1
unfoldable pub select_jti : ℤ → Tables → Option Str
unfolding user_by_id
select_jti id t = elim (user_by_id id t) [ none ↦ none | some u ↦ u.token_jti ]

-- The INSERT of a session that there is into tokens_revoked.
unfoldable pub revoke_jti : Option Str → Body Tables (Unit {0})
unfolding insert_revoked
revoke_jti none = pure tt
revoke_jti (some jti) = if empty jti then pure tt else insert_revoked jti

unfoldable pub delete_user_body : ℤ → Body Tables Bool
unfolding select_jti revoke_jti delete_user
delete_user_body id = (λ t. revoke_jti (select_jti id t) t) >>= λ _. delete_user id

unfoldable pub delete_user_by_id : ℤ → Exec Tables Bool
unfolding retried delete_user_body
delete_user_by_id id = retried (λ e. err e) (delete_user_body id)

unfoldable pub update_user_password_hash : ℤ → Str → Exec Tables Bool
unfolding retried_or update_user
update_user_password_hash id hash =
    retried_or false (update_user id (λ u. record u { password_hash = hash }) >>= λ _. pure true)

unfoldable pub get_user_token_jti : ℤ → Exec Tables (Option Str)
unfolding retried select_jti
get_user_token_jti id = retried (λ e. err e) (λ t. pure (select_jti id t) t)

unfoldable pub set_user_token_jti : ℤ → Str → Exec Tables Bool
unfolding retried_or update_user
set_user_token_jti id jti = retried_or false (
    update_user id (λ u. record u { token_jti = if empty jti then none else some jti }) >>= λ _.
    pure true)

-- An error of the database counts as revoked.
unfoldable pub is_token_revoked : Str → Exec Tables Bool
unfolding retried is_revoked
is_token_revoked jti s =
    if empty jti
    then (ok false, s)
    else retried (λ e. ok true) (λ t. pure (is_revoked jti t.tokens_revoked) t) s

unfoldable pub revoke_token_jti : Str → Exec Tables Bool
unfolding retried insert_revoked
revoke_token_jti jti s =
    if empty jti
    then (ok true, s)
    else retried (λ e. ok false) (insert_revoked jti >>= λ _. pure true) s

-- ORDER BY u.full_name, u.email; `before` is the order of the database's collation.
abbrev user_before : (Str → Str → Bool) → User → User → Bool
user_before before u v =
    if before u.full_name v.full_name
    then true
    else if before v.full_name u.full_name
    then false
    else not (before v.email u.email)

unfoldable pub list_users : (Str → Str → Bool) → Exec Tables (List UserRecord)
unfolding swallowed sort_by user_record
list_users before =
    swallowed [] (λ t. pure (map (user_record t) (sort_by (user_before before) t.users)) t)
