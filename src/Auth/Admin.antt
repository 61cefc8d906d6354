-- ===== src/Auth/Admin.antt =====
-- The handlers of accounts and roles, auth_service/src/service/AuthServiceImpl.cpp. All but
-- `ListUsers` are for a holder of a token whose role is "admin".
use wizz_mania.Prelude.{
  Bool, true, false, ◌&&◌, ◌||◌, not, List, [], ◌∷◌, map, filter, none, some, if◌then◌else◌, String,
}
use wizz_mania.Prelude.Text.{Str, codes, empty, str_eq}
use wizz_mania.Prelude.Result.{Result, ok, err}
use wizz_mania.Prelude.Int.{ℤ}
use wizz_mania.Number.{parse_int, to_string}
use wizz_mania.Sql.{Exn, Exec, sql_error, broken_connection, failure, runtime_error}
use wizz_mania.Grpc.{
  Status, success, failed, invalid_argument, not_found, already_exists, permission_denied,
  unauthenticated, internal,
}
use wizz_mania.Auth.Tables.{Tables}
use wizz_mania.Auth.Database.{
  UserRecord, user_exists, register_user_with_role, get_user_by_email, delete_user_by_id,
  list_users,
}
use wizz_mania.Auth.Roles.{
  RoleRecord, get_user_permissions, assign_role_to_user, get_role_id_by_name, create_role,
  add_permission_to_role, list_roles,
}
use wizz_mania.Auth.Service.{◌>>=◌, AuthManager, PasswordHasher, reply, caught}

-- The responses with `success` and `message`.
pub record Outcome : Type 0 where
  pub is_done : Bool
  pub message : String

abbrev pub done : String → Outcome
done m = record { is_done = true; message = m }

abbrev pub not_done : String → Outcome
not_done m = record { is_done = false; message = m }

unfoldable pub validate_admin_token : AuthManager → Str → Bool
validate_admin_token manager token =
    let info = manager.decode_token token in info.valid && str_eq info.role (codes "admin")

-- `request->admin_token().empty() || !validateAdminToken(request->admin_token())`
unfoldable pub is_not_admin : AuthManager → Str → Bool
unfolding validate_admin_token
is_not_admin manager token = empty token || not (validate_admin_token manager token)

pub record RegisterRequest : Type 0 where
  pub admin_token : Str
  pub full_name : Str
  pub email : Str
  pub password : Str
  pub role_name : Str

-- The inner `try` of `RegisterUser`.
unfoldable pub registered : Result Exn (Unit {0}) → Status × Outcome
registered (ok a) = (success, done "Utilisateur créé avec succès.")
registered (err e) = elim e.kind [
  | sql_error ↦ (failed internal "DB error", not_done "Erreur SQL lors de l'inscription.")
  | broken_connection ↦ (failed internal e.what, not_done "Erreur lors de l'inscription.")
  | failure ↦ (failed internal e.what, not_done "Erreur lors de l'inscription.")
  | runtime_error ↦ (failed internal e.what, not_done "Erreur lors de l'inscription.")
]

unfoldable pub register_new : PasswordHasher → RegisterRequest → Exec Tables (Status × Outcome)
unfolding registered register_user_with_role
register_new hasher req s =
    let role = if empty req.role_name then codes "user" else req.role_name in
    let (r, s') =
      register_user_with_role req.full_name req.email (hasher.hash_password req.password) role s in
    (ok (registered r), s')

unfoldable pub register_user_rpc :
    AuthManager → PasswordHasher → RegisterRequest → Exec Tables (Status × Outcome)
unfolding caught validate_admin_token user_exists register_new
register_user_rpc manager hasher req =
    if empty req.admin_token
    then reply (failed permission_denied "Missing admin token", not_done "Token admin manquant.")
    else if not (validate_admin_token manager req.admin_token)
    then reply
        (failed permission_denied "Admin token required", not_done "Accès refusé (admin requis).")
    else if empty req.full_name || empty req.email || empty req.password
    then reply
        (failed invalid_argument "Missing required fields", not_done "Champs requis manquants.")
    else caught (not_done "") (
        user_exists req.email >>= λ exists.
        if exists
        then reply
            (failed already_exists "User already exists", not_done "Utilisateur déjà existant.")
        else register_new hasher req)

pub record UserEntry : Type 0 where
  pub user_id : Str
  pub full_name : Str
  pub email : Str
  pub role : Str

unfoldable pub user_entry : UserRecord → UserEntry
user_entry u = record {
  user_id = to_string u.id;
  full_name = u.full_name;
  email = u.email;
  role = u.role_name;
}

-- `before` is the order of the database's collation.
unfoldable pub list_users_rpc :
    (Str → Str → Bool) → AuthManager → Str → Bool → Exec Tables (Status × List UserEntry)
unfolding caught list_users user_entry
list_users_rpc before manager token include_self =
    let info = manager.decode_token token in
    if not info.valid
    then reply (failed unauthenticated "Invalid token", [])
    else caught [] (
        list_users before >>= λ users. reply (
          success,
          map user_entry
              (filter (λ u. include_self || not (str_eq (to_string u.id) info.user_id)) users),
        ))

unfoldable pub deleted : Bool → Status × Outcome
deleted true = (success, done "Utilisateur supprimé.")
deleted false = (failed not_found "User not found", not_done "Utilisateur introuvable.")

unfoldable pub delete_user_rpc : AuthManager → Str → Str → Exec Tables (Status × Outcome)
unfolding caught is_not_admin delete_user_by_id deleted
delete_user_rpc manager admin_token target =
    let caller = manager.decode_token admin_token in
    if is_not_admin manager admin_token
    then reply
        (failed permission_denied "Admin token required", not_done "Accès refusé (admin requis). ")
    else if empty target
    then reply (failed invalid_argument "Missing user_id", not_done "user_id requis.")
    else if caller.valid && str_eq caller.user_id target
    then reply (
      failed invalid_argument "Cannot delete self",
      not_done "Suppression de soi-même interdite.",
    )
    else elim (parse_int target) [
      | none ↦ reply (failed invalid_argument "Invalid user_id", not_done "user_id invalide.")
      | some uid ↦
          caught (not_done "Erreur interne.") (delete_user_by_id uid >>= λ ok. reply (deleted ok))
    ]

unfoldable pub assigned : Bool → Status × Outcome
assigned true = (success, done "Rôle assigné avec succès.")
assigned false =
    (failed internal "Failed to assign role", not_done "Erreur lors de l'assignation du rôle.")

unfoldable pub assign_role : AuthManager → Str → Str → Str → Exec Tables (Status × Outcome)
unfolding caught is_not_admin get_user_by_email get_role_id_by_name assign_role_to_user assigned
assign_role manager admin_token email role_name =
    if is_not_admin manager admin_token
    then reply
        (failed permission_denied "Admin token required", not_done "Accès refusé (admin requis). ")
    else if empty email || empty role_name
    then reply (
      failed invalid_argument "Missing required fields",
      not_done "Champs requis manquants (user_email/role_name).",
    )
    else caught (not_done "Erreur interne.") (
        get_user_by_email email >>= λ user. elim user [
          | none ↦ reply (failed not_found "User not found", not_done "Utilisateur introuvable.")
          | some u ↦ get_role_id_by_name role_name >>= λ role. elim role [
            | none ↦ reply (failed not_found "Role not found", not_done "Rôle introuvable.")
            | some r ↦ assign_role_to_user u.id r >>= λ ok. reply (assigned ok)
          ]
        ])

-- The loop of `CreateRole`: `false` where a permission could not be added.
unfoldable pub add_permissions : ℤ → List Str → Exec Tables Bool
unfolding add_permission_to_role
add_permissions role [] = reply true
add_permissions role (p ∷ ps) =
    let rest = add_permissions role ps in
    if empty p
    then rest
    else (add_permission_to_role role p >>= λ ok. if ok then rest else reply false)

unfoldable pub created : Bool → Status × Outcome
created true = (success, done "Rôle créé avec succès.")
created false = (
  failed internal "Failed to add permission",
  not_done "Erreur lors de l'ajout d'une permission au rôle.",
)

unfoldable pub create_role_rpc :
    AuthManager → Str → Str → Str → List Str → Exec Tables (Status × Outcome)
unfolding caught is_not_admin create_role get_role_id_by_name add_permissions created
create_role_rpc manager admin_token name description permissions =
    if is_not_admin manager admin_token
    then reply
        (failed permission_denied "Admin token required", not_done "Accès refusé (admin requis). ")
    else if empty name
    then reply (failed invalid_argument "Missing role_name", not_done "role_name requis.")
    else caught (not_done "Erreur interne.") (
        create_role name description >>= λ stored.
        if not stored
        then reply (failed internal "DB error", not_done "Erreur DB lors de la création du rôle.")
        else (get_role_id_by_name name >>= λ role. elim role [
          | none ↦ reply (
            failed internal "Role lookup failed",
            not_done "Rôle créé mais introuvable ensuite (incohérence DB).",
          )
          | some r ↦ add_permissions r permissions >>= λ ok. reply (created ok)
        ]))

-- The entries of `ListRoles` are the records, less their ids.
unfoldable pub list_roles_rpc :
    (Str → Str → Bool) → AuthManager → Str → Exec Tables (Status × List RoleRecord)
unfolding caught is_not_admin list_roles
list_roles_rpc before manager admin_token =
    if is_not_admin manager admin_token
    then reply (failed permission_denied "Admin token required", [])
    else caught [] (list_roles before >>= λ roles. reply (success, roles))

unfoldable pub get_user_permissions_rpc :
    AuthManager → Str → Str → Exec Tables (Status × (Str × List Str))
unfolding caught is_not_admin get_user_by_email get_user_permissions
get_user_permissions_rpc manager admin_token email =
    if is_not_admin manager admin_token
    then reply (failed permission_denied "Admin token required", ([], []))
    else if empty email
    then reply (failed invalid_argument "Missing user_email", ([], []))
    else caught ([], [])
        (get_user_by_email email >>= λ user. elim user [
          | none ↦ reply (failed not_found "User not found", ([], []))
          | some u ↦ get_user_permissions u.id >>= λ permissions.
              reply (success, (u.role_name, permissions))
        ])
