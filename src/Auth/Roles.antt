-- ===== src/Auth/Roles.antt =====
-- Roles and permissions: the last methods of auth_service/src/db/Database.cpp. None of them is
-- tried a second time.
use wizz_mania.Prelude.{Bool, true, false, not, List, [], ◌∷◌, Option, none, some, if◌then◌else◌}
use wizz_mania.Prelude.Text.{Str, codes, str_eq}
use wizz_mania.Prelude.Int.{ℤ, pos}
use wizz_mania.Sql.{Exec, Body, ◌>>=◌, pure, raise}
use wizz_mania.Messaging.Tables.{sort_by}
use wizz_mania.Auth.Tables.{
  Tables, Role, Permission, user_by_email, user_by_id, role_by_name, role_by_id, insert_role,
  insert_permission, insert_role_permission, update_role, permissions_of, distinct,
}
use wizz_mania.Auth.Database.{swallowed, selected, user_record}

pub record RoleRecord : Type 0 where
  pub id : ℤ
  pub name : Str
  pub description : Str
  pub permissions : List Str

-- The permissions of the user's role. SELECT DISTINCT leaves the order to the server; this is that
-- of the rows.
unfoldable pub user_permissions : ℤ → Tables → List Str
unfolding user_by_id permissions_of distinct
user_permissions id t = elim (user_by_id id t) [
  | none ↦ []
  | some u ↦ elim u.role_id [ none ↦ [] | some r ↦ distinct (permissions_of r t) ]
]

unfoldable pub get_user_permissions : ℤ → Exec Tables (List Str)
unfolding swallowed user_permissions
get_user_permissions id = swallowed [] (λ t. pure (user_permissions id t) t)

unfoldable pub is_user_admin : Str → Exec Tables Bool
unfolding swallowed user_by_email user_record
is_user_admin email = swallowed false (λ t.
    pure
      (elim (selected t (user_by_email email t)) [
        | none ↦ false
        | some u ↦ str_eq u.role_name (codes "admin")
      ])
      t)

unfoldable pub assign_role_to_user : ℤ → ℤ → Exec Tables Bool
unfolding swallowed update_role
assign_role_to_user user role = swallowed false (update_role user role >>= λ _. pure true)

-- A NULL description makes `as<std::string>()` throw.
unfoldable pub role_record : Role → Body Tables RoleRecord
unfolding permissions_of
role_record r t = elim r.description [
  | none ↦ raise "Attempt to convert null to string" t
  | some d ↦
      pure
        (record { id = r.id; name = r.name; description = d; permissions = permissions_of r.id t })
        t
]

abbrev pub no_role : RoleRecord
no_role = record { id = pos 0; name = []; description = []; permissions = [] }

unfoldable pub get_role : ℤ → Exec Tables RoleRecord
unfolding swallowed role_by_id role_record
get_role id =
    swallowed no_role
      (λ t. elim (role_by_id id t) [ none ↦ pure no_role t | some r ↦ role_record r t ])

unfoldable pub get_role_id_by_name : Str → Exec Tables (Option ℤ)
unfolding swallowed role_by_name
get_role_id_by_name name =
    swallowed none (λ t. pure (elim (role_by_name name t) [ none ↦ none | some r ↦ some r.id ]) t)

unfoldable pub create_role : Str → Str → Exec Tables Bool
unfolding swallowed insert_role
create_role name description = swallowed false (insert_role name description >>= λ _. pure true)

-- The records that the loop of `listRoles` pushes before a row throws, if one does.
unfoldable pub role_records : List Role → Tables → List RoleRecord
unfolding permissions_of
role_records [] t = []
role_records (r ∷ rs) t =
    let rest = role_records rs t in
    elim r.description [
      | none ↦ []
      | some d ↦
          record { id = r.id; name = r.name; description = d; permissions = permissions_of r.id t }
          ∷ rest
    ]

-- ORDER BY name. What the loop has pushed is returned also where a row throws. A
-- connection that is lost between two of the queries counts as lost at the first.
unfoldable pub list_roles : (Str → Str → Bool) → Exec Tables (List RoleRecord)
unfolding swallowed sort_by role_records
list_roles before =
    swallowed []
      (λ t. pure (role_records (sort_by (λ a b. not (before b.name a.name)) t.roles) t) t)

abbrev permission_by_name : Str → List Permission → Option ℤ
permission_by_name name [] = none
permission_by_name name (p ∷ ps) =
    if str_eq p.name name then some p.id else permission_by_name name ps

-- The id of the permission, created where it is missing. A `return false` inside the transaction
-- aborts it as an exception does.
unfoldable pub find_or_create_permission : Str → Body Tables ℤ
unfolding insert_permission
find_or_create_permission name t = elim (permission_by_name name t.permissions) [
  | some id ↦ pure id t
  | none ↦
      (insert_permission name >>= λ _ t. elim (permission_by_name name t.permissions) [
        | some id ↦ pure id t
        | none ↦ raise "Permission not found and could not be created" t
      ])
        t
]

unfoldable pub add_permission_to_role : ℤ → Str → Exec Tables Bool
unfolding swallowed find_or_create_permission insert_role_permission
add_permission_to_role role permission = swallowed false (
    find_or_create_permission permission >>= λ id.
    insert_role_permission role id >>= λ _. pure true)
