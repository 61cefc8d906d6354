-- ===== src/Auth/Tables.antt =====
-- The tables of init/schema.sql that the authentication service uses, and the statements of
-- auth_service/src/db/Database.cpp. A list holds the rows of a table in the order of their
-- insertion. Columns that the service neither reads nor writes are left out.
use wizz_mania.Prelude.{
  ℕ, suc, Bool, true, ◌&&◌, ◌||◌, not, List, [], ◌∷◌, ◌++◌, map, filter, find?, any, ltb, leb,
  if◌then◌else◌, Option, none, some,
}
use wizz_mania.Prelude.Text.{Str, str_eq, char_length}
use wizz_mania.Prelude.Int.{ℤ, pos, int_eq, int_half}
use wizz_mania.Sql.{Body, refuse, pure, foreign_key, too_long, unique, sequence_exhausted}

pub record Role : Type 0 where
  pub id : ℤ
  pub name : Str
  pub description : Option Str

pub record Permission : Type 0 where
  pub id : ℤ
  pub name : Str

pub record RolePermission : Type 0 where
  pub role : ℤ
  pub permission : ℤ

pub record User : Type 0 where
  pub id : ℤ
  pub full_name : Str
  pub email : Str
  pub password_hash : Str
  pub role_id : Option ℤ
  pub token_jti : Option Str

pub record Tables : Type 0 where
  pub roles : List Role
  pub permissions : List Permission
  pub role_permission : List RolePermission
  pub users : List User
  pub tokens_revoked : List Str
  pub next_role : ℕ
  pub next_permission : ℕ
  pub next_user : ℕ

-- What an aborted transaction leaves: all as it was, but the sequences.
unfoldable pub keep : Tables → Tables → Tables
keep old new = record old {
  next_role = new.next_role;
  next_permission = new.next_permission;
  next_user = new.next_user;
}

-- SELECT … FROM users WHERE email = $1, and WHERE id_users = $1
unfoldable pub user_by_email : Str → Tables → Option User
user_by_email email t = find? (λ u. str_eq u.email email) t.users

unfoldable pub user_by_id : ℤ → Tables → Option User
user_by_id id t = find? (λ u. int_eq u.id id) t.users

-- SELECT id_roles FROM roles WHERE name = $1, and … WHERE id_roles = $1
unfoldable pub role_by_name : Str → Tables → Option Role
role_by_name name t = find? (λ r. str_eq r.name name) t.roles

unfoldable pub role_by_id : ℤ → Tables → Option Role
role_by_id id t = find? (λ r. int_eq r.id id) t.roles

abbrev pub role_exists : Option ℤ → Tables → Bool
role_exists none t = true
role_exists (some id) t = any (λ r. int_eq r.id id) t.roles

-- INSERT INTO users (full_name, email, password_hash, role_id) VALUES …; without a role it is NULL.
unfoldable pub insert_user : Str → Str → Str → Option ℤ → Body Tables (Unit {0})
insert_user full_name email hash role_id t =
    if leb int_half t.next_user
    then refuse sequence_exhausted t
    else (let t' = record t { next_user = suc t.next_user } in
        let row : User = record {
          id = pos t.next_user;
          full_name = full_name;
          email = email;
          password_hash = hash;
          role_id = role_id;
          token_jti = none;
        } in
        if ltb 150 (char_length full_name) || ltb 150 (char_length email)
        then refuse too_long t'
        else if any (λ u. str_eq u.email email) t.users
        then refuse unique t'
        else if role_exists role_id t
        then pure tt (record t' { users = t.users ++ row ∷ [] })
        else refuse foreign_key t')

-- INSERT INTO roles (name, description) VALUES … ON CONFLICT (name) DO NOTHING
unfoldable pub insert_role : Str → Str → Body Tables (Unit {0})
insert_role name description t =
    if leb int_half t.next_role
    then refuse sequence_exhausted t
    else (let t' = record t { next_role = suc t.next_role } in
        let row : Role = record {
          id = pos t.next_role;
          name = name;
          description = some description;
        } in
        if ltb 100 (char_length name)
        then refuse too_long t'
        else if any (λ r. str_eq r.name name) t.roles
        then pure tt t'
        else pure tt (record t' { roles = t.roles ++ row ∷ [] }))

-- INSERT INTO permissions (name, description) VALUES ($1, '') ON CONFLICT (name) DO NOTHING
unfoldable pub insert_permission : Str → Body Tables (Unit {0})
insert_permission name t =
    if leb int_half t.next_permission
    then refuse sequence_exhausted t
    else (let t' = record t { next_permission = suc t.next_permission } in
        let row : Permission = record { id = pos t.next_permission; name = name } in
        if ltb 100 (char_length name)
        then refuse too_long t'
        else if any (λ p. str_eq p.name name) t.permissions
        then pure tt t'
        else pure tt (record t' { permissions = t.permissions ++ row ∷ [] }))

-- INSERT INTO role_permission … SELECT $1, $2 WHERE NOT EXISTS (…)
unfoldable pub insert_role_permission : ℤ → ℤ → Body Tables (Unit {0})
insert_role_permission role permission t =
    if any (λ e. int_eq e.role role && int_eq e.permission permission) t.role_permission
    then pure tt t
    else if any (λ r. int_eq r.id role) t.roles && any (λ p. int_eq p.id permission) t.permissions
    then pure tt (record t {
      role_permission = t.role_permission ++ record { role = role; permission = permission } ∷ [];
    })
    else refuse foreign_key t

-- UPDATE users SET … WHERE id_users = $n
unfoldable pub update_user : ℤ → (User → User) → Body Tables (Unit {0})
update_user id change t =
    pure tt (record t { users = map (λ u. if int_eq u.id id then change u else u) t.users })

-- UPDATE users SET role_id = $1 WHERE id_users = $2: the role has to exist where a row changes.
unfoldable pub update_role : ℤ → ℤ → Body Tables (Unit {0})
unfolding update_user
update_role id role t =
    if any (λ u. int_eq u.id id) t.users && not (role_exists (some role) t)
    then refuse foreign_key t
    else update_user id (λ u. record u { role_id = some role }) t

-- DELETE FROM users WHERE id_users = $1, and whether a row was there.
unfoldable pub delete_user : ℤ → Body Tables Bool
delete_user id t =
    pure (any (λ u. int_eq u.id id) t.users)
      (record t { users = filter (λ u. not (int_eq u.id id)) t.users })

-- SELECT token_jti FROM tokens_revoked WHERE token_jti = $1
unfoldable pub is_revoked : Str → List Str → Bool
is_revoked jti = any (λ j. str_eq j jti)

-- INSERT INTO tokens_revoked (token_jti) VALUES ($1) ON CONFLICT (token_jti) DO NOTHING
unfoldable pub insert_revoked : Str → Body Tables (Unit {0})
unfolding is_revoked
insert_revoked jti t =
    if is_revoked jti t.tokens_revoked
    then pure tt t
    else pure tt (record t { tokens_revoked = t.tokens_revoked ++ jti ∷ [] })

-- SELECT p.name FROM role_permission rp JOIN permissions p … WHERE rp.id_roles = $1
unfoldable pub permissions_of : ℤ → Tables → List Str
permissions_of role t = names t.role_permission
  where
    named : ℤ → List Permission → List Str
    named id [] = []
    named id (p ∷ ps) = let rest = named id ps in if int_eq p.id id then p.name ∷ rest else rest

    names : List RolePermission → List Str
    names [] = []
    names (e ∷ es) =
        let rest = names es in
        if int_eq e.role role then named e.permission t.permissions ++ rest else rest

-- SELECT DISTINCT: the first of each.
unfoldable pub distinct : List Str → List Str
distinct [] = []
distinct (x ∷ xs) = x ∷ filter (λ y. not (str_eq y x)) (distinct xs)
