-- ===== src/Auth/Guard.antt =====
-- Who is let through by the handlers of accounts and roles, auth_service/src/service/AuthServiceImpl.cpp.
use wizz_mania.Prelude.{
  ◌≡◌, refl, ap, sym, subst, true, false, Bool, ◌||◌, not, List, if_true, if_false, if◌then◌else◌,
}
use wizz_mania.Prelude.Text.{Str, empty}
use wizz_mania.Prelude.Result.{ok}
use wizz_mania.Grpc.{Status, failed, permission_denied}
use wizz_mania.Sql.{Exec}
use wizz_mania.Auth.Tables.{Tables}
use wizz_mania.Auth.Database.{Db}
use wizz_mania.Auth.Service.{AuthManager, PasswordHasher, reply}
use wizz_mania.Auth.Admin.{
  RegisterRequest, is_not_admin, validate_admin_token, not_done, register_user_rpc, delete_user_rpc,
  assign_role, create_role_rpc, list_roles_rpc, get_user_permissions_rpc,
}

-- A handler answers PERMISSION_DENIED, and leaves the database alone.
abbrev pub IsDenied : {A : Type 0} → Exec Tables (Status × A) → Db → Type 0
IsDenied {A = A} m s = (r : Status × A) × (m s ≡ (ok r, s)) × (r.0.code ≡ permission_denied)

IsDenied-first :
    {A : Type 0} (b : Bool) (message : _) (a : A) (m : Exec Tables (Status × A)) (s : Db)
    → b ≡ true
    → IsDenied (if b then reply (failed permission_denied message, a) else m) s
IsDenied-first b message a m s h = (
  (failed permission_denied message, a),
  ap (λ f. f s) (if_true b (reply (failed permission_denied message, a)) m h),
  refl,
)

IsDenied-second :
    {A : Type 0} (b : Bool) (x m : Exec Tables (Status × A)) (s : Db)
    → b ≡ false
    → IsDenied m s
    → IsDenied (if b then x else m) s
IsDenied-second b x m s h d = subst (λ f. IsDenied f s) (sym (if_false b x m h)) d

pub register_user_rpc-IsDenied :
    (manager : AuthManager) (hasher : PasswordHasher) (req : RegisterRequest) (s : Db) (e v : Bool)
    → (e || not v) ≡ true
    → empty req.admin_token ≡ e
    → validate_admin_token manager req.admin_token ≡ v
    → IsDenied (register_user_rpc manager hasher req) s
unfolding register_user_rpc
register_user_rpc-IsDenied manager hasher req s true v h he hv =
    IsDenied-first (empty req.admin_token) "Missing admin token" (not_done "Token admin manquant.")
      _ s he
register_user_rpc-IsDenied manager hasher req s false true h he hv = cc h
register_user_rpc-IsDenied manager hasher req s false false h he hv =
    IsDenied-second (empty req.admin_token) _ _ s he (
      IsDenied-first (not (validate_admin_token manager req.admin_token)) "Admin token required"
        (not_done "Accès refusé (admin requis).") _ s (ap not hv))

-- Without a token that is valid and has the role "admin", `RegisterUser`, `DeleteUser`, `AssignRole`,
-- `CreateRole`, `ListRoles` and `GetUserPermissions` answer PERMISSION_DENIED and leave the database
-- as it is, whatever else the request says.
pub is_not_admin-IsDenied :
    (manager : AuthManager) (hasher : PasswordHasher) (req : RegisterRequest)
    (before : Str → Str → Bool) (target email name description : Str) (permissions : List Str)
    (s : Db)
    → is_not_admin manager req.admin_token ≡ true
    → IsDenied (register_user_rpc manager hasher req) s
      × IsDenied (delete_user_rpc manager req.admin_token target) s
      × IsDenied (assign_role manager req.admin_token email name) s
      × IsDenied (create_role_rpc manager req.admin_token name description permissions) s
      × IsDenied (list_roles_rpc before manager req.admin_token) s
      × IsDenied (get_user_permissions_rpc manager req.admin_token email) s
unfolding delete_user_rpc assign_role create_role_rpc list_roles_rpc get_user_permissions_rpc
is_not_admin-IsDenied manager hasher req before target email name description permissions s h = (
  register_user_rpc-IsDenied manager hasher req s (empty req.admin_token)
      (validate_admin_token manager req.admin_token) (unfold is_not_admin in h) refl refl,
  IsDenied-first (is_not_admin manager req.admin_token) "Admin token required"
      (not_done "Accès refusé (admin requis). ") _ s h,
  IsDenied-first (is_not_admin manager req.admin_token) "Admin token required"
      (not_done "Accès refusé (admin requis). ") _ s h,
  IsDenied-first (is_not_admin manager req.admin_token) "Admin token required"
      (not_done "Accès refusé (admin requis). ") _ s h,
  IsDenied-first (is_not_admin manager req.admin_token) "Admin token required" _ _ s h,
  IsDenied-first (is_not_admin manager req.admin_token) "Admin token required" _ _ s h,
)
