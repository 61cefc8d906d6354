-- ===== src/Auth/Rotation.antt =====
-- A login replaces the session of its user, a logout ends it: auth_service/src/service/
-- AuthServiceImpl.cpp.
use wizz_mania.Prelude.{
  ◌≡◌, refl, ap, ◌∙◌, sym, subst, Bool, true, false, List, [], Option, none, some, if◌then◌else◌,
  if_true, if_false,
}
use wizz_mania.Prelude.Text.{Str, empty}
use wizz_mania.Prelude.Result.{Result, ok, err}
use wizz_mania.Prelude.Int.{ℤ}
use wizz_mania.Number.{to_string}
use wizz_mania.Grpc.{Status, success, failed, unauthenticated}
use wizz_mania.Sql
use wizz_mania.Sql.{Exn, Exec, Body, bind, pure}
use wizz_mania.Auth.Tables.{Tables, User, user_by_email, user_by_id, update_user}
use wizz_mania.Auth.Roles.{get_user_permissions, user_permissions}
use wizz_mania.Auth.Database.{
  Db, UserRecord, user_record, selected, select_jti, get_user_by_email, update_user_password_hash,
  guarded,
}
use wizz_mania.Auth.Service.{
  AuthManager, PasswordHasher, LoginResponse, caught, no_login, reply, ◌>>=◌, upgrade_hash,
  open_session, check_password, login,
}
use wizz_mania.Auth.Revocation.{IsRevoked}
use wizz_mania.Auth.Quiet.{IsQuiet, with_tables, retried-quiet, retried_or-quiet, swallowed-quiet}
use wizz_mania.Auth.Replace.{
  HasSession, Runs, select_jti-session, with_jti, update_user-found, IsQuiet-at, bind-Runs,
  replaced, replaced-Runs,
}

-- What `Login` answers for a session.
abbrev pub session_of : AuthManager → Str → UserRecord → List Str → LoginResponse
session_of manager jti user permissions = record {
  access_token =
      manager.generate_access_token (to_string user.id) user.email user.role_name permissions jti
        3600;
  refresh_token = manager.generate_refresh_token (to_string user.id) jti 2592000;
  expires_in = 3600;
  role = user.role_name;
  permissions = permissions;
}

module _ (d : Db) (q : IsQuiet d) where
  -- The tables after the upgrade of a hash.
  upgraded : PasswordHasher → Str → UserRecord → Tables → Tables
  upgraded hasher password user t =
      if hasher.is_legacy_hash_format user.password_hash
      then (update_user user.id (λ u. record u { password_hash = hasher.hash_password password })
          t).1
      else t

  guarded-Runs :
      {A : Type 0} (x a : A) (m : Exec Tables A) (t u : Tables)
      → Runs d q m t a u
      → Runs d q (guarded x m) t a u
  unfolding guarded
  guarded-Runs {A = A} x a m t u h = ap caught_as h
    where
      caught_as : Result Exn A × Db → Result Exn A × Db
      caught_as (r, s) = elim r [ ok y ↦ (ok y, s) | err e ↦ (ok x, s) ]

  update_user_password_hash-Runs :
      (id : ℤ) (hash : Str) (t : Tables)
      → Runs d q
          (update_user_password_hash id hash)
          t
          true
          (update_user id (λ u. record u { password_hash = hash }) t).1
  unfolding update_user_password_hash update_user
  update_user_password_hash-Runs id hash t =
      retried_or-quiet
        (Sql.◌>>=◌ (update_user id (λ u. record u { password_hash = hash })) λ _. pure true)
        (with_tables t d) true (update_user id (λ u. record u { password_hash = hash }) t).1
        (IsQuiet-at d q t) refl false

  upgrade_hash-Runs :
      (hasher : PasswordHasher) (password : Str) (user : UserRecord) (t : Tables)
      → Runs d q (upgrade_hash hasher password user) t tt (upgraded hasher password user t)
  unfolding upgrade_hash upgraded
  upgrade_hash-Runs hasher password user t = go (hasher.is_legacy_hash_format user.password_hash)
    where
      hash : Str
      hash = hasher.hash_password password

      m : Exec Tables Bool
      m = guarded false (update_user_password_hash user.id hash)

      t' : Tables
      t' = (update_user user.id (λ u. record u { password_hash = hash }) t).1

      go :
          (b : Bool)
          → Runs d q (if b then (m >>= λ _. reply tt) else reply tt) t tt (if b then t' else t)
      go false = refl
      go true =
          bind-Runs d q m (λ _. reply tt) t t' t' true tt
            (guarded-Runs false true (update_user_password_hash user.id hash) t t'
              (update_user_password_hash-Runs user.id hash t))
            refl

  get_user_permissions-Runs :
      (id : ℤ) (t : Tables) → Runs d q (get_user_permissions id) t (user_permissions id t) t
  unfolding get_user_permissions
  get_user_permissions-Runs id t =
      swallowed-quiet (λ t. pure (user_permissions id t) t) (with_tables t d)
        (user_permissions id t) t (IsQuiet-at d q t) refl []

  upgraded-HasSession :
      (hasher : PasswordHasher) (password : Str) (user : UserRecord) (jti : Str) (t : Tables)
      → HasSession user.id jti t
      → HasSession user.id jti (upgraded hasher password user t)
  unfolding upgraded
  upgraded-HasSession hasher password user jti t h =
      go (hasher.is_legacy_hash_format user.password_hash)
    where
      change : User → User
      change u = record u { password_hash = hasher.hash_password password }

      go : (b : Bool) → HasSession user.id jti (if b then (update_user user.id change t).1 else t)
      go false = h
      go true = record {
        row = change h.row;
        found = update_user-found user.id change t h.row (λ u. refl) h.found;
        session = h.session;
      }

  -- The steps of a login, behind the password.
  record IsRotated (manager : AuthManager) (old jti : Str) (user : UserRecord)
      (m : Exec Tables (Status × LoginResponse)) (t : Tables) : Type 0 where
    after : Tables
    permissions : List Str
    runs : Runs d q m t (success, session_of manager jti user permissions) after
    revoked : IsRevoked old after
    current : HasSession user.id jti after

  open_session-IsRotated :
      (manager : AuthManager) (hasher : PasswordHasher) (jti old password : Str) (user : UserRecord)
      (t : Tables)
      → HasSession user.id old t
      → empty old ≡ false
      → empty jti ≡ false
      → IsRotated manager old jti user (open_session manager hasher jti password user) t
  unfolding open_session
  open_session-IsRotated manager hasher jti old password user t h named new =
      let t1 = upgraded hasher password user t in
      let h1 = upgraded-HasSession hasher password user old t h in
      let ps = user_permissions user.id t1 in
      let done : Status × LoginResponse = (success, session_of manager jti user ps) in
      let (t3, runs, revoked, (row, found)) = replaced-Runs d q user.id old jti done t1 h1 named in
      record {
        after = t3;
        permissions = ps;
        runs =
            bind-Runs d q (upgrade_hash hasher password user) (λ _. collect) t t1 t3 tt done
              (upgrade_hash-Runs hasher password user t)
              (bind-Runs d q (get_user_permissions user.id) rotate t1 t1 t3 ps done
                (get_user_permissions-Runs user.id t1) runs);
        revoked = revoked;
        current = record {
          row = with_jti jti row;
          found = found;
          session = if_false (empty jti) none (some jti) new;
        };
      }
    where
      rotate : List Str → Exec Tables (Status × LoginResponse)
      rotate ps = replaced d q user.id jti (success, session_of manager jti user ps)

      collect : Exec Tables (Status × LoginResponse)
      collect = get_user_permissions user.id >>= rotate

pub caught-ok :
    {A : Type 0} (x : A) (m : Exec Tables (Status × A)) (d d' : Db) (r : Status × A)
    → m d ≡ (ok r, d')
    → caught x m d ≡ (ok r, d')
unfolding caught
caught-ok {A = A} x m d d' r h = ap (λ (r : Result Exn (Status × A) × Db). caught x (λ s. r) d) h

login-Runs :
    (manager : AuthManager) (hasher : PasswordHasher) (jti username password : Str) (u : User)
    (d : Db) (q : IsQuiet d) (r : Status × LoginResponse) (after : Tables)
    → user_by_email username d.tables ≡ some u
    → hasher.verify_password password u.password_hash ≡ true
    → Runs d q (open_session manager hasher jti password (user_record d.tables u)) d.tables r after
    → Runs d q (login manager hasher jti username password) d.tables r after
unfolding login check_password
login-Runs manager hasher jti username password u d q r after found verified opens =
    caught-ok no_login (get_user_by_email username >>= check) d (with_tables after d) r (
      bind-Runs d q (get_user_by_email username) check d.tables d.tables after
        (some (user_record d.tables u)) r
        (unfold get_user_by_email in
          retried-quiet (λ t. pure (selected t (user_by_email username t)) t) d
            (some (user_record d.tables u)) d.tables q
            (ap (λ o. (ok (selected d.tables o), d.tables)) found) (λ e. err e))
        (ap (λ (f : Exec Tables (Status × LoginResponse)). f d)
            (if_true (hasher.verify_password password u.password_hash)
              (open_session manager hasher jti password (user_record d.tables u))
              (reply (failed unauthenticated "Mot de passe incorrect", no_login)) verified)
          ∙ opens))
  where
    check : Option UserRecord → Exec Tables (Status × LoginResponse)
    check = check_password manager hasher jti password

-- On an open connection that nothing breaks off, a login with the right password, of a user whose row
-- the email and the id find and who has a session: it answers with tokens for the new session, which
-- is the one in the user's row from then on, and the old session is revoked; both sessions have ids
-- that are not empty.
pub login-rotates :
    (manager : AuthManager) (hasher : PasswordHasher) (jti old username password : Str) (u : User)
    (d : Db)
    → IsQuiet d
    → user_by_email username d.tables ≡ some u
    → user_by_id u.id d.tables ≡ some u
    → hasher.verify_password password u.password_hash ≡ true
    → u.token_jti ≡ some old
    → empty old ≡ false
    → empty jti ≡ false
    → ((permissions : List Str) × ((login manager hasher jti username password d).0
          ≡ ok (success, session_of manager jti (user_record d.tables u) permissions)))
      × IsRevoked old (login manager hasher jti username password d).1.tables
      × (select_jti u.id (login manager hasher jti username password d).1.tables ≡ some jti)
unfolding user_record
login-rotates manager hasher jti old username password u d q by_email by_id verified session named
      new =
    let had : HasSession u.id old d.tables = record { row = u; found = by_id; session = session } in
    let user = user_record d.tables u in
    let r =
      open_session-IsRotated d q manager hasher jti old password user d.tables had named new in
    let done =
      login-Runs manager hasher jti username password u d q
        (success, session_of manager jti user r.permissions) r.after by_email verified r.runs in
    (
      (r.permissions, ap (λ x. x.0) done),
      subst (λ x. IsRevoked old x.1.tables) (sym done) r.revoked,
      ap (λ x. select_jti u.id x.1.tables) done ∙ select_jti-session u.id jti r.after r.current,
    )
