-- ===== src/Auth/Outsider.antt =====
-- What `ValidateToken` of auth_service/src/service/AuthServiceImpl.cpp does with a token whose role is
-- not "admin", whatever the database and its network do.
use wizz_mania.Prelude.{◌≡◌, refl, Bool, true, false, ◌&&◌, not, none, some, Option, if◌then◌else◌}
use wizz_mania.Prelude.Text.{Str, codes, empty, str_eq}
use wizz_mania.Prelude.Result.{Result, ok, err}
use wizz_mania.Prelude.Int.{ℤ}
use wizz_mania.Number.{parse_int}
use wizz_mania.Grpc.{Status, success}
use wizz_mania.Sql.{Exn, Exec, bind, pure}
use wizz_mania.Sql.Laws.{Keeps, bind-Keeps}
use wizz_mania.Auth.Tables.{Tables, keep, is_revoked}
use wizz_mania.Auth.Database.{Db, get_user_token_jti, is_token_revoked, retried, select_jti}
use wizz_mania.Auth.Invariants.{IsSafe, retried-Keeps}
use wizz_mania.Auth.Service.{
  AuthManager, TokenInfo, TokenStatus, caught, reply, validate_token, session_holds, not_valid,
  token_status, superseded,
}

module _ (tables : Tables) where
  abbrev IsSame : Tables → Type 0
  IsSame t = t ≡ tables

  read-IsSafe : {A : Type 0} (f : Tables → A) → IsSafe IsSame (λ t. pure (f t) t)
  unfolding keep
  read-IsSafe f = record { aborts = λ t h. h; commits = λ t h. h }

  read-Keeps :
      {A : Type 0} (other : Exn → Result Exn A) (f : Tables → A)
      → Keeps IsSame (retried other (λ t. pure (f t) t))
  read-Keeps other f = retried-Keeps IsSame other (λ t. pure (f t) t) (read-IsSafe f)

  if-Keeps :
      {A : Type 0} (b : Bool) (m n : Exec Tables A)
      → Keeps IsSame m
      → Keeps IsSame n
      → Keeps IsSame (if b then m else n)
  if-Keeps true m n km kn = km
  if-Keeps false m n km kn = kn

  is_token_revoked-Keeps : (jti : Str) → Keeps IsSame (is_token_revoked jti)
  unfolding is_token_revoked
  is_token_revoked-Keeps jti s h =
      chosen (empty jti) (retried (λ e. ok true) (λ t. pure (is_revoked jti t.tokens_revoked) t) s)
        (read-Keeps (λ e. ok true) (λ t. is_revoked jti t.tokens_revoked) s h)
    where
      chosen :
          (b : Bool) (y : Result Exn Bool × Db)
          → IsSame y.1.tables
          → IsSame (if b then (ok false, s) else y).1.tables
      chosen true y hy = h
      chosen false y hy = hy

  session_holds-Keeps : (info : TokenInfo) → Keeps IsSame (session_holds info)
  unfolding session_holds get_user_token_jti
  session_holds-Keeps info =
      bind-Keeps IsSame (is_token_revoked info.jti)
        (λ revoked. if revoked then reply false else known (parse_int info.user_id))
        (is_token_revoked-Keeps info.jti)
        (λ revoked.
          if-Keeps revoked (reply false) (known (parse_int info.user_id)) (λ s h. h)
            (known-Keeps (parse_int info.user_id)))
    where
      known : Option ℤ → Exec Tables Bool
      known o = elim o [
        | none ↦ reply true
        | some uid ↦
            bind (retried (λ e. err e) (λ t. pure (select_jti uid t) t))
              (λ current. reply (not (superseded info.jti current)))
      ]

      known-Keeps : (o : Option ℤ) → Keeps IsSame (known o)
      known-Keeps none = λ s h. h
      known-Keeps (some uid) =
          bind-Keeps IsSame (retried (λ e. err e) (λ t. pure (select_jti uid t) t))
            (λ current. reply (not (superseded info.jti current)))
            (read-Keeps (λ e. err e) (select_jti uid)) (λ current s h. h)

  -- `ValidateToken` only reads.
  pub validate_token-Keeps :
      (manager : AuthManager) (token : Str) → Keeps IsSame (validate_token manager token)
  unfolding validate_token caught
  validate_token-Keeps manager token s h = answered (m info s).0 (m info s).1 (
      if-Keeps (info.valid && not (empty info.jti)) (session_holds info) (reply info.valid)
        (session_holds-Keeps info) (λ s h. h) s h)
    where
      info : TokenInfo
      info = manager.decode_token token

      m : TokenInfo → Exec Tables Bool
      m info = if info.valid && not (empty info.jti) then session_holds info else reply info.valid

      answered :
          (r : Result Exn Bool) (s : Db)
          → IsSame s.tables
          → IsSame
              (caught not_valid
                (bind (λ s. (r, s)) (λ valid. reply (success, token_status info valid)))
                s).1.tables
      answered (ok b) s h = h
      answered (err e) s h = h

-- The answer has not got the role "admin".
abbrev pub IsOutsider : Result Exn (Status × TokenStatus) → Type 0
IsOutsider (ok r) = str_eq r.1.role (codes "admin") ≡ false
IsOutsider (err e) = Unit

pub validate_token-IsOutsider :
    (manager : AuthManager) (token : Str) (s : Db)
    → str_eq (manager.decode_token token).role (codes "admin") ≡ false
    → IsOutsider (validate_token manager token s).0
unfolding validate_token caught str_eq
validate_token-IsOutsider manager token s other =
    answered (manager.decode_token token) (m (manager.decode_token token) s).0
      (m (manager.decode_token token) s).1 other
  where
    m : TokenInfo → Exec Tables Bool
    m info = if info.valid && not (empty info.jti) then session_holds info else reply info.valid

    answered :
        (info : TokenInfo) (r : Result Exn Bool) (s : Db)
        → str_eq info.role (codes "admin") ≡ false
        → IsOutsider
            (caught not_valid
              (bind (λ s. (r, s)) (λ valid. reply (success, token_status info valid)))
              s).0
    answered info (ok true) s other = other
    answered info (ok false) s other = refl
    answered info (err e) s other = refl
