-- ===== src/Auth/Sessions.antt =====
-- A session that is revoked is refused from then on: auth_service/src/service/AuthServiceImpl.cpp.
use wizz_mania.Prelude.{
  ◌≡◌, refl, ap, ◌∙◌, sym, subst, Bool, true, false, ◌&&◌, not, List, [], ◌∷◌, Option, none, some,
  if◌then◌else◌, if_false,
}
use wizz_mania.Prelude.Text.{Str, empty}
use wizz_mania.Prelude.Result.{Result, ok, err}
use wizz_mania.Prelude.Int.{ℤ}
use wizz_mania.Number.{parse_int}
use wizz_mania.Grpc.{Status, success}
use wizz_mania.Sql.{Throw, Exn, Exec, bind, pure}
use wizz_mania.Sql.Laws.{Ensures}
use wizz_mania.Auth.Tables.{Tables, is_revoked}
use wizz_mania.Auth.Roles.{get_user_permissions}
use wizz_mania.Auth.Database.{
  Db, get_user_by_email, get_user_by_id, get_user_token_jti, set_user_token_jti, is_token_revoked,
  revoke_token_jti, update_user_password_hash, retried,
}
use wizz_mania.Auth.Invariants.{retried-Ensures}
use wizz_mania.Auth.Service.{
  AuthManager, TokenInfo, TokenStatus, caught, reply, validate_token, session_holds, not_valid,
  token_status, superseded,
}
use wizz_mania.Auth.Revocation.{
  IsRevoked, read-IsSafe, get_user_token_jti-Keeps, get_user_by_email-Keeps, get_user_by_id-Keeps,
  get_user_permissions-Keeps, set_user_token_jti-Keeps, update_user_password_hash-Keeps,
  is_token_revoked-Keeps, revoke_token_jti-Keeps,
}

-- The methods of the database that the handlers of sessions call.
pub data Call : Type 0 where
  by_email : Str → Call
  by_id : ℤ → Call
  permissions : ℤ → Call
  token_jti : ℤ → Call
  set_jti : ℤ → Str → Call
  set_hash : ℤ → Str → Call
  revoked : Str → Call
  revoke : Str → Call

-- The state behind a call, whether it returns or throws.
unfoldable pub step : Call → Db → Db
unfolding get_user_by_email get_user_by_id get_user_permissions get_user_token_jti
    set_user_token_jti update_user_password_hash is_token_revoked revoke_token_jti
step (by_email email) s = (get_user_by_email email s).1
step (by_id id) s = (get_user_by_id id s).1
step (permissions id) s = (get_user_permissions id s).1
step (token_jti id) s = (get_user_token_jti id s).1
step (set_jti id jti) s = (set_user_token_jti id jti s).1
step (set_hash id hash) s = (update_user_password_hash id hash s).1
step (revoked jti) s = (is_token_revoked jti s).1
step (revoke jti) s = (revoke_token_jti jti s).1

unfoldable pub run : List Call → Db → Db
unfolding step
run [] s = s
run (c ∷ cs) s = run cs (step c s)

module _ (jti : Str) where
  step-IsRevoked : (c : Call) (s : Db) → IsRevoked jti s.tables → IsRevoked jti (step c s).tables
  unfolding step
  step-IsRevoked (by_email email) s h = get_user_by_email-Keeps jti email s h
  step-IsRevoked (by_id id) s h = get_user_by_id-Keeps jti id s h
  step-IsRevoked (permissions id) s h = get_user_permissions-Keeps jti id s h
  step-IsRevoked (token_jti id) s h = get_user_token_jti-Keeps jti id s h
  step-IsRevoked (set_jti id new) s h = set_user_token_jti-Keeps jti id new s h
  step-IsRevoked (set_hash id hash) s h = update_user_password_hash-Keeps jti id hash s h
  step-IsRevoked (revoked other) s h = is_token_revoked-Keeps jti other s h
  step-IsRevoked (revoke other) s h = revoke_token_jti-Keeps jti other s h

  run-IsRevoked :
      (cs : List Call) (s : Db) → IsRevoked jti s.tables → IsRevoked jti (run cs s).tables
  unfolding run
  run-IsRevoked [] s h = h
  run-IsRevoked (c ∷ cs) s h = run-IsRevoked cs (step c s) (step-IsRevoked c s h)

-- An answer that does not let a session through: an exception, or the given Boolean.
abbrev Is : Bool → Result Exn Bool → Type 0
Is b (ok c) = c ≡ b
Is b (err e) = Unit

is_token_revoked-Ensures :
    (jti : Str) → empty jti ≡ false → Ensures (IsRevoked jti) (Is true) (is_token_revoked jti)
unfolding is_token_revoked
is_token_revoked-Ensures jti named s h =
    subst (λ r. Is true r.0)
      (sym (
        if_false (empty jti) (ok false, s)
          (retried (λ e. ok true) (λ t. pure (is_revoked jti t.tokens_revoked) t) s) named))
      (retried-Ensures (IsRevoked jti) (Is true) (λ e. ok true)
        (λ t. pure (is_revoked jti t.tokens_revoked) t)
        (read-IsSafe jti (λ t. is_revoked jti t.tokens_revoked)) (λ e. tt) (λ e. refl) returned s h)
  where
    value : Result Throw Bool → Bool
    value (ok a) = a
    value (err e) = true

    returned :
        (t : Tables) (a : Bool) (t' : Tables)
        → IsRevoked jti t
        → pure (is_revoked jti t.tokens_revoked) t ≡ (ok a, t')
        → a ≡ true
    returned t a t' h e = ap (λ r. value r.0) (sym e) ∙ h

session_holds-Ensures :
    (info : TokenInfo)
    → empty info.jti ≡ false
    → Ensures (IsRevoked info.jti) (Is false) (session_holds info)
unfolding session_holds
session_holds-Ensures info named s h =
    after info (is_token_revoked info.jti s).0 (is_token_revoked info.jti s).1
      (is_token_revoked-Ensures info.jti named s h)
  where
    known : TokenInfo → Option ℤ → Exec Tables Bool
    known info o = elim o [
      | none ↦ reply true
      | some uid ↦
          bind (get_user_token_jti uid) (λ current. reply (not (superseded info.jti current)))
    ]

    after :
        (info : TokenInfo) (r : Result Exn Bool) (s : Db)
        → Is true r
        → Is false
            (bind
              (λ s. (r, s))
              (λ revoked. if revoked then reply false else known info (parse_int info.user_id))
              s).0
    after info (ok true) s h = refl
    after info (ok false) s h = cc h
    after info (err e) s h = tt

-- What `ValidateToken` tells of a token, where it answers.
abbrev pub IsRefused : Result Exn (Status × TokenStatus) → Type 0
IsRefused (ok r) = r.1.valid ≡ false
IsRefused (err e) = Unit

-- Once a session is revoked, `ValidateToken` answers valid for no token of it, whatever methods
-- the handlers of sessions call in between, and whatever the network does.
pub validate_token-revoked :
    (manager : AuthManager) (token : Str) (cs : List Call) (s : Db)
    → empty (manager.decode_token token).jti ≡ false
    → IsRevoked (manager.decode_token token).jti s.tables
    → IsRefused (validate_token manager token (run cs s)).0
unfolding validate_token caught
validate_token-revoked manager token cs s named h =
    refused (manager.decode_token token) (run cs s) named
      (run-IsRevoked (manager.decode_token token).jti cs s h)
  where
    m : TokenInfo → Exec Tables Bool
    m info = if info.valid && not (empty info.jti) then session_holds info else reply info.valid

    gate :
        (info : TokenInfo) (s : Db) (b e : Bool)
        → e ≡ false
        → Is false (session_holds info s).0
        → Is false ((if b && not e then session_holds info else reply b) s).0
    gate info s true true n h = cc n
    gate info s true false n h = h
    gate info s false e n h = refl

    last :
        (info : TokenInfo) (r : Result Exn Bool) (s : Db)
        → Is false r
        → IsRefused
            (caught not_valid
              (bind (λ s. (r, s)) (λ valid. reply (success, token_status info valid)))
              s).0
    last info (ok true) s h = cc h
    last info (ok false) s h = refl
    last info (err e) s h = refl

    refused :
        (info : TokenInfo) (s : Db)
        → empty info.jti ≡ false
        → IsRevoked info.jti s.tables
        → IsRefused
            (caught not_valid
              (bind
                (if info.valid && not (empty info.jti)
                  then session_holds info
                  else reply info.valid)
                (λ valid. reply (success, token_status info valid)))
              s).0
    refused info s named h =
        last info (m info s).0 (m info s).1
          (gate info s info.valid (empty info.jti) named (session_holds-Ensures info named s h))
