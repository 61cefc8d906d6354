-- ===== src/Auth/Current.antt =====
-- The session that is current: `ValidateToken` and `RevokeTokens` of auth_service/src/service/
-- AuthServiceImpl.cpp on a quiet database.
use wizz_mania.Prelude.{
  [], ◌≡◌, refl, ap, ◌∙◌, Bool, true, false, ◌&&◌, not, ◌++◌, Option, none, some, if◌then◌else◌,
  if_false,
}
use wizz_mania.Prelude.Text.{Str, codes, empty, str_eq, str_eq_refl, strip_prefix-append}
use wizz_mania.Prelude.Result.{ok}
use wizz_mania.Prelude.Int.{ℤ}
use wizz_mania.Number.{parse_int}
use wizz_mania.Grpc.{Status, success, failed, permission_denied}
use wizz_mania.Sql.{Exec, Body, pure}
use wizz_mania.Auth.Tables.{Tables, is_revoked}
use wizz_mania.Auth.Database.{Db, select_jti, get_user_token_jti, is_token_revoked, retried}
use wizz_mania.Auth.Service.{
  caught, AuthManager, TokenInfo, TokenStatus, reply, ◌>>=◌, superseded, session_holds,
  validate_token, not_valid, token_status, get_bearer, revoke_for, revoke_tokens,
}
use wizz_mania.Auth.Revocation.{IsRevoked}
use wizz_mania.Auth.Quiet.{IsQuiet, with_tables, retried-quiet}
use wizz_mania.Auth.Replace.{
  replaced-Runs, jti_of, HasSession, Runs, bind-Runs, get_user_token_jti-Runs,
}
use wizz_mania.Auth.Rotation.{caught-ok}

module _ (d : Db) (q : IsQuiet d) where
  -- `RevokeTokens` for a user with a session.
  revoke_for-Runs :
      (caller : TokenInfo) (target : Str) (uid : ℤ) (old : Str) (t : Tables)
      → caller.valid ≡ true
      → (not (str_eq caller.token_type (codes "access")) && not (empty caller.token_type)) ≡ false
      → empty target ≡ false
      → (not (str_eq caller.role (codes "admin")) && not (str_eq caller.user_id target)) ≡ false
      → parse_int target ≡ some uid
      → HasSession uid old t
      → empty old ≡ false
      → (u : Tables) × Runs d q (revoke_for caller target) t (success, true) u
        × IsRevoked old u
        × (select_jti uid u ≡ none)
  unfolding revoke_for select_jti
  revoke_for-Runs caller target uid old t valid access there allowed parsed h named =
      let done : Status × Bool = (success, true) in
      let (u, runs, revoked, (row, found)) = replaced-Runs d q uid old [] done t h named in
      (u, rw (valid, access, there, allowed, parsed) runs, revoked, ap jti_of found)

-- A token whose session is the current one of its user.
pub record IsCurrent (info : TokenInfo) (uid : ℤ) (t : Tables) : Type 0 where
  pub is_valid : info.valid ≡ true
  pub named : empty info.jti ≡ false
  pub subject : parse_int info.user_id ≡ some uid
  pub session : HasSession uid info.jti t
  pub not_revoked : is_revoked info.jti t.tokens_revoked ≡ false

module _ (info : TokenInfo) (uid : ℤ) (d : Db) (q : IsQuiet d)
    (h : IsCurrent info uid d.tables) where
  is_token_revoked-Runs : Runs d q (is_token_revoked info.jti) d.tables false d.tables
  unfolding is_token_revoked
  is_token_revoked-Runs =
      if_false (empty info.jti) (ok false, d) (retried (λ e. ok true) seek d) h.named
      ∙ retried-quiet seek d false d.tables q (ap (λ b. (ok b, d.tables)) h.not_revoked)
          (λ e. ok true)
    where
      seek : Body Tables Bool
      seek t = pure (is_revoked info.jti t.tokens_revoked) t

  session_holds-Runs : Runs d q (session_holds info) d.tables true d.tables
  unfolding session_holds
  session_holds-Runs =
      bind-Runs d q (is_token_revoked info.jti) decide d.tables d.tables d.tables false true
        is_token_revoked-Runs
        (ap (λ o. of_user o d) h.subject
          ∙ bind-Runs d q (get_user_token_jti uid) answer d.tables d.tables d.tables (some info.jti)
              true (get_user_token_jti-Runs d q uid info.jti d.tables h.session)
              (ap (λ b. (ok b, d)) (rw (h.named, str_eq_refl info.jti) refl)))
    where
      answer : Option Str → Exec Tables Bool
      answer current = reply (not (superseded info.jti current))

      of_user : Option ℤ → Exec Tables Bool
      of_user o = elim o [ none ↦ reply true | some uid ↦ get_user_token_jti uid >>= answer ]

      decide : Bool → Exec Tables Bool
      decide revoked = if revoked then reply false else of_user (parse_int info.user_id)

-- On a connection that is open and that nothing breaks off, `ValidateToken` answers for a valid token
-- of the current session of its user, which is not revoked, with what is in the token, and
-- nothing changes.
pub validate_token-current :
    (manager : AuthManager) (token : Str) (uid : ℤ) (d : Db)
    → IsQuiet d
    → IsCurrent (manager.decode_token token) uid d.tables
    → validate_token manager token d
      ≡ (ok (success, token_status (manager.decode_token token) true), d)
unfolding validate_token
validate_token-current manager token uid d q h =
    caught-ok not_valid (check >>= tell) d d (success, token_status info true)
      (bind-Runs d q check tell d.tables d.tables d.tables true (success, token_status info true)
        (rw (h.is_valid, h.named) (session_holds-Runs info uid d q h)) refl)
  where
    info : TokenInfo
    info = manager.decode_token token

    check : Exec Tables Bool
    check = if info.valid && not (empty info.jti) then session_holds info else reply info.valid

    tell : Bool → Exec Tables (Status × TokenStatus)
    tell valid = reply (success, token_status info valid)

get_bearer-header :
    (token : Str) → empty token ≡ false → get_bearer (some (codes "Bearer " ++ token)) ≡ some token
unfolding get_bearer
get_bearer-header token named = rw (strip_prefix-append (codes "Bearer ") token, named) refl

-- An access token of the current session of a user ends that session: `RevokeTokens` for that user
-- succeeds, the session is revoked and the user has none, on a connection that is open and that
-- nothing breaks off.
pub revoke_tokens-ends :
    (manager : AuthManager) (token : Str) (uid : ℤ) (d : Db)
    → IsQuiet d
    → empty token ≡ false
    → str_eq (manager.decode_token token).token_type (codes "access") ≡ true
    → empty (manager.decode_token token).user_id ≡ false
    → IsCurrent (manager.decode_token token) uid d.tables
    → (after : Tables) × (revoke_tokens manager
          (some (codes "Bearer " ++ token))
          (manager.decode_token token).user_id
          d
        ≡ (ok (success, true), with_tables after d))
      × IsRevoked (manager.decode_token token).jti after
      × (select_jti uid after ≡ none)
unfolding revoke_tokens
revoke_tokens-ends manager token uid d q there access subject h =
    let info = manager.decode_token token in
    let (after, runs, revoked, gone) =
      revoke_for-Runs d q info info.user_id uid info.jti d.tables h.is_valid (rw access refl)
        subject (own (str_eq info.role (codes "admin")) info.user_id) h.subject h.session h.named in
    (
      after,
      ap (λ o. for_bearer o d) (get_bearer-header token there)
          ∙ caught-ok false (revoke_for info info.user_id) d (with_tables after d) (success, true)
              runs,
      revoked,
      gone,
    )
  where
    own : (admin : Bool) (id : Str) → (not admin && not (str_eq id id)) ≡ false
    own true id = refl
    own false id = rw (str_eq_refl id) refl

    for_bearer : Option Str → Exec Tables (Status × Bool)
    for_bearer o = elim o [
      | none ↦ reply (failed permission_denied "Missing authorization metadata", false)
      | some bearer ↦
          caught false
            (revoke_for (manager.decode_token bearer) (manager.decode_token token).user_id)
    ]
