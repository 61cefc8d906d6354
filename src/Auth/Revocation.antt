-- ===== src/Auth/Revocation.antt =====
-- A session that is revoked stays so: the methods of auth_service/src/db/Database.cpp.
use wizz_mania.Prelude.{
  ◌≡◌, Bool, true, false, [], ◌∷◌, ◌++◌, none, some, if◌then◌else◌, any-append_left,
}
use wizz_mania.Prelude.Text.{Str, empty, str_eq}
use wizz_mania.Prelude.Result.{Result, ok, err}
use wizz_mania.Prelude.Int.{ℤ}
use wizz_mania.Sql.{Exn, Exec, ◌>>=◌, pure}
use wizz_mania.Sql.Laws.{Keeps}
use wizz_mania.Auth.Tables.{
  Tables, User, user_by_email, user_by_id, keep, is_revoked, insert_revoked, update_user,
}
use wizz_mania.Auth.Roles.{get_user_permissions, user_permissions}
use wizz_mania.Auth.Database.{
  Db, get_user_by_email, get_user_by_id, get_user_token_jti, set_user_token_jti, is_token_revoked,
  revoke_token_jti, update_user_password_hash, retried, select_jti, selected,
}
use wizz_mania.Auth.Invariants.{IsSafe, retried-Keeps, retried_or-Keeps, swallowed-Keeps}
use wizz_mania.Auth.Service.{reply}

abbrev pub IsRevoked : Str → Tables → Type 0
IsRevoked jti t = is_revoked jti t.tokens_revoked ≡ true

module _ (jti : Str) where
  -- A body that only reads.
  pub read-IsSafe : {A : Type 0} (f : Tables → A) → IsSafe (IsRevoked jti) (λ t. pure (f t) t)
  unfolding keep
  read-IsSafe f = record { aborts = λ t h. h; commits = λ t h. h }

  update_user-IsSafe :
      (id : ℤ) (change : User → User)
      → IsSafe (IsRevoked jti) (update_user id change >>= λ _. pure true)
  unfolding keep update_user
  update_user-IsSafe id change = record { aborts = λ t h. h; commits = λ t h. h }

  insert_revoked-IsSafe :
      (other : Str) → IsSafe (IsRevoked jti) (insert_revoked other >>= λ _. pure true)
  unfolding keep insert_revoked is_revoked
  insert_revoked-IsSafe other = record {
    aborts = λ t h. h;
    commits = λ t h. kept t (is_revoked other t.tokens_revoked) h;
  }
    where
      kept :
          (t : Tables) (b : Bool)
          → IsRevoked jti t
          → IsRevoked jti
              (◌>>=◌
                (λ t.
                  if b
                  then pure tt t
                  else pure tt (record t { tokens_revoked = t.tokens_revoked ++ other ∷ [] }))
                (λ _. pure true)
                t).1
      kept t true h = h
      kept t false h = any-append_left (λ j. str_eq j jti) t.tokens_revoked (other ∷ []) h

  pub read-Keeps :
      {A : Type 0} (other : Exn → Result Exn A) (f : Tables → A)
      → Keeps (IsRevoked jti) (retried other (λ t. pure (f t) t))
  read-Keeps other f = retried-Keeps (IsRevoked jti) other (λ t. pure (f t) t) (read-IsSafe f)

  pub get_user_token_jti-Keeps : (id : ℤ) → Keeps (IsRevoked jti) (get_user_token_jti id)
  unfolding get_user_token_jti
  get_user_token_jti-Keeps id = read-Keeps (λ e. err e) (select_jti id)

  pub get_user_by_email-Keeps : (email : Str) → Keeps (IsRevoked jti) (get_user_by_email email)
  unfolding get_user_by_email
  get_user_by_email-Keeps email = read-Keeps (λ e. err e) (λ t. selected t (user_by_email email t))

  pub get_user_by_id-Keeps : (id : ℤ) → Keeps (IsRevoked jti) (get_user_by_id id)
  unfolding get_user_by_id
  get_user_by_id-Keeps id = read-Keeps (λ e. err e) (λ t. selected t (user_by_id id t))

  pub get_user_permissions-Keeps : (id : ℤ) → Keeps (IsRevoked jti) (get_user_permissions id)
  unfolding get_user_permissions
  get_user_permissions-Keeps id =
      swallowed-Keeps (IsRevoked jti) [] (λ t. pure (user_permissions id t) t)
        (read-IsSafe (user_permissions id))

  pub set_user_token_jti-Keeps :
      (id : ℤ) (new : Str) → Keeps (IsRevoked jti) (set_user_token_jti id new)
  unfolding set_user_token_jti
  set_user_token_jti-Keeps id new =
      retried_or-Keeps (IsRevoked jti) false (update_user id (change new) >>= λ _. pure true)
        (update_user-IsSafe id (change new))
    where
      change : Str → User → User
      change new u = record u { token_jti = if empty new then none else some new }

  pub update_user_password_hash-Keeps :
      (id : ℤ) (hash : Str) → Keeps (IsRevoked jti) (update_user_password_hash id hash)
  unfolding update_user_password_hash
  update_user_password_hash-Keeps id hash =
      retried_or-Keeps (IsRevoked jti) false (update_user id (change hash) >>= λ _. pure true)
        (update_user-IsSafe id (change hash))
    where
      change : Str → User → User
      change hash u = record u { password_hash = hash }

  pub if-Keeps :
      {A : Type 0} (b : Bool) (m n : Exec Tables A)
      → Keeps (IsRevoked jti) m
      → Keeps (IsRevoked jti) n
      → Keeps (IsRevoked jti) (if b then m else n)
  if-Keeps true m n km kn = km
  if-Keeps false m n km kn = kn

  pub reply-Keeps : {A : Type 0} (a : A) → Keeps (IsRevoked jti) (reply a)
  reply-Keeps a s h = h

  pub is_token_revoked-Keeps : (other : Str) → Keeps (IsRevoked jti) (is_token_revoked other)
  unfolding is_token_revoked
  is_token_revoked-Keeps other s h =
      chosen (empty other) (ok false) s
        (retried (λ e. ok true) (λ t. pure (is_revoked other t.tokens_revoked) t) s) h
        (read-Keeps (λ e. ok true) (λ t. is_revoked other t.tokens_revoked) s h)
    where
      chosen :
          {A : Type 0} (b : Bool) (r : Result Exn A) (s : Db) (y : Result Exn A × Db)
          → IsRevoked jti s.tables
          → IsRevoked jti y.1.tables
          → IsRevoked jti (if b then (r, s) else y).1.tables
      chosen true r s y hx hy = hx
      chosen false r s y hx hy = hy

  pub revoke_token_jti-Keeps : (other : Str) → Keeps (IsRevoked jti) (revoke_token_jti other)
  unfolding revoke_token_jti
  revoke_token_jti-Keeps other s h =
      chosen (empty other) (ok true) s
        (retried (λ e. ok false) (insert_revoked other >>= λ _. pure true) s) h
        (retried-Keeps (IsRevoked jti) (λ e. ok false) (insert_revoked other >>= λ _. pure true)
          (insert_revoked-IsSafe other) s h)
    where
      chosen :
          {A : Type 0} (b : Bool) (r : Result Exn A) (s : Db) (y : Result Exn A × Db)
          → IsRevoked jti s.tables
          → IsRevoked jti y.1.tables
          → IsRevoked jti (if b then (r, s) else y).1.tables
      chosen true r s y hx hy = hx
      chosen false r s y hx hy = hy
