-- ===== src/Auth/Replace.antt =====
-- One session takes the place of another: the methods of auth_service/src/db/Database.cpp that
-- `Login` and `RevokeTokens` call, on a quiet database.
use wizz_mania.Prelude.{
  ◌≡◌, refl, ap, ◌∙◌, Bool, true, false, List, [], ◌∷◌, map, find?, Option, none, some,
  if◌then◌else◌, if_false, arith,
}
use wizz_mania.Prelude.Text.{Str, empty}
use wizz_mania.Prelude.Result.{ok, err}
use wizz_mania.Prelude.Int.{ℤ, int_eq}
use wizz_mania.Sql
use wizz_mania.Sql.{Exn, Exec, Body, bind, pure}
use wizz_mania.Sql.Laws.{bind-ok}
use wizz_mania.Auth.Tables.{Tables, User, user_by_id, insert_revoked, update_user}
use wizz_mania.Auth.Database.{
  Db, select_jti, get_user_token_jti, set_user_token_jti, revoke_token_jti, retried,
}
use wizz_mania.Auth.Service.{reply, ◌>>=◌, revoke_current}
use wizz_mania.Auth.Revocation.{IsRevoked}
use wizz_mania.Auth.Accounts.{insert_revoked-IsRevoked}
use wizz_mania.Auth.Quiet.{IsQuiet, with_tables, retried-quiet, retried_or-quiet}

-- An UPDATE that leaves the ids alone is seen by the SELECT.
find-map :
    (id : ℤ) (change : User → User) (us : List User) (u : User)
    → ((u : User) → (change u).id ≡ u.id)
    → find? (λ u. int_eq u.id id) us ≡ some u
    → find? (λ u. int_eq u.id id) (map (λ u. if int_eq u.id id then change u else u) us)
      ≡ some (change u)
find-map id change [] u same h = cc h
find-map id change (x ∷ us) u same h = ground (arith, find-map id change us u same, same x, h)

-- What the rotation relies on: the row of the user, and its session.
pub record HasSession (id : ℤ) (jti : Str) (t : Tables) : Type 0 where
  pub row : User
  pub found : user_by_id id t ≡ some row
  pub session : row.token_jti ≡ some jti

pub update_user-found :
    (id : ℤ) (change : User → User) (t : Tables) (u : User)
    → ((u : User) → (change u).id ≡ u.id)
    → user_by_id id t ≡ some u
    → user_by_id id (update_user id change t).1 ≡ some (change u)
unfolding update_user user_by_id
update_user-found id change t u same h = find-map id change t.users u same h

abbrev pub jti_of : Option User → Option Str
jti_of o = elim o [ none ↦ none | some u ↦ u.token_jti ]

pub select_jti-session :
    (id : ℤ) (jti : Str) (t : Tables) → HasSession id jti t → select_jti id t ≡ some jti
unfolding select_jti
select_jti-session id jti t h = ap jti_of h.found ∙ h.session

abbrev pub with_jti : Str → User → User
with_jti jti u = record u { token_jti = if empty jti then none else some jti }

module _ (d : Db) (q : IsQuiet d) where
  -- `m` takes the tables `t` to `u` and returns `a`, and does nothing else.
  abbrev pub Runs : {A : Type 0} → Exec Tables A → Tables → A → Tables → Type 0
  Runs m t a u = m (with_tables t d) ≡ (ok a, with_tables u d)

  pub IsQuiet-at : (t : Tables) → IsQuiet (with_tables t d)
  IsQuiet-at t = record { opened = q.opened; no_faults = q.no_faults }

  pub bind-Runs :
      {A B : Type 0} (m : Exec Tables A) (f : A → Exec Tables B) (t t' u : Tables) (a : A) (b : B)
      → Runs m t a t'
      → Runs (f a) t' b u
      → Runs (m >>= f) t b u
  bind-Runs m f t t' u a b h k = bind-ok m f (with_tables t d) (with_tables t' d) a h ∙ k

  revoke_current-Runs :
      (jti : Str) (t t' : Tables)
      → empty jti ≡ false
      → insert_revoked jti t ≡ (ok tt, t')
      → Runs (revoke_current (some jti)) t tt t'
  unfolding revoke_current revoke_token_jti
  revoke_current-Runs jti t t' named e =
      ap (λ (f : Exec Tables (Unit {0})). f (with_tables t d))
        (if_false (empty jti) (reply tt) (revoke_token_jti jti >>= λ _. reply tt) named)
      ∙ bind-Runs (revoke_token_jti jti) (λ _. reply tt) t t' t' true tt
          (if_false (empty jti) (ok true, with_tables t d)
              (retried (λ e. ok false) body (with_tables t d)) named
            ∙ retried-quiet body (with_tables t d) true t' (IsQuiet-at t)
                (ap (λ r. Sql.◌>>=◌ (λ t. r) (λ _. pure true) t) e) (λ e. ok false))
          refl
    where
      body : Body Tables Bool
      body = Sql.◌>>=◌ (insert_revoked jti) (λ _. pure true)

  set_user_token_jti-Runs :
      (id : ℤ) (jti : Str) (t : Tables)
      → Runs (set_user_token_jti id jti) t true (update_user id (with_jti jti) t).1
  unfolding set_user_token_jti update_user
  set_user_token_jti-Runs id jti t =
      retried_or-quiet (Sql.◌>>=◌ (update_user id (with_jti jti)) λ _. pure true) (with_tables t d)
        true (update_user id (with_jti jti) t).1 (IsQuiet-at t) refl false

  pub get_user_token_jti-Runs :
      (id : ℤ) (jti : Str) (t : Tables)
      → HasSession id jti t
      → Runs (get_user_token_jti id) t (some jti) t
  unfolding get_user_token_jti
  get_user_token_jti-Runs id jti t h =
      retried-quiet (λ t. pure (select_jti id t) t) (with_tables t d) (some jti) t (IsQuiet-at t)
        (ap (λ o. (ok o, t)) (select_jti-session id jti t h)) (λ e. err e)

  -- The session of a user gives way to another one, or to none.
  abbrev pub replaced : {A : Type 0} → ℤ → Str → A → Exec Tables A
  replaced id jti r =
      (get_user_token_jti id >>= revoke_current) >>= λ _. set_user_token_jti id jti >>= λ _. reply r

  pub replaced-Runs :
      {A : Type 0} (id : ℤ) (old jti : Str) (r : A) (t : Tables)
      → HasSession id old t
      → empty old ≡ false
      → (u : Tables) × Runs (replaced id jti r) t r u
        × IsRevoked old u
        × ((row : User) × (user_by_id id u ≡ some (with_jti jti row)))
  unfolding update_user
  replaced-Runs {A = A} id old jti r t h named =
      let (t2, e, revoked, same) = insert_revoked-IsRevoked old t in
      let found : find? (λ u. int_eq u.id id) t2.users ≡ some h.row =
        ap (λ us. find? (λ u. int_eq u.id id) us) same ∙ seen in
      let t3 = (update_user id (with_jti jti) t2).1 in
      (
        t3,
        bind-Runs (get_user_token_jti id >>= revoke_current) (λ _. finish) t t2 t3 tt r
            (bind-Runs (get_user_token_jti id) revoke_current t t t2 (some old) tt
              (get_user_token_jti-Runs id old t h) (revoke_current-Runs old t t2 named e))
            (bind-Runs (set_user_token_jti id jti) (λ _. reply r) t2 t3 t3 true r
              (set_user_token_jti-Runs id jti t2) refl),
        revoked,
        (
          h.row,
          update_user-found id (with_jti jti) t2 h.row (λ u. refl) (unfold user_by_id in found),
        ),
      )
    where
      seen : find? (λ u. int_eq u.id id) t.users ≡ some h.row
      seen = unfold user_by_id in h.found

      finish : Exec Tables A
      finish = set_user_token_jti id jti >>= λ _. reply r
