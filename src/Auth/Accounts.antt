-- ===== src/Auth/Accounts.antt =====
-- The end of an account: auth_service/src/db/Database.cpp.
use wizz_mania.Prelude.{
  ◌≡◌, refl, ap, ◌∙◌, sym, subst, true, false, not, List, [], ◌∷◌, ◌++◌, Option, none, some, any,
  any-append_last, inl, inr, Bool-cases, filter, find?, if_false, arith,
}
use wizz_mania.Prelude.Text.{Str, empty, str_eq, str_eq_refl}
use wizz_mania.Prelude.Result.{Result, ok, err}
use wizz_mania.Prelude.Int.{ℤ, int_eq}
use wizz_mania.Sql.{Exn, ◌>>=◌, Body, pure, transact, ensure_connected, next_event, later_events}
use wizz_mania.Sql.Laws.{bind-ok, ensure_connected-opened, transact-ok}
use wizz_mania.Auth.Tables.{Tables, User, user_by_id, keep, is_revoked, insert_revoked, delete_user}
use wizz_mania.Auth.Database.{
  Db, on_broken, with_retry, retried, select_jti, revoke_jti, delete_user_body, delete_user_by_id,
}
use wizz_mania.Auth.Revocation.{IsRevoked}

-- On a connection that holds, a method is its transaction.
retried-ok :
    {A : Type 0} (other : Exn → Result Exn A) (body : Body Tables A) (s : Db) (a : A) (t : Tables)
    → s.opened ≡ true
    → next_event s.faults ≡ none
    → body s.tables ≡ (ok a, t)
    → retried other body s ≡ (ok a, record s { tables = t; faults = later_events s.faults })
unfolding retried with_retry on_broken
retried-ok other body s a t up quiet runs =
    bind-ok ensure_connected (λ _ s. on_broken other (transact keep body) (transact keep body s)) s
      s tt (ensure_connected-opened s up)
    ∙ ap (on_broken other (transact keep body)) (transact-ok keep body s a t quiet runs)

pub insert_revoked-IsRevoked :
    (jti : Str) (t : Tables)
    → (t' : Tables) × (insert_revoked jti t ≡ (ok tt, t')) × IsRevoked jti t' × (t'.users ≡ t.users)
unfolding insert_revoked is_revoked
insert_revoked-IsRevoked jti t = elim (Bool-cases (is_revoked jti t.tokens_revoked)) [
  | inl e ↦ (t, rw e, e, refl)
  | inr e ↦ (
    record t { tokens_revoked = t.tokens_revoked ++ jti ∷ [] },
    rw e,
    any-append_last (λ j. str_eq j jti) t.tokens_revoked jti (str_eq_refl jti),
    refl,
  )
]

find-any :
    (id : ℤ) (us : List User) (u : User)
    → find? (λ u. int_eq u.id id) us ≡ some u
    → any (λ u. int_eq u.id id) us ≡ true
find-any id [] u h = cc h
find-any id (x ∷ us) u h = ground (arith, find-any id us u, h)

find-filter :
    (id : ℤ) (us : List User)
    → find? (λ u. int_eq u.id id) (filter (λ u. not (int_eq u.id id)) us) ≡ none
find-filter id [] = refl
find-filter id (x ∷ us) = ground (arith, find-filter id us)

delete_user_body-session :
    (id : ℤ) (u : User) (jti : Str) (t t' : Tables)
    → user_by_id id t ≡ some u
    → u.token_jti ≡ some jti
    → empty jti ≡ false
    → insert_revoked jti t ≡ (ok tt, t')
    → t'.users ≡ t.users
    → delete_user_body id t
      ≡ (ok true, record t' { users = filter (λ u. not (int_eq u.id id)) t'.users })
unfolding delete_user_body select_jti revoke_jti delete_user
delete_user_body-session id u jti t t' found session named e same =
    ap (λ o. (revoke_jti o >>= λ _. delete_user id) t) (ap jti_of found ∙ session)
    ∙ (ap (λ m. (m >>= λ _. delete_user id) t)
          (if_false (empty jti) (pure tt) (insert_revoked jti) named)
        ∙ (ap (λ r. ((λ t. r) >>= λ _. delete_user id) t) e
            ∙ ap (λ b. (ok b, record t' { users = filter (λ u. not (int_eq u.id id)) t'.users }))
                (ap (any (λ u. int_eq u.id id)) same
                  ∙ find-any id t.users u (unfold user_by_id in found))))
  where
    jti_of : Option User → Option Str
    jti_of o = elim o [ none ↦ none | some u ↦ u.token_jti ]

-- On an open connection that the next transaction does not lose, the deletion of a user with a
-- session succeeds: the user is gone, and the session is revoked.
pub delete_user_by_id-revokes :
    (id : ℤ) (u : User) (jti : Str) (s : Db)
    → s.opened ≡ true
    → next_event s.faults ≡ none
    → user_by_id id s.tables ≡ some u
    → u.token_jti ≡ some jti
    → empty jti ≡ false
    → ((delete_user_by_id id s).0 ≡ ok true)
      × (user_by_id id (delete_user_by_id id s).1.tables ≡ none)
      × IsRevoked jti (delete_user_by_id id s).1.tables
unfolding delete_user_by_id
delete_user_by_id-revokes id u jti s up quiet found session named =
    let (t, e, r, same) = insert_revoked-IsRevoked jti s.tables in
    let done =
      retried-ok (λ e. err e) (delete_user_body id) s true (gone t) up quiet
        (delete_user_body-session id u jti s.tables t found session named e same) in
    (
      ap (λ r. r.0) done,
      ap (λ r. user_by_id id r.1.tables) done ∙ unfold user_by_id in find-filter id t.users,
      subst (λ x. IsRevoked jti x.1.tables) (sym done) r,
    )
  where
    gone : Tables → Tables
    gone t = record t { users = filter (λ u. not (int_eq u.id id)) t.users }
