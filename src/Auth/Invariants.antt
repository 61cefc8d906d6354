-- ===== src/Auth/Invariants.antt =====
-- What the methods of auth_service/src/db/Database.cpp keep, whatever the network does.
use wizz_mania.Prelude.{◌≡◌, ap, subst, Bool, true, false, if◌then◌else◌}
use wizz_mania.Prelude.Result.{Result, ok, err}
use wizz_mania.Sql.{Exn, Exec, Body, bind, transact, ensure_connected, is_broken}
use wizz_mania.Sql.Laws.{
  Keeps, Ensures, bind-Keeps, ensure_connected-Keeps, transact-Keeps, bind-Ensures,
  transact-Ensures,
}
use wizz_mania.Auth.Tables.{Tables, keep}
use wizz_mania.Auth.Database.{Db, on_broken, with_retry, guarded, retried, retried_or, swallowed}

module _ {κ} (P : Tables → Type κ) where
  -- A body whose tables satisfy `P` where it returns, and where it is aborted.
  pub record IsSafe {A : Type 0} (body : Body Tables A) : Type κ where
    pub aborts : (t : Tables) → P t → P (keep t (body t).1)
    pub commits : (t : Tables) → P t → P (body t).1

  pub safe-Keeps : {A : Type 0} (body : Body Tables A) → IsSafe body → Keeps P (transact keep body)
  safe-Keeps body safe =
      transact-Keeps P keep body safe.aborts
        (λ t a t' h e. subst P (ap (λ r. r.1) e) (safe.commits t h))

  chosen :
      {A : Type 0} (b : Bool) (x y : Result Exn A × Db)
      → P x.1.tables
      → P y.1.tables
      → P (if b then x else y).1.tables
  chosen true x y hx hy = hx
  chosen false x y hx hy = hy

  pub with_retry-Keeps :
      {A : Type 0} (other : Exn → Result Exn A) (body : Body Tables A) (again : Exec Tables A)
      → IsSafe body
      → Keeps P again
      → Keeps P (with_retry other body again)
  unfolding with_retry
  with_retry-Keeps other body again safe second =
      bind-Keeps P ensure_connected (λ _ s. on_broken other again (transact keep body s))
        (ensure_connected-Keeps P)
        (λ _ s h.
          handled other again (transact keep body s).0 (transact keep body s).1
            (safe-Keeps body safe s h) second)
    where
      handled :
          {A : Type 0} (other : Exn → Result Exn A) (again : Exec Tables A) (r : Result Exn A)
          (s : Db)
          → P s.tables
          → Keeps P again
          → P (on_broken other again (r, s)).1.tables
      handled other again (ok a) s h second = unfold on_broken in h
      handled other again (err e) s h second =
          unfold on_broken in
          chosen (is_broken e) (bind ensure_connected (λ _. again) s) (other e, s)
            (bind-Keeps P ensure_connected (λ _. again) (ensure_connected-Keeps P) (λ _. second) s
              h)
            h

  pub retried-Keeps :
      {A : Type 0} (other : Exn → Result Exn A) (body : Body Tables A)
      → IsSafe body
      → Keeps P (retried other body)
  unfolding retried
  retried-Keeps other body safe =
      with_retry-Keeps other body (transact keep body) safe (safe-Keeps body safe)

  pub guarded-Keeps : {A : Type 0} (a : A) (m : Exec Tables A) → Keeps P m → Keeps P (guarded a m)
  unfolding guarded
  guarded-Keeps a m km s h = over a (m s).0 (m s).1 (km s h)
    where
      over :
          {A : Type 0} (a : A) (r : Result Exn A) (s : Db)
          → P s.tables
          → P (guarded a (λ s. (r, s)) s).1.tables
      over a (ok x) s h = h
      over a (err e) s h = h

  pub retried_or-Keeps :
      {A : Type 0} (a : A) (body : Body Tables A) → IsSafe body → Keeps P (retried_or a body)
  unfolding retried_or
  retried_or-Keeps a body safe =
      with_retry-Keeps (λ e. ok a) body (guarded a (transact keep body)) safe
        (guarded-Keeps a (transact keep body) (safe-Keeps body safe))

  pub swallowed-Keeps :
      {A : Type 0} (a : A) (body : Body Tables A) → IsSafe body → Keeps P (swallowed a body)
  unfolding swallowed
  swallowed-Keeps a body safe =
      bind-Keeps P ensure_connected (λ _. guarded a (transact keep body)) (ensure_connected-Keeps P)
        (λ _. guarded-Keeps a (transact keep body) (safe-Keeps body safe))

  -- What a method that is tried twice returns: what its body returns, or an exception, or what the
  -- catch clause makes of one.
  pub retried-Ensures :
      {A : Type 0} (Q : Result Exn A → Type 0) (other : Exn → Result Exn A) (body : Body Tables A)
      → IsSafe body
      → ((e : Exn) → Q (err e))
      → ((e : Exn) → Q (other e))
      → ((t : Tables) (a : A) (t' : Tables) → P t → body t ≡ (ok a, t') → Q (ok a))
      → Ensures P Q (retried other body)
  unfolding retried with_retry
  retried-Ensures {A = A} Q other body safe fails caught returns =
      bind-Ensures P Q ensure_connected
        (λ _ s. on_broken other (transact keep body) (transact keep body s)) fails
        (ensure_connected-Keeps P)
        (λ _ s h.
          handled (transact keep body s).0 (transact keep body s).1 (safe-Keeps body safe s h)
            (once s h))
    where
      once : Ensures P Q (transact keep body)
      once = transact-Ensures P Q keep body fails returns

      either : (b : Bool) (x y : Result Exn A × Db) → Q x.0 → Q y.0 → Q (if b then x else y).0
      either true x y hx hy = hx
      either false x y hx hy = hy

      handled :
          (r : Result Exn A) (s : Db)
          → P s.tables
          → Q r
          → Q (on_broken other (transact keep body) (r, s)).0
      handled (ok a) s h q = unfold on_broken in q
      handled (err e) s h q =
          unfold on_broken in
          either (is_broken e) (bind ensure_connected (λ _. transact keep body) s) (other e, s)
            (bind-Ensures P Q ensure_connected (λ _. transact keep body) fails
              (ensure_connected-Keeps P) (λ _. once) s h)
            (caught e)
