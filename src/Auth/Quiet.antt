-- ===== src/Auth/Quiet.antt =====
-- The methods of auth_service/src/db/Database.cpp on a connection that is open and that nothing
-- breaks off.
use wizz_mania.Prelude.{◌≡◌, ap, ◌∙◌, true, []}
use wizz_mania.Prelude.Result.{Result, ok, err}
use wizz_mania.Sql.{Exn, Body, Exec, transact, ensure_connected, next_event}
use wizz_mania.Sql.Laws.{bind-ok, ensure_connected-opened, transact-ok}
use wizz_mania.Auth.Tables.{Tables, keep}
use wizz_mania.Auth.Database.{Db, on_broken, with_retry, guarded, retried, retried_or, swallowed}

pub record IsQuiet (d : Db) : Type 0 where
  pub opened : d.opened ≡ true
  pub no_faults : d.faults ≡ []

abbrev pub with_tables : Tables → Db → Db
with_tables t d = record d { tables = t }

module _ {A : Type 0} (body : Body Tables A) (d : Db) (a : A) (t : Tables) (q : IsQuiet d)
    (runs : body d.tables ≡ (ok a, t)) where
  transact-quiet : transact keep body d ≡ (ok a, with_tables t d)
  transact-quiet =
      transact-ok keep body d a t (ap next_event q.no_faults) runs
      ∙ ap (λ f. (ok a, record d { tables = t; faults = f })) (rw q.no_faults)

  with_retry-quiet :
      (other : Exn → Result Exn A) (again : Exec Tables A)
      → with_retry other body again d ≡ (ok a, with_tables t d)
  unfolding with_retry on_broken
  with_retry-quiet other again =
      bind-ok ensure_connected (λ _ s. on_broken other again (transact keep body s)) d d tt
        (ensure_connected-opened d q.opened)
      ∙ ap (on_broken other again) transact-quiet

  pub retried-quiet : (other : Exn → Result Exn A) → retried other body d ≡ (ok a, with_tables t d)
  unfolding retried
  retried-quiet other = with_retry-quiet other (transact keep body)

  pub retried_or-quiet : (fallback : A) → retried_or fallback body d ≡ (ok a, with_tables t d)
  unfolding retried_or
  retried_or-quiet fallback =
      with_retry-quiet (λ e. ok fallback) (guarded fallback (transact keep body))

  pub swallowed-quiet : (fallback : A) → swallowed fallback body d ≡ (ok a, with_tables t d)
  unfolding swallowed guarded
  swallowed-quiet fallback =
      bind-ok ensure_connected (λ _. guarded fallback (transact keep body)) d d tt
        (ensure_connected-opened d q.opened)
      ∙ ap caught_as transact-quiet
    where
      caught_as : Result Exn A × Db → Result Exn A × Db
      caught_as (r, s) = elim r [ ok x ↦ (ok x, s) | err e ↦ (ok fallback, s) ]
