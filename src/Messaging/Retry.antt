-- ===== src/Messaging/Retry.antt =====
-- What the retry of Database.cpp does, whatever the transaction is.
use wizz_mania.Prelude.{◌≡◌, refl, Bool, true, false, ◌||◌, not, none, some, ap, ◌∙◌, if◌then◌else◌}
use wizz_mania.Prelude.Result.{Result, ok, err}
use wizz_mania.Sql.{
  Body, Fault, Exn, is_failure, ensure_connected, next_event, later_events, bind, transact,
}
use wizz_mania.Sql.Laws.{
  ensure_connected-opened, connect-answered, bind-ok, Keeps, bind-Keeps, connect-Keeps,
  ensure_connected-Keeps, transact-Keeps, transact-doubt, transact-lost, transact-ok,
}
use wizz_mania.Messaging.Tables.{Tables, keep}
use wizz_mania.Messaging.Database.{
  Db, attempt, recover, reconnect_locked, with_retry, is_likely_connection_loss,
}

module _ {A : Type 0} (body : Body Tables A) where
  pub attempt-opened : (s : Db) → s.opened ≡ true → attempt body s ≡ transact keep body s
  unfolding attempt
  attempt-opened s up =
      bind-ok ensure_connected (λ _. transact keep body) s s tt (ensure_connected-opened s up)

  -- The retry proper: a new connection, and the transaction once more.
  recover-lost :
      (f g : Exn → Result Exn A) (e : Exn) (s : Db)
      → is_failure e ≡ true
      → (not s.opened || is_likely_connection_loss e.what) ≡ true
      → next_event s.connects ≡ none
      → recover f g body (err e, s)
        ≡ transact keep body (record s { opened = true; connects = later_events s.connects })
  unfolding recover attempt
  recover-lost f g e s failure lost answers =
      rw (failure, lost)
        (bind-ok reconnect_locked (λ _. attempt body) s
            (record s { opened = true; connects = later_events s.connects }) tt
            (unfold reconnect_locked in connect-answered (record s { opened = false }) answers)
          ∙ attempt-opened (record s { opened = true; connects = later_events s.connects }) refl)

module _ {A : Type 0} (body : Body Tables A) (s : Db) (up : s.opened ≡ true) where
  -- On a connection that holds, a method is its transaction: a result is committed.
  pub with_retry-ok :
      (a : A) (t : Tables)
      → next_event s.faults ≡ none
      → body s.tables ≡ (ok a, t)
      → with_retry body s ≡ (ok a, record s { tables = t; faults = later_events s.faults })
  unfolding with_retry
  with_retry-ok a t quiet runs =
      ap (recover (λ e. err e) (λ e. err e) body)
        (attempt-opened body s up ∙ transact-ok keep body s a t quiet runs)

  -- A connection that is lost before the commit, with an error that counts as a loss, and that
  -- can be opened again, does not show where the second try is not broken off: the result is
  -- that of the transaction on what the first try left, which is the old tables with the
  -- sequences of the first try.
  pub with_retry-reconnects :
      (f : Fault) (a : A) (t : Tables)
      → next_event s.faults ≡ some f
      → f.committed ≡ false
      → is_failure f.error ≡ true
      → (not f.still_open || is_likely_connection_loss f.error.what) ≡ true
      → next_event s.connects ≡ none
      → next_event (later_events s.faults) ≡ none
      → body (keep s.tables (body s.tables).1) ≡ (ok a, t)
      → with_retry body s ≡ (
        ok a,
        record s {
          tables = t;
          opened = true;
          connects = later_events s.connects;
          faults = later_events (later_events s.faults);
        },
      )
  unfolding with_retry
  with_retry-reconnects f a t broken undone failure lost answers quiet runs =
      ap (recover (λ e. err e) (λ e. err e) body)
        (attempt-opened body s up ∙ transact-lost keep body s f broken undone)
      ∙ (recover-lost body (λ e. err e) (λ e. err e) f.error (broken_off f) failure lost answers
          ∙ transact-ok keep body
              (record (broken_off f) { opened = true; connects = later_events s.connects }) a t
              quiet runs)
    where
      broken_off : Fault → Db
      broken_off f = record s {
        tables = keep s.tables (body s.tables).1;
        opened = f.still_open;
        faults = later_events s.faults;
      }

-- A transaction that was committed while the connection was lost, with an error that counts as a
-- loss, is run and committed a second time, where the connection can be opened again and the
-- second run is not broken off.
pub with_retry-twice :
    {A : Type 0} (body : Body Tables A) (s : Db) (f : Fault) (a b : A) (t u : Tables)
    → s.opened ≡ true
    → next_event s.faults ≡ some f
    → f.committed ≡ true
    → is_failure f.error ≡ true
    → (not f.still_open || is_likely_connection_loss f.error.what) ≡ true
    → next_event s.connects ≡ none
    → next_event (later_events s.faults) ≡ none
    → body s.tables ≡ (ok a, t)
    → body t ≡ (ok b, u)
    → with_retry body s ≡ (
      ok b,
      record s {
        tables = u;
        opened = true;
        connects = later_events s.connects;
        faults = later_events (later_events s.faults);
      },
    )
unfolding with_retry
with_retry-twice body s f a b t u up doubt done failure lost answers quiet first second =
    ap (recover (λ e. err e) (λ e. err e) body)
      (attempt-opened body s up ∙ transact-doubt keep body s f a t doubt done first)
    ∙ (recover-lost body (λ e. err e) (λ e. err e) f.error in_doubt failure lost answers
        ∙ transact-ok keep body
            (record in_doubt { opened = true; connects = later_events s.connects }) b u quiet
            second)
  where
    in_doubt : Db
    in_doubt = record s { tables = t; opened = f.still_open; faults = later_events s.faults }

-- Invariants, whatever the network does.
module _ {κ} (P : Tables → Type κ) {A : Type 0} (body : Body Tables A)
    (aborts : (t : Tables) → P t → P (keep t (body t).1))
    (commits : (t : Tables) (a : A) (t' : Tables) → P t → body t ≡ (ok a, t') → P t') where
  attempt-Keeps : Keeps P (attempt body)
  unfolding attempt
  attempt-Keeps =
      bind-Keeps P ensure_connected (λ _. transact keep body) (ensure_connected-Keeps P)
        (λ _. transact-Keeps P keep body aborts commits)

  pub recover-Keeps : (f g : Exn → Result Exn A) → Keeps P (λ s. recover f g body (attempt body s))
  recover-Keeps f g s h = caught (attempt body s).0 (attempt body s).1 (attempt-Keeps s h)
    where
      again : Keeps P (bind reconnect_locked (λ _. attempt body))
      again =
          bind-Keeps P reconnect_locked (λ _. attempt body)
            (λ s h. unfold reconnect_locked in connect-Keeps P (record s { opened = false }) h)
            (λ _. attempt-Keeps)

      chosen :
          (b c : Bool) (e : Exn) (s : Db)
          → P s.tables
          → P
              (if b
                then (if c then bind reconnect_locked (λ _. attempt body) s else (f e, s))
                else (g e, s)).1.tables
      chosen true true e s h = again s h
      chosen true false e s h = h
      chosen false c e s h = h

      caught : (r : Result Exn A) (s : Db) → P s.tables → P (recover f g body (r, s)).1.tables
      caught (ok a) s h = unfold recover in h
      caught (err e) s h =
          unfold recover in
          chosen (is_failure e) (not s.opened || is_likely_connection_loss e.what) e s h

  -- A method keeps what its transaction keeps, whether it returns or throws.
  pub with_retry-Keeps : Keeps P (with_retry body)
  unfolding with_retry
  with_retry-Keeps = recover-Keeps (λ e. err e) (λ e. err e)
