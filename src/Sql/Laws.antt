-- ===== src/Sql/Laws.antt =====
-- What a transaction does, and the invariants that a method keeps, whatever the tables are.
use wizz_mania.Prelude.{Bool, true, false, Option, none, some, String, if◌then◌else◌}
use mathlib.Core.Path.{◌≡◌, refl, ap}
use wizz_mania.Prelude.Result.{Result, ok, err}
use wizz_mania.Sql.{
  Exn, exn_of, Throw, Fault, Session, Exec, Body, bind, next_event, later_events, settle, transact,
  connected, connect, ensure_connected,
}

module _ {ℓ} {T : Type ℓ} where
  settle-lost :
      {A : Type ℓ} (keep : T → T → T) (s : Session T) (f : Fault) (r : Result Throw A × T)
      → f.committed ≡ false
      → settle keep s (some f) r ≡ (
        err f.error,
        record s {
          tables = keep s.tables r.1;
          opened = f.still_open;
          faults = later_events s.faults;
        },
      )
  unfolding settle
  settle-lost keep s f (ok a, t) undone = rw undone
  settle-lost keep s f (err e, t) undone = refl

  -- A transaction that is broken off before its commit leaves the old tables.
  pub transact-lost :
      {A : Type ℓ} (keep : T → T → T) (body : Body T A) (s : Session T) (f : Fault)
      → next_event s.faults ≡ some f
      → f.committed ≡ false
      → transact keep body s ≡ (
        err f.error,
        record s {
          tables = keep s.tables (body s.tables).1;
          opened = f.still_open;
          faults = later_events s.faults;
        },
      )
  unfolding transact
  transact-lost keep body s f broken undone =
      rw broken (settle-lost keep s f (body s.tables) undone)

  -- A transaction that nothing breaks off commits what its body has made.
  pub transact-ok :
      {A : Type ℓ} (keep : T → T → T) (body : Body T A) (s : Session T) (a : A) (t : T)
      → next_event s.faults ≡ none
      → body s.tables ≡ (ok a, t)
      → transact keep body s ≡ (ok a, record s { tables = t; faults = later_events s.faults })
  unfolding transact
  transact-ok keep body s a t quiet runs = rw (quiet, runs)

  -- One whose commit took place, while the connection was lost, throws all the same.
  pub transact-doubt :
      {A : Type ℓ} (keep : T → T → T) (body : Body T A) (s : Session T) (f : Fault) (a : A) (t : T)
      → next_event s.faults ≡ some f
      → f.committed ≡ true
      → body s.tables ≡ (ok a, t)
      → transact keep body s ≡ (
        err f.error,
        record s { tables = t; opened = f.still_open; faults = later_events s.faults },
      )
  unfolding transact
  transact-doubt keep body s f a t doubt done runs = rw (doubt, runs, done)

  -- One that the server refuses, or that throws, leaves the old tables.
  pub transact-err :
      {A : Type ℓ} (keep : T → T → T) (body : Body T A) (s : Session T) (e : Throw) (t : T)
      → next_event s.faults ≡ none
      → body s.tables ≡ (err e, t)
      → transact keep body s ≡ (
        err (exn_of s.describe e),
        record s { tables = keep s.tables t; faults = later_events s.faults },
      )
  unfolding transact
  transact-err keep body s e t quiet runs = rw (quiet, runs)

  pub ensure_connected-opened : (s : Session T) → s.opened ≡ true → ensure_connected s ≡ (ok tt, s)
  unfolding ensure_connected
  ensure_connected-opened s up = ap (λ b. if b then (ok tt, s) else connect s) up

  pub connect-answered :
      (s : Session T)
      → next_event s.connects ≡ none
      → connect s ≡ (ok tt, record s { opened = true; connects = later_events s.connects })
  unfolding connect
  connect-answered s answers = ap (connected s) answers

module _ {ℓ} {T A B : Type ℓ} where
  pub bind-ok :
      (m : Exec T A) (f : A → Exec T B) (s s' : Session T) (a : A)
      → m s ≡ (ok a, s')
      → bind m f s ≡ f a s'
  bind-ok m f s s' a e = ap (after f) e
    where
      after : (A → Exec T B) → Result Exn A × Session T → Result Exn B × Session T
      after f (r, s') = elim r [ ok a ↦ f a s' | err e ↦ (err e, s') ]

-- Invariants of the tables.
module _ {ℓ κ} {T : Type ℓ} (P : T → Type κ) where
  -- `m` keeps `P`, whether it returns or throws.
  abbrev pub Keeps : {A : Type ℓ} → Exec T A → Type (ℓ ⊔ κ)
  Keeps m = (s : Session T) → P s.tables → P (m s).1.tables

  settle-keeps :
      {A : Type ℓ} (keep : T → T → T) (s : Session T) (f : Option Fault) (r : Result Throw A × T)
      → P (keep s.tables r.1)
      → ((a : A) (t : T) → r ≡ (ok a, t) → P t)
      → P (settle keep s f r).1.tables
  unfolding settle
  settle-keeps keep s none (ok a, t) aborted commits = commits a t refl
  settle-keeps keep s none (err e, t) aborted commits = aborted
  settle-keeps keep s (some f) (ok a, t) aborted commits =
      chosen f.committed aborted (commits a t refl)
    where
      chosen : {x y : T} (b : Bool) → P y → P x → P (if b then x else y)
      chosen true py px = px
      chosen false py px = py
  settle-keeps keep s (some f) (err e, t) aborted commits = aborted

  -- A transaction keeps what its body keeps where it ends well, and what an abort keeps.
  pub transact-Keeps :
      {A : Type ℓ} (keep : T → T → T) (body : Body T A)
      → ((t : T) → P t → P (keep t (body t).1))
      → ((t : T) (a : A) (t' : T) → P t → body t ≡ (ok a, t') → P t')
      → Keeps (transact keep body)
  unfolding transact
  transact-Keeps keep body aborts commits s h =
      settle-keeps keep s (next_event s.faults) (body s.tables) (aborts s.tables h)
        (λ a t e. commits s.tables a t h e)

  connected-keeps : (s : Session T) (o : Option String) → P s.tables → P (connected s o).1.tables
  unfolding connected
  connected-keeps s none h = h
  connected-keeps s (some w) h = h

  pub connect-Keeps : Keeps connect
  unfolding connect
  connect-Keeps s h = connected-keeps s (next_event s.connects) h

  pub ensure_connected-Keeps : Keeps ensure_connected
  unfolding ensure_connected
  ensure_connected-Keeps s h = chosen s.opened
    where
      chosen : (b : Bool) → P (if b then (ok tt, s) else connect s).1.tables
      chosen true = h
      chosen false = connect-Keeps s h

  after-keeps :
      {A B : Type ℓ} (f : A → Exec T B) (r : Result Exn A) (s : Session T)
      → P s.tables
      → ((a : A) → Keeps (f a))
      → P (bind (λ s. (r, s)) f s).1.tables
  after-keeps f (ok a) s h kf = kf a s h
  after-keeps f (err e) s h kf = h

  pub bind-Keeps :
      {A B : Type ℓ} (m : Exec T A) (f : A → Exec T B)
      → Keeps m
      → ((a : A) → Keeps (f a))
      → Keeps (bind m f)
  bind-Keeps m f km kf s h = after-keeps f (m s).0 (m s).1 (km s h) kf

-- What a method returns, where the tables satisfy `P`.
module _ {ℓ κ μ} {T : Type ℓ} (P : T → Type κ) {A : Type ℓ} (Q : Result Exn A → Type μ) where
  abbrev pub Ensures : Exec T A → Type (ℓ ⊔ κ ⊔ μ)
  Ensures m = (s : Session T) → P s.tables → Q (m s).0

  settle-ensures :
      (keep : T → T → T) (s : Session T) (f : Option Fault) (r : Result Throw A × T)
      → ((e : Exn) → Q (err e))
      → ((a : A) (t : T) → r ≡ (ok a, t) → Q (ok a))
      → Q (settle keep s f r).0
  unfolding settle
  settle-ensures keep s none (ok a, t) fails returns = returns a t refl
  settle-ensures keep s none (err e, t) fails returns = fails (exn_of s.describe e)
  settle-ensures keep s (some f) (ok a, t) fails returns = fails f.error
  settle-ensures keep s (some f) (err e, t) fails returns = fails f.error

  pub transact-Ensures :
      (keep : T → T → T) (body : Body T A)
      → ((e : Exn) → Q (err e))
      → ((t : T) (a : A) (t' : T) → P t → body t ≡ (ok a, t') → Q (ok a))
      → Ensures (transact keep body)
  unfolding transact
  transact-Ensures keep body fails returns s h =
      settle-ensures keep s (next_event s.faults) (body s.tables) fails
        (λ a t e. returns s.tables a t h e)

  pub bind-Ensures :
      {B : Type ℓ} (m : Exec T B) (f : B → Exec T A)
      → ((e : Exn) → Q (err e))
      → Keeps P m
      → ((b : B) → Ensures (f b))
      → Ensures (bind m f)
  bind-Ensures m f fails km qf s h = after f (m s).0 (m s).1 (km s h) qf
    where
      after :
          {B : Type _} (f : B → Exec T A) (r : Result Exn B) (s : Session T)
          → P s.tables
          → ((b : B) → Ensures (f b))
          → Q (bind (λ s. (r, s)) f s).0
      after f (ok b) s h qf = qf b s h
      after f (err e) s h qf = fails e
