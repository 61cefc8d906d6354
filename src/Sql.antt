-- ===== src/Sql.antt =====
-- What both services see of PostgreSQL through libpqxx: a connection that may be lost, and
-- transactions that commit, roll back or throw. The tables, and what a statement does to them, are
-- the services' own. What the network and the server will do is part of the state: `connects` has
-- an entry for each attempt to connect, `faults` one for each transaction; past their ends nothing
-- fails any more. `describe` is the server's text for a statement that it refuses.
pub mod Laws
use wizz_mania.Prelude.{
  ℕ, Bool, true, false, List, [], ◌∷◌, Option, none, some, String, if◌then◌else◌, ◌||◌, ◌&&◌, not,
}
use mathlib.Core.Path.{◌≡◌, refl, ap}
use wizz_mania.Prelude.Result.{Result, ok, err}

-- The classes of exceptions that the catch clauses tell apart. `broken_connection`, `sql_error` and
-- `failure` (which stands for the others below it) are all `pqxx::failure`.
pub data Kind : Type 0 where
  broken_connection sql_error failure runtime_error : Kind

pub record Exn : Type 0 where
  pub kind : Kind
  pub what : String

abbrev pub is_failure : Exn → Bool
is_failure e = elim e.kind [
  | broken_connection ↦ true
  | sql_error ↦ true
  | failure ↦ true
  | runtime_error ↦ false
]

abbrev pub is_broken : Exn → Bool
is_broken e = elim e.kind [
  | broken_connection ↦ true
  | sql_error ↦ false
  | failure ↦ false
  | runtime_error ↦ false
]

-- Why a statement is refused.
pub data Refusal : Type 0 where
  foreign_key unique too_long not_null sequence_exhausted : Refusal

-- How the body of a transaction ends early: the server refuses a statement, or the code throws a
-- `std::runtime_error`.
pub data Throw : Type 0 where
  refused : Refusal → Throw
  throws : String → Throw

-- A transaction that the network breaks off. It may have been committed all the same.
pub record Fault : Type 0 where
  pub committed : Bool
  pub still_open : Bool
  pub error : Exn

pub record Session {ℓ} (T : Type ℓ) : Type ℓ where
  pub tables : T
  pub opened : Bool
  pub connects : List (Option String)
  pub faults : List (Option Fault)
  pub describe : Refusal → String

-- A method that reads and writes the database, and returns or throws.
abbrev pub Exec {ℓ} : Type ℓ → Type ℓ → Type ℓ
Exec T A = Session T → Result Exn A × Session T

-- The body of a transaction: its statements, in order.
abbrev pub Body {ℓ} : Type ℓ → Type ℓ → Type ℓ
Body T A = T → Result Throw A × T

module _ {ℓ} where
  abbrev pub bind : {T A B : Type ℓ} → Exec T A → (A → Exec T B) → Exec T B
  bind m f s = let (r, s') = m s in elim r [ ok a ↦ f a s' | err e ↦ (err e, s') ]

  infixl 5 ◌>>=◌
  -- The statements of a body, one after the other.
  abbrev pub ◌>>=◌ : {T A B : Type ℓ} → Body T A → (A → Body T B) → Body T B
  ◌>>=◌ m f t = let (r, t') = m t in elim r [ ok a ↦ f a t' | err e ↦ (err e, t') ]

  abbrev pub pure : {T A : Type ℓ} → A → Body T A
  pure a t = (ok a, t)

  abbrev pub refuse : {T A : Type ℓ} → Refusal → Body T A
  refuse r t = (err (refused r), t)

  abbrev pub raise : {T A : Type ℓ} → String → Body T A
  raise w t = (err (throws w), t)

-- The first entry of a list of events, and the others.
abbrev pub next_event {ℓ} : {A : Type ℓ} → List (Option A) → Option A
next_event [] = none
next_event (e ∷ es) = e

abbrev pub later_events {ℓ} : {A : Type ℓ} → List (Option A) → List (Option A)
later_events [] = []
later_events (e ∷ es) = es

abbrev pub exn_of : (Refusal → String) → Throw → Exn
exn_of describe (refused r) = record { kind = sql_error; what = describe r }
exn_of describe (throws w) = record { kind = runtime_error; what = w }

module _ {ℓ} {T : Type ℓ} where
  -- The end of a transaction whose body has run. `keep old new` is what stays of an aborted one:
  -- the old tables, with the sequences where they are, since PostgreSQL does not roll those back.
  settle :
      {A : Type ℓ}
      → (T → T → T)
      → Session T
      → Option Fault
      → Result Throw A × T
      → Result Exn A × Session T
  settle keep s none (ok a, t) = (ok a, record s { tables = t; faults = later_events s.faults })
  settle keep s none (err e, t) = (
    err (exn_of s.describe e),
    record s { tables = keep s.tables t; faults = later_events s.faults },
  )
  settle keep s (some f) (ok a, t) = (
    err f.error,
    record s {
      tables = if f.committed then t else keep s.tables t;
      opened = f.still_open;
      faults = later_events s.faults;
    },
  )
  settle keep s (some f) (err e, t) = (
    err f.error,
    record s { tables = keep s.tables t; opened = f.still_open; faults = later_events s.faults },
  )

  -- `pqxx::work tx(conn); …; tx.commit();`
  unfoldable pub transact : {A : Type ℓ} → (T → T → T) → Body T A → Exec T A
  unfolding settle
  transact keep body s = settle keep s (next_event s.faults) (body s.tables)

  connected : Session T → Option String → Result Exn (Unit {ℓ}) × Session T
  connected s none = (ok tt, record s { opened = true; connects = later_events s.connects })
  connected s (some w) = (
    err (record { kind = broken_connection; what = w }),
    record s { opened = false; connects = later_events s.connects },
  )

  -- `conn = pqxx::connection(connStr)`, which throws where the server does not answer.
  unfoldable pub connect : Exec T (Unit {ℓ})
  unfolding connected
  connect s = connected s (next_event s.connects)

  -- Opens the connection where it is closed.
  unfoldable pub ensure_connected : Exec T (Unit {ℓ})
  unfolding connect
  ensure_connected s = if s.opened then (ok tt, s) else connect s
