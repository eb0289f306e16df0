-- ===== src/Driver.antt =====
-- How the repositories talk to PostgreSQL: statements, driver errors, and transactions.
-- A handler is a state-and-error computation over the database and the domain counters. Each
-- driver call of a handler has a number, and `faults` says which of them fail, and how: the
-- theorems hold for every such function, so for every pattern of failures.
pub mod Laws
use infraestructura_y_servic.Base.{
  ℕ, ◌+◌, ◌≡◌, refl, Bool, true, false, Option, none, some, List, ◌⊎◌, inl, inr, if◌then◌else◌,
}
use infraestructura_y_servic.Store.{Db}

-- What a driver call can fail with: `pgx.ErrNoRows`, the SQLSTATE codes that the code looks at,
-- and anything else.
pub data PgError : Type 0 where
  no_rows unique_violation fk_violation lock_not_available : PgError
  other : ℕ → PgError

-- The failures that do not come from the tables: a key that another session has just taken, a
-- lock that was not granted in time, a lost connection.
pub data Fault : Type 0 where
  raced_unique raced_fk lock_wait : Fault
  broken : ℕ → Fault

abbrev pub pg_error_of : Fault → PgError
pg_error_of raced_unique = unique_violation
pg_error_of raced_fk = fk_violation
pg_error_of lock_wait = lock_not_available
pg_error_of (broken n) = other n

abbrev pub Faults : Type 0
Faults = ℕ → Option Fault

-- A driver that answers every call.
abbrev pub no_faults : Faults
no_faults _ = none

-- A pair of Go results: a value, or a non-nil error.
pub data Result (E A : Type 0) : Type 0 where
  ok : A → Result E A
  err : E → Result E A

-- metrics.SectionEnrollment: the counters that outlive a rollback.
pub record Metrics : Type 0 where
  pub section_full_pre_check : ℕ
  pub section_full_under_lock : ℕ
  pub lock_timeout : ℕ

pub record World : Type 0 where
  pub db : Db
  pub metrics : Metrics

-- One SQL statement.
abbrev pub Query : Type 0 → Type 0
Query A = Db → Result PgError A × Db

abbrev pub M : Type 0 → Type 0 → Type 0
M E A = World → Result E A × World

infixl 5 ◌>>=◌ ◌>>◌
abbrev pub ◌>>=◌ : {E A B : Type 0} → M E A → (A → M E B) → M E B
◌>>=◌ m f w = let (r, w') = m w in elim r [ ok a ↦ f a w' | err e ↦ (err e, w') ]

abbrev pub ◌>>◌ : {E B : Type 0} → M E (Unit {0}) → M E B → M E B
m >> k = m >>= λ _. k

module _ {E A : Type 0} where
  abbrev pub pure : A → M E A
  pure a w = (ok a, w)

  abbrev pub raise : E → M E A
  raise e w = (err e, w)

  abbrev pub lift : Result E A → M E A
  lift r w = (r, w)

module _ {E : Type 0} where
  -- `if !c { return err }`.
  abbrev pub check : Bool → E → M E (Unit {0})
  check c e w = (if c then ok tt else err e, w)

  abbrev pub count_metric : (Metrics → Metrics) → M E (Unit {0})
  count_metric f w = (ok tt, record w { metrics = f w.metrics })

-- A driver call that succeeds or hits a fault; its error comes back as a value.
abbrev pub call : {E A : Type 0} → Faults → ℕ → Query A → M E (Result PgError A)
call faults n q w = elim (faults n) [
  | some f ↦ (ok (err (pg_error_of f)), w)
  | none ↦ let (r, db') = q w.db in (ok r, record w { db = db' })
]

-- `if err != nil { return translate(err) }`.
abbrev pub or_fail : {E A : Type 0} → (PgError → E) → Result PgError A → M E A
or_fail t (ok a) w = (ok a, w)
or_fail t (err e) w = (err (t e), w)

-- A statement that changes nothing.
abbrev pub reads : {A : Type 0} → (Db → Result PgError A) → Query A
reads f db = (f db, db)

-- The `:one` reads of sqlc: no row is `ErrNoRows`.
abbrev pub one_row : {A : Type 0} → Option A → Result PgError A
one_row none = err no_rows
one_row (some a) = ok a

-- `tx.Commit`: after a failure the transaction's writes are gone.
abbrev pub finish :
    {E A : Type 0} → (PgError → E) → Option Fault → Db → Result E A × World → Result E A × World
finish t commit before (err e, w) = (err e, record w { db = before })
finish t (some f) before (ok a, w) = (err (t (pg_error_of f)), record w { db = before })
finish t none before (ok a, w) = (ok a, w)

-- `pool.BeginTx`, `defer tx.Rollback`, the body, `tx.Commit`.
abbrev pub transaction :
    {E A : Type 0} → (PgError → E) → (begin commit : Option Fault) → M E A → M E A
transaction t (some f) commit body w = (err (t (pg_error_of f)), w)
transaction t none commit body w = finish t commit w.db (body w)
