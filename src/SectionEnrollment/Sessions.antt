-- ===== src/SectionEnrollment/Sessions.antt =====
-- backend/internal/sectionenrollment/repository.go, `EnrollSectionTx` as many sessions run it: the
-- transaction cut at the points where other sessions may come between, under READ COMMITTED, where
-- a count sees the committed rows, and FOR UPDATE locks on the section rows.
pub mod Invariant
pub mod Overbooking
mod Tests
use infraestructura_y_servic.Base.{ℕ, ◌≡◌, ◌≢◌, ◌<◌, Bool, Option, none, some, ◌==◌, if◌then◌else◌}
use infraestructura_y_servic.Platform.Pgconv.{Numeric}
use infraestructura_y_servic.Store.{Uuid, Time, Status, SectionEnrollment, Db}
use infraestructura_y_servic.SectionEnrollment.Queries.{
  SectionRow, section_row, active_seats, find_key, revived, can_withdraw, withdrawn_at, can_settle,
  settled,
}
use infraestructura_y_servic.SectionEnrollment.Repository.Steps.{Revival}
use infraestructura_y_servic.SectionEnrollment.Repository.Effects.{with_row, with_update}

-- Where a transaction stands: before step 2 or ended, with the section row locked (after step 2),
-- and with the seats counted under that lock (after step 7), about to write for an enrollment.
pub data Phase : Type 0 where
  outside : Phase
  locked : Uuid → SectionRow → Phase
  admitted : Uuid → Uuid → Option Uuid → Phase

-- The section whose row lock it holds.
abbrev pub holds : Phase → Option Uuid
holds outside = none
holds (locked s row) = some s
holds (admitted s e revival) = some s

-- The committed tables, and where each transaction stands.
pub record State : Type 0 where
  pub db : Db
  pub phase : ℕ → Phase

abbrev pub put : ℕ → Phase → (ℕ → Phase) → ℕ → Phase
put t p phase u = if u == t then p else phase u

pub data Step (s : State) : State → Type 0 where
  -- FOR UPDATE waits while another transaction holds the row.
  lock :
      (t id : ℕ) (row : SectionRow)
      → s.phase t ≡ outside
      → ((u : ℕ) → holds (s.phase u) ≢ some id)
      → section_row id s.db ≡ some row
      → Step s (record { db = s.db; phase = put t (locked id row) s.phase })
  admit :
      (t id e : ℕ) (row : SectionRow) (is_admin : Bool) (revival : Option Uuid)
      → s.phase t ≡ locked id row
      → Revival is_admin (find_key e id s.db.section_enrollments) revival
      → active_seats id s.db.section_enrollments < row.capacity
      → Step s (record { db = s.db; phase = put t (admitted id e revival) s.phase })
  -- Step 8 and the commit, which ends the lock.
  insert :
      (t id e : ℕ)
      → s.phase t ≡ admitted id e none
      → find_key e id s.db.section_enrollments ≡ none
      → Step s (record { db = with_row e id s.db; phase = put t outside s.phase })
  revive :
      (t id e old : ℕ)
      → s.phase t ≡ admitted id e (some old)
      → Step s (record {
        db = with_update (λ r. r.id == old) (revived s.db.now) s.db;
        phase = put t outside s.phase;
      })
  -- A refusal, a failure or a rollback.
  abort : (t : ℕ) → Step s (record { db = s.db; phase = put t outside s.phase })
  -- The writes of other sessions that take no section lock.
  withdraw :
      (id : Uuid)
      → Step s (record {
        db = with_update (can_withdraw id) (withdrawn_at s.db.now) s.db;
        phase = s.phase;
      })
  settle :
      (id : Uuid) (outcome : Status) (grade : Numeric)
      → Step s (record {
        db = with_update (can_settle id outcome) (settled outcome grade s.db.now) s.db;
        phase = s.phase;
      })
  clock : (n : Time) → Step s (record { db = record s.db { now = n }; phase = s.phase })

-- Where any number of steps of any transactions lead.
pub data Reach (s : State) : State → Type 0 where
  here : Reach s s
  next : {t u : State} → Reach s t → Step t u → Reach s u
