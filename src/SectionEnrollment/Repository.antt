-- ===== src/SectionEnrollment/Repository.antt =====
-- backend/internal/sectionenrollment/repository.go: the writing methods of `postgresRepository`.
pub mod Steps
pub mod Effects
pub mod Progress
pub mod Rules
pub mod Refusals
mod Tests
use infraestructura_y_servic.Base.{
  ℕ, suc, Bool, true, false, ◌&&◌, Option, none, some, ltb, ◌==◌, if◌then◌else◌,
}
use infraestructura_y_servic.Platform.Pgconv.{Numeric}
use infraestructura_y_servic.Store.{
  Uuid, EnrollmentStatus, paid, Enrollment, Status, in_progress, passed, failed, withdrawn,
  SectionEnrollment, Db,
}
use infraestructura_y_servic.Driver.{
  PgError, no_rows, lock_not_available, Faults, Result, ok, err, World, Metrics, Query, M, ◌>>=◌,
  ◌>>◌, pure, raise, check, count_metric, call, or_fail, transaction,
}
use infraestructura_y_servic.SectionEnrollment.Errors.{
  Error, not_found, already_exists, section_full, window_closed, not_paid, course_not_in_program,
  enrollment_year_mismatch, invalid_transition, withdrawn_not_revivable, translate_pg_error,
}
use infraestructura_y_servic.SectionEnrollment.Queries.{
  SectionRow, get_section_capacity, get_section_for_update_with_window, count_active_seats,
  resolve_enrollment_by_id, resolve_enrollment_by_student_and_program, course_in_program,
  get_section_enrollment_by_key_for_update, insert_section_enrollment, revive_section_enrollment,
  withdraw_section_enrollment, get_section_enrollment_by_id, set_section_enrollment_outcome,
}

pub record EnrollSectionParams : Type 0 where
  pub section_id : Uuid
  pub enrollment_id : Uuid
  pub student_id : Uuid
  pub program_id : Uuid

abbrev is_paid : EnrollmentStatus → Bool
is_paid paid = true
is_paid _ = false

abbrev bump_pre_check : Metrics → Metrics
bump_pre_check m = record m { section_full_pre_check = suc m.section_full_pre_check }

abbrev bump_under_lock : Metrics → Metrics
bump_under_lock m = record m { section_full_under_lock = suc m.section_full_under_lock }

abbrev bump_lock_timeout : Metrics → Metrics
bump_lock_timeout m = record m { lock_timeout = suc m.lock_timeout }

-- The enrollment that step 4 links the inscription to.
pub record Linked : Type 0 where
  pub enrollment_id : Uuid
  pub program_id : Uuid

abbrev linked : Enrollment → Linked
linked e = record { enrollment_id = e.id; program_id = e.program_id }

-- Too few seats left: count the rejection under its label and refuse.
reject_full : {A : Type 0} → (Metrics → Metrics) → M Error A
reject_full bump w = (err section_full, record w { metrics = bump w.metrics })

locked_section : Result PgError SectionRow → M Error SectionRow
locked_section (ok row) w = (ok row, w)
locked_section (err lock_not_available) w = (
  err (translate_pg_error lock_not_available),
  record w { metrics = bump_lock_timeout w.metrics },
)
locked_section (err e) w = (err (translate_pg_error e), w)

-- Step 3: a self-enrollment needs an open window.
window_gate : Bool → SectionRow → M Error (Unit {0})
window_gate true row = pure tt
window_gate false row = check row.window_open window_closed

-- Step 6, by the status of the live row: the id to revive, if any.
existing_row : Bool → Status → Uuid → M Error (Option Uuid)
existing_row is_admin in_progress id = raise already_exists
existing_row true withdrawn id = pure (some id)
existing_row false withdrawn id = raise withdrawn_not_revivable
existing_row is_admin _ id = raise invalid_transition

classify : Bool → Result PgError SectionEnrollment → M Error (Option Uuid)
unfolding existing_row
classify is_admin (ok row) = existing_row is_admin row.status row.id
classify is_admin (err no_rows) = pure none
classify is_admin (err e) = raise (translate_pg_error e)

unfoldable pub outcome_result : Result PgError SectionEnrollment → M Error SectionEnrollment
outcome_result (ok row) = pure row
outcome_result (err no_rows) = raise invalid_transition
outcome_result (err e) = raise (translate_pg_error e)

-- The driver's calls are numbered in the order of the text.
module _ (faults : Faults) where
  pre_check_count : Uuid → Result PgError ℕ → M Error (Unit {0})
  unfolding reject_full
  pre_check_count id (err no_rows) = pure tt
  pre_check_count id (err e) = raise (translate_pg_error e)
  pre_check_count id (ok capacity) = do
    n ← call faults 1 (count_active_seats id)
    count ← or_fail translate_pg_error n
    if ltb count capacity then pure tt else reject_full bump_pre_check

  -- The non-locking check before the transaction.
  pub pre_check : Uuid → M Error (Unit {0})
  unfolding pre_check_count
  pre_check id = do capacity ← call faults 0 (get_section_capacity id); pre_check_count id capacity

  -- Step 4: the paid enrollment, given by its id (admin) or found by the student's keys.
  resolve : Bool → EnrollSectionParams → SectionRow → M Error Linked
  resolve true p row = do
    r ← call faults 5 (resolve_enrollment_by_id p.enrollment_id)
    e ← or_fail translate_pg_error r
    check (is_paid e.status) not_paid
    check (e.year == row.period_year) enrollment_year_mismatch
    pure (linked e)
  resolve false p row = do
    r ←
        call faults 6
          (resolve_enrollment_by_student_and_program p.student_id p.program_id row.period_year)
    e ← or_fail translate_pg_error r
    check (is_paid e.status) not_paid
    pure (linked e)

  -- Step 5.
  program_gate : Linked → SectionRow → M Error (Unit {0})
  program_gate l row = do
    r ← call faults 7 (course_in_program l.program_id row.course_id)
    there ← or_fail translate_pg_error r
    check there course_not_in_program

  -- Step 7: the count that decides.
  seat_gate : Uuid → ℕ → M Error (Unit {0})
  unfolding reject_full
  seat_gate id capacity = do
    n ← call faults 9 (count_active_seats id)
    count ← or_fail translate_pg_error n
    if ltb count capacity then pure tt else reject_full bump_under_lock

  -- Step 8.
  pub write : Uuid → Uuid → Option Uuid → M Error SectionEnrollment
  write enrollment section (some id) = do
    r ← call faults 10 (revive_section_enrollment id)
    or_fail translate_pg_error r
  write enrollment section none = do
    r ← call faults 11 (insert_section_enrollment enrollment section)
    or_fail translate_pg_error r

  -- Step 1.
  set_lock_timeout : M Error (Unit {0})
  set_lock_timeout = do r ← call faults 3 (λ db. (ok tt, db)); or_fail translate_pg_error r

  -- Step 2.
  lock_section : Uuid → M Error SectionRow
  unfolding locked_section
  lock_section id = do r ← call faults 4 (get_section_for_update_with_window id); locked_section r

  -- Step 6.
  lock_key : Bool → Uuid → Uuid → M Error (Option Uuid)
  unfolding classify
  lock_key is_admin enrollment section = do
    r ← call faults 8 (get_section_enrollment_by_key_for_update enrollment section)
    classify is_admin r

  -- Steps 1 to 5: the locked section, and the enrollment that may take a seat in it.
  eligibility : EnrollSectionParams → Bool → M Error (SectionRow × Linked)
  eligibility p is_admin = do
    set_lock_timeout
    row ← lock_section p.section_id
    window_gate is_admin row
    l ← resolve is_admin p row
    program_gate l row
    pure (row, l)

  -- Steps 6 to 8.
  take_seat : Uuid → Bool → SectionRow × Linked → M Error SectionEnrollment
  take_seat section is_admin (row, l) = do
    revival ← lock_key is_admin l.enrollment_id section
    seat_gate section row.capacity
    write l.enrollment_id section revival

  -- The body of the transaction.
  pub enroll_body : EnrollSectionParams → Bool → M Error SectionEnrollment
  unfolding take_seat
  enroll_body p is_admin = do
    granted ← eligibility p is_admin
    take_seat p.section_id is_admin granted

  pub enroll_section_tx : EnrollSectionParams → Bool → M Error SectionEnrollment
  unfolding enroll_body
  enroll_section_tx p is_admin = do
    pre_check p.section_id
    transaction translate_pg_error (faults 2) (faults 12) (enroll_body p is_admin)

  pub withdraw_section : Uuid → M Error SectionEnrollment
  withdraw_section id = do
    r ← call faults 0 (withdraw_section_enrollment id)
    or_fail translate_pg_error r

  unfoldable pub get_section_enrollment : Uuid → M Error SectionEnrollment
  get_section_enrollment id = do
    r ← call faults 0 (get_section_enrollment_by_id id)
    or_fail translate_pg_error r

  -- `setOutcomeWithQuerier`: the write that the grades slice makes in its own transaction.
  unfoldable pub set_section_enrollment_outcome_tx :
      Uuid → Status → Numeric → M Error SectionEnrollment
  unfolding outcome_result
  set_section_enrollment_outcome_tx id outcome grade = do
    r ← call faults 0 (set_section_enrollment_outcome id outcome grade)
    outcome_result r
