-- ===== src/Enrollment/Repository.antt =====
-- backend/internal/enrollment/repository.go: the writing methods of `postgresRepository`.
pub mod Effects
pub mod Transitions
use infraestructura_y_servic.Base.{
  ℕ, zero, suc, Bool, true, false, not, ◌&&◌, Option, none, some, ltb, ◌==◌, if◌then◌else◌,
}
use infraestructura_y_servic.Store.{Uuid, is_null, Enrollment, Db}
use infraestructura_y_servic.Driver.{
  PgError, no_rows, Faults, Result, ok, err, World, M, ◌>>=◌, ◌>>◌, pure, raise, check, call,
  or_fail, transaction,
}
use infraestructura_y_servic.Enrollment.Errors.{
  Error, not_found, already_exists, quota_full, quota_not_found, invalid_transition,
  translate_pg_error,
}
use infraestructura_y_servic.Enrollment.Queries.{
  CreateEnrollmentParams, lock_program_quota_for_year, get_enrollment_by_key_for_update,
  count_active_enrollments, insert_enrollment, revive_enrollment, mark_paid, mark_own_paid, cancel,
  get, is_cancelled,
}

-- Step 1: no quota row of the year is a refusal of its own.
unfoldable pub quota_of : Result PgError ℕ → M Error ℕ
quota_of (ok capacity) = pure capacity
quota_of (err no_rows) = raise quota_not_found
quota_of (err e) = raise (translate_pg_error e)

-- Step 2: a cancelled or soft-deleted row of the key is revived, another one refused.
unfoldable pub existing_key : Result PgError Enrollment → M Error (Option Uuid)
existing_key (ok e) w = (
  (if not (is_cancelled e.status) && is_null e.deleted_at
      then err already_exists
      else ok (some e.id)),
  w,
)
existing_key (err no_rows) w = (ok none, w)
existing_key (err e) w = (err (translate_pg_error e), w)

module _ (faults : Faults) where
  unfoldable pub lock_quota : CreateEnrollmentParams → M Error ℕ
  unfolding quota_of
  lock_quota p = do r ← call faults 1 (lock_program_quota_for_year p.program_id p.year); quota_of r

  unfoldable pub lock_key : CreateEnrollmentParams → M Error (Option Uuid)
  unfolding existing_key
  lock_key p = do r ← call faults 2 (get_enrollment_by_key_for_update p); existing_key r

  -- Step 3.
  unfoldable pub quota_gate : CreateEnrollmentParams → ℕ → M Error (Unit {0})
  quota_gate p capacity = do
    r ← call faults 3 (count_active_enrollments p.program_id p.year)
    n ← or_fail translate_pg_error r
    check (ltb n capacity) quota_full

  -- Step 4.
  pub write : CreateEnrollmentParams → Option Uuid → Option Uuid → M Error Enrollment
  write p actor (some id) = do
    r ← call faults 4 (revive_enrollment id actor)
    or_fail translate_pg_error r
  write p actor none = do
    r ← call faults 5 (insert_enrollment p actor)
    or_fail translate_pg_error r

  unfoldable pub create_body : CreateEnrollmentParams → Option Uuid → M Error Enrollment
  unfolding lock_quota lock_key quota_gate
  create_body p actor = do
    capacity ← lock_quota p
    revival ← lock_key p
    quota_gate p capacity
    write p actor revival

  unfoldable pub create_enrollment_tx : CreateEnrollmentParams → Option Uuid → M Error Enrollment
  unfolding create_body
  create_enrollment_tx p actor =
      transaction translate_pg_error (faults 0) (faults 6) (create_body p actor)

  -- After an update of no row: absent, or in the wrong state.
  wrong_state : Uuid → M Error Enrollment
  wrong_state id = do
    r ← call faults 1 (get id)
    e ← or_fail translate_pg_error r
    raise invalid_transition

  paid_or : M Error Enrollment → Result PgError Enrollment → M Error Enrollment
  paid_or otherwise (ok e) w = (ok e, w)
  paid_or otherwise (err no_rows) w = otherwise w
  paid_or otherwise (err e) w = (err (translate_pg_error e), w)

  pub mark_enrollment_paid : Uuid → Option Uuid → M Error Enrollment
  unfolding wrong_state paid_or
  mark_enrollment_paid id actor = do
    r ← call faults 0 (mark_paid id actor)
    paid_or (wrong_state id) r

  -- The same for the own-scoped update, where a row of another student is not found either.
  wrong_own_state : Uuid → Uuid → M Error Enrollment
  wrong_own_state id student = do
    r ← call faults 1 (get id)
    e ← or_fail translate_pg_error r
    check (e.student_id == student) not_found
    raise invalid_transition

  pub mark_own_enrollment_paid : Uuid → Uuid → Option Uuid → M Error Enrollment
  unfolding wrong_own_state paid_or
  mark_own_enrollment_paid id student actor = do
    r ← call faults 0 (mark_own_paid id student actor)
    paid_or (wrong_own_state id student) r

  unless_cancelled : Uuid → ℕ → M Error (Unit {0})
  unless_cancelled id (suc n) = pure tt
  unless_cancelled id zero = do
    r ← call faults 1 (get id)
    e ← or_fail translate_pg_error r
    raise invalid_transition

  pub cancel_enrollment : Uuid → Option Uuid → M Error (Unit {0})
  unfolding unless_cancelled
  cancel_enrollment id actor = do
    r ← call faults 0 (cancel id actor)
    n ← or_fail translate_pg_error r
    unless_cancelled id n

  unfoldable pub get_enrollment : Uuid → M Error Enrollment
  get_enrollment id = do r ← call faults 0 (get id); or_fail translate_pg_error r
