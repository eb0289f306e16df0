-- ===== src/Grades/Errors.antt =====
-- backend/internal/grades/errors.go: the domain errors, how driver errors become domain errors, and
-- the Connect codes that clients see.
use infraestructura_y_servic.Base.{ℕ}
use infraestructura_y_servic.Driver.{
  PgError, no_rows, unique_violation, fk_violation, lock_not_available, other,
}
use infraestructura_y_servic.SectionEnrollment.Errors.{Error as OutcomeError}

-- The sentinels, with the current version that `ErrConflict` is wrapped with; and the errors that
-- are none of them: a wrapped driver error, a grade that cannot be paired with a weight, and a
-- refused outcome of the section enrollment.
pub data Error : Type 0 where
  not_found invalid_input already_exists has_dependents scheme_incomplete self_grade : Error
  not_section_teacher invalid_transition withdrawn_source course_mismatch : Error
  conflict : ℕ → Error
  wrapped : PgError → Error
  pairing : Error
  outcome_write : OutcomeError → Error

unfoldable pub translate_pg_error : PgError → Error
translate_pg_error no_rows = not_found
translate_pg_error unique_violation = already_exists
translate_pg_error fk_violation = invalid_input
translate_pg_error lock_not_available = wrapped lock_not_available
translate_pg_error (other n) = wrapped (other n)

pub data Code : Type 0 where
  invalid_argument code_not_found code_already_exists failed_precondition : Code
  permission_denied aborted internal : Code

unfoldable pub map_error : Error → Code
map_error invalid_input = invalid_argument
map_error scheme_incomplete = invalid_argument
map_error course_mismatch = invalid_argument
map_error not_found = code_not_found
map_error already_exists = code_already_exists
map_error has_dependents = failed_precondition
map_error invalid_transition = failed_precondition
map_error withdrawn_source = failed_precondition
map_error self_grade = permission_denied
map_error not_section_teacher = permission_denied
map_error (conflict _) = aborted
map_error (wrapped _) = internal
map_error pairing = internal
map_error (outcome_write _) = internal
