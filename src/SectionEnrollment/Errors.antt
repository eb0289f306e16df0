-- ===== src/SectionEnrollment/Errors.antt =====
-- backend/internal/sectionenrollment/errors.go: the domain errors, and how driver errors and
-- Connect codes relate to them.
use infraestructura_y_servic.Driver.{
  PgError, no_rows, unique_violation, fk_violation, lock_not_available, other,
}

pub data Error : Type 0 where
  not_found invalid_input already_exists section_full window_closed not_paid : Error
  course_not_in_program enrollment_year_mismatch invalid_transition : Error
  withdrawn_not_revivable lock_timeout admission_saturated unauthenticated : Error
  wrapped : PgError → Error

unfoldable pub translate_pg_error : PgError → Error
translate_pg_error no_rows = not_found
translate_pg_error unique_violation = already_exists
translate_pg_error fk_violation = invalid_input
translate_pg_error lock_not_available = lock_timeout
translate_pg_error (other n) = wrapped (other n)
