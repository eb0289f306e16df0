-- ===== src/Enrollment/Errors.antt =====
-- backend/internal/enrollment/errors.go.
use infraestructura_y_servic.Driver.{PgError, no_rows, unique_violation, fk_violation}

pub data Error : Type 0 where
  not_found invalid_input already_exists quota_full quota_not_found invalid_transition : Error
  wrapped : PgError → Error

unfoldable pub translate_pg_error : PgError → Error
translate_pg_error no_rows = not_found
translate_pg_error unique_violation = already_exists
translate_pg_error fk_violation = invalid_input
translate_pg_error e = wrapped e
