-- ===== src/Catalog/Errors.antt =====
-- backend/internal/catalog/errors.go: the domain errors.
use infraestructura_y_servic.Driver.{
  PgError, no_rows, unique_violation, fk_violation, lock_not_available, other,
}

pub data Error : Type 0 where
  not_found invalid_input already_exists has_dependents unauthenticated : Error
  wrapped untranslated : PgError → Error

unfoldable pub translate_pg_error : PgError → Error
translate_pg_error no_rows = not_found
translate_pg_error unique_violation = already_exists
translate_pg_error fk_violation = invalid_input
translate_pg_error lock_not_available = wrapped lock_not_available
translate_pg_error (other n) = wrapped (other n)
