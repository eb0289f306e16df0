-- ===== src/SectionEnrollment/Service.antt =====
-- backend/internal/sectionenrollment/service.go: the single-row methods. `uuid.Parse` is a
-- parameter, and the session's user an argument.
pub mod Ownership
mod Tests
use infraestructura_y_servic.Base.{
  ℕ, String, Bool, true, false, ◌&&◌, Option, none, some, List, [], ◌∷◌, ◌==◌, ltb, if◌then◌else◌,
  select, any_of, take,
}
use infraestructura_y_servic.Store.{Uuid, is_null, Enrollment, SectionEnrollment, Db}
use infraestructura_y_servic.Driver.{
  Faults, Result, ok, err, World, M, Query, ◌>>=◌, pure, raise, call, or_fail, reads,
}
use infraestructura_y_servic.SectionEnrollment.Errors.{
  Error, not_found, invalid_input, unauthenticated, translate_pg_error,
}
use infraestructura_y_servic.SectionEnrollment.Repository.{
  EnrollSectionParams, enroll_section_tx, withdraw_section, get_section_enrollment,
}

-- JOIN enrollments e ON e.id = se.enrollment_id … WHERE e.student_id = $1 AND se.deleted_at IS NULL.
abbrev pub is_own : Uuid → Db → SectionEnrollment → Bool
is_own student db r =
    is_null r.deleted_at
    && any_of (λ e. e.id == r.enrollment_id && e.student_id == student) db.enrollments

-- ORDER BY id DESC.
unfoldable pub insert_descending :
    SectionEnrollment → List SectionEnrollment → List SectionEnrollment
insert_descending r [] = r ∷ []
insert_descending r (x ∷ xs) = if ltb x.id r.id then r ∷ x ∷ xs else x ∷ insert_descending r xs

unfoldable pub sort_descending : List SectionEnrollment → List SectionEnrollment
sort_descending [] = []
sort_descending (x ∷ xs) = insert_descending x (sort_descending xs)

unfoldable pub list_own_section_enrollments : Uuid → ℕ → Query (List SectionEnrollment)
list_own_section_enrollments student limit =
    reads
      λ db. ok (take limit (sort_descending (select (is_own student db) db.section_enrollments)))

module _ (parse : String → Option Uuid) (faults : Faults) where
  unfoldable pub parse_uuid : String → M Error Uuid
  parse_uuid s w = elim (parse s) [ none ↦ (err invalid_input, w) | some id ↦ (ok id, w) ]

  unfoldable pub caller_id : Option Uuid → M Error Uuid
  caller_id none = raise unauthenticated
  caller_id (some user) = pure user

  pub enroll_own_section : Option Uuid → String → String → M Error SectionEnrollment
  unfolding caller_id parse_uuid
  enroll_own_section caller section program = do
    user ← caller_id caller
    section_id ← parse_uuid section
    program_id ← parse_uuid program
    enroll_section_tx faults
        (record {
          section_id = section_id;
          enrollment_id = 0;
          student_id = user;
          program_id = program_id;
        })
        false

  pub enroll_section : String → String → M Error SectionEnrollment
  unfolding parse_uuid
  enroll_section enrollment section = do
    enrollment_id ← parse_uuid enrollment
    section_id ← parse_uuid section
    enroll_section_tx faults
        (record {
          section_id = section_id;
          enrollment_id = enrollment_id;
          student_id = 0;
          program_id = 0;
        })
        true

  pub withdraw_by_id : String → M Error SectionEnrollment
  unfolding parse_uuid
  withdraw_by_id id_str = do id ← parse_uuid id_str; withdraw_section faults id

  pub get_by_id : String → M Error SectionEnrollment
  unfolding parse_uuid
  get_by_id id_str = do id ← parse_uuid id_str; get_section_enrollment faults id

  -- The loop over the caller's own rows.
  unfoldable pub found_among :
      SectionEnrollment → List SectionEnrollment → M Error SectionEnrollment
  found_among row own w = ((if any_of (λ r. r.id == row.id) own then ok row else err not_found), w)

  -- `sectionEnrollmentPageSizeMax + 1` rows are read.
  unfoldable pub own_list : Uuid → M Error (List SectionEnrollment)
  own_list user = do
    r ← call faults 1 (list_own_section_enrollments user 201)
    or_fail translate_pg_error r

  unfoldable pub get_own_section_enrollment : Option Uuid → String → M Error SectionEnrollment
  unfolding caller_id parse_uuid found_among own_list
  get_own_section_enrollment caller id_str = do
    user ← caller_id caller
    id ← parse_uuid id_str
    row ← get_section_enrollment faults id
    own ← own_list user
    found_among row own
