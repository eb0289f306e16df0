-- ===== src/SectionEnrollment/Enrollable.antt =====
-- backend/internal/sectionenrollment: the statement, the repository method and the service method of
-- `ListEnrollableSections`, which lists the sections that a student may enroll in.
pub mod Agreement
pub mod Completeness
pub mod Pages
mod Tests
use infraestructura_y_servic.Base.{
  ℕ, suc, ◌-◌, Bool, true, false, not, ◌&&◌, String, Option, none, some, List, [], ◌∷◌, ◌==◌, ltb,
  select, any_of, take, ◌+◌, if◌then◌else◌,
}
use infraestructura_y_servic.Base.Joins.{each}
use infraestructura_y_servic.Base.Int.{ℤ, pos, pos_part}
use infraestructura_y_servic.Platform.Pgconv.{Text}
use infraestructura_y_servic.Platform.Pagination.{Clamp, apply, Page, paginate, token_of}
use infraestructura_y_servic.Store.{
  Uuid, is_null, Section, AcademicPeriod, Course, ProgramCourse, Enrollment, EnrollmentStatus,
  pending, paid, cancelled, SectionEnrollment, Db,
}
use infraestructura_y_servic.Driver.{
  Faults, ok, err, World, M, Query, ◌>>=◌, pure, call, or_fail, reads,
}
use infraestructura_y_servic.SectionEnrollment.Errors.{Error, invalid_input, translate_pg_error}
use infraestructura_y_servic.SectionEnrollment.Service.{caller_id}
use infraestructura_y_servic.SectionEnrollment.Queries.{is_withdrawn, is_open, active_seats}

pub record EnrollableRow : Type 0 where
  pub section_id : Uuid
  pub program_id : Uuid
  pub course_name : Text
  pub course_code : Text
  pub period_year : ℕ
  pub period_term : ℕ
  pub seats_available : ℕ

abbrev pub is_paid : EnrollmentStatus → Bool
is_paid paid = true
is_paid _ = false

-- e.student_id = $1 AND e.status = 'paid' AND e.deleted_at IS NULL.
abbrev pub is_paid_of : Uuid → Enrollment → Bool
is_paid_of student e = e.student_id == student && (is_paid e.status && is_null e.deleted_at)

-- c.id = pc.course_id AND c.deleted_at IS NULL.
abbrev pub is_course : Uuid → Course → Bool
is_course id c = c.id == id && is_null c.deleted_at

-- page_token IS NULL OR s.id > page_token.
abbrev pub is_behind : Option Uuid → Uuid → Bool
is_behind none id = true
is_behind (some token) id = ltb token id

-- s.course_id = c.id AND s.deleted_at IS NULL, behind the page token.
abbrev pub is_section_of : Option Uuid → Uuid → Section → Bool
is_section_of token course s =
    s.course_id == course && (is_null s.deleted_at && is_behind token s.id)

-- ap.id = s.academic_period_id AND ap.deleted_at IS NULL AND e.year = ap.year, in its window.
abbrev pub is_period_of : Db → Enrollment → Section → AcademicPeriod → Bool
is_period_of db e s ap =
    ap.id == s.academic_period_id
    && (is_null ap.deleted_at && (e.year == ap.year && is_open db.now ap))

-- The active inscription of an enrollment in a section.
abbrev pub is_own_seat : Uuid → Uuid → SectionEnrollment → Bool
is_own_seat enrollment section r =
    r.section_id == section
    && (r.enrollment_id == enrollment && (not (is_withdrawn r.status) && is_null r.deleted_at))

-- A seat is left, and the student holds none.
abbrev pub is_free : Db → Enrollment → Section → Bool
is_free db e s =
    ltb (active_seats s.id db.section_enrollments) s.capacity
    && not (any_of (is_own_seat e.id s.id) db.section_enrollments)

abbrev pub row_of :
    Db → ProgramCourse → Course → Section → AcademicPeriod → Enrollment → EnrollableRow
row_of db pc c s ap e = record {
  section_id = s.id;
  program_id = e.program_id;
  course_name = c.name;
  course_code = c.code;
  period_year = ap.year;
  period_term = ap.term;
  seats_available = s.capacity - active_seats s.id db.section_enrollments;
}

-- The joins of the statement and its WHERE clause.
unfoldable pub enrollable : Uuid → Option Uuid → Db → List EnrollableRow
enrollable student token db = each (select (is_paid_of student) db.enrollments) λ e.
    each (select (λ pc. pc.program_id == e.program_id) db.program_courses) λ pc.
      each (select (is_course pc.course_id) db.courses) λ c.
        each (select (is_section_of token c.id) db.sections) λ s.
          each (select (is_period_of db e s) db.academic_periods)
            λ ap. (if is_free db e s then row_of db pc c s ap e ∷ [] else [])

-- ORDER BY s.id ASC; the order of rows of one section is the table's, where SQL leaves it open.
unfoldable pub insert_ascending : EnrollableRow → List EnrollableRow → List EnrollableRow
insert_ascending r [] = r ∷ []
insert_ascending r (x ∷ xs) =
    if ltb x.section_id r.section_id then x ∷ insert_ascending r xs else r ∷ x ∷ xs

unfoldable pub sort_ascending : List EnrollableRow → List EnrollableRow
sort_ascending [] = []
sort_ascending (x ∷ xs) = insert_ascending x (sort_ascending xs)

abbrev pub list_enrollable_sections : Uuid → Option Uuid → ℕ → Query (List EnrollableRow)
list_enrollable_sections student token limit =
    reads λ db. ok (take limit (sort_ascending (enrollable student token db)))

-- `sectionEnrollmentClamp`.
abbrev pub section_enrollment_clamp : Clamp
section_enrollment_clamp = record { min = pos 20; max = pos 200 }

abbrev pub clamped : ℤ → ℕ
clamped size = pos_part (apply section_enrollment_clamp size)

-- The sections and the next page token.
pub record EnrollableResult : Type 0 where
  pub sections : List EnrollableRow
  pub next_page_token : Option Uuid

abbrev pub result_of : ℕ → List EnrollableRow → EnrollableResult
result_of size rows =
    let page = paginate rows size in
    record { sections = page.items; next_page_token = token_of page (λ r. r.section_id) }

module _ (faults : Faults) where
  unfoldable pub list_enrollable : Uuid → Option Uuid → ℕ → M Error (List EnrollableRow)
  list_enrollable student token limit = do
    r ← call faults 0 (list_enrollable_sections student token limit)
    or_fail translate_pg_error r

  module _ (parse : String → Option Uuid) where
    -- The empty text is `none`.
    unfoldable pub parse_token : Option String → M Error (Option Uuid)
    parse_token none w = (ok none, w)
    parse_token (some s) w = elim (parse s) [
      | none ↦ (err invalid_input, w)
      | some id ↦ (ok (some id), w)
    ]

    unfoldable pub list_enrollable_page : Option Uuid → ℤ → Option String → M Error EnrollableResult
    unfolding caller_id
    list_enrollable_page caller size page_token = do
      student ← caller_id parse faults caller
      token ← parse_token page_token
      rows ← list_enrollable student token (clamped size + 1)
      pure (result_of (clamped size) rows)
