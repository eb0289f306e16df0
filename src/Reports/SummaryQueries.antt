-- ===== src/Reports/SummaryQueries.antt =====
-- backend/internal/reports/query.sql: the statements of the occupancy of a period, the summary of a
-- program, and the record of a student.
use infraestructura_y_servic.Base.{
  ℕ, Bool, ◌&&◌, ◌||◌, Option, none, some, List, [], ◌∷◌, ◌++◌, ◌==◌, ltb, count_if, select, take,
}
use infraestructura_y_servic.Base.Joins.{each}
use infraestructura_y_servic.Platform.Texts.{same_text}
use infraestructura_y_servic.Platform.Pgconv.{Text, Numeric, decimal}
use infraestructura_y_servic.Store.{
  Uuid, is_null, Section, Course, AcademicPeriod, SectionEnrollment, Status, Db,
}
use infraestructura_y_servic.SectionEnrollment.Queries.{is_active_in}
use infraestructura_y_servic.Enrollment.Queries.{active_enrollments}
use infraestructura_y_servic.Catalog.Programs.{is_program}
use infraestructura_y_servic.Catalog.Reads.{order_by}
use infraestructura_y_servic.Reports.Queries.{
  Archive, UserProfile, GradePart, or_null, grade_parts, position_precedes,
}

-- `year || '-' || term`.
abbrev pub period_name : AcademicPeriod → Text
period_name ap = decimal ap.year ++ (45 ∷ decimal ap.term)

pub record OccupancyRow : Type 0 where
  pub section_id : Uuid
  pub capacity : ℕ
  pub course_name : Option Text
  pub active_seat_count : ℕ
  pub academic_period_name : Text

abbrev pub occupancy_row : Db → Section → AcademicPeriod → Option Text → OccupancyRow
occupancy_row db s ap name = record {
  section_id = s.id;
  capacity = s.capacity;
  course_name = name;
  active_seat_count = count_if (is_active_in s.id) db.section_enrollments;
  academic_period_name = period_name ap;
}

abbrev pub occupancy_rows : Uuid → Db → List OccupancyRow
occupancy_rows period db =
    each (select (λ s. s.academic_period_id == period && is_null s.deleted_at) db.sections) λ s.
      each (select (λ ap. ap.id == s.academic_period_id) db.academic_periods) λ ap.
        each
          (or_null none (each (select (λ c. c.id == s.course_id) db.courses) λ c. some c.name ∷ []))
          λ name. occupancy_row db s ap name ∷ []

unfoldable pub occupancy_for_period : Uuid → Db → List OccupancyRow
occupancy_for_period period db =
    take 1001 (order_by (λ a b. ltb a.section_id b.section_id) (occupancy_rows period db))

-- Every quota of the program and year, with the number of its enrollments.
pub record ProgramSummaryRow : Type 0 where
  pub quota_id : Uuid
  pub quota_capacity : ℕ
  pub enrolled_count : ℕ
  pub program_name : Text

unfoldable pub program_summary : Uuid → ℕ → Db → List ProgramSummaryRow
program_summary program year db = take 201 (
    each
      (select (λ q. q.program_id == program && (q.year == year && is_null q.deleted_at))
        db.program_quotas)
      λ q. each (select (is_program q.program_id) db.programs) λ p.
        (record {
          quota_id = q.id;
          quota_capacity = q.capacity;
          enrolled_count = active_enrollments program year db.enrollments;
          program_name = p.name;
        })
        ∷ [])

-- A row of the academic record: an inscription and one of its grades, if it has any; year, term
-- and `code` are what the rows are ordered by.
pub record FichaRow : Type 0 where
  pub year : ℕ
  pub term : ℕ
  pub code : Text
  pub position : Option ℕ
  pub academic_period_id : Uuid
  pub academic_period_name : Text
  pub section_id : Uuid
  pub course_name : Text
  pub enrollment_status : Status
  pub final_grade : Numeric
  pub evaluation_id : Option Uuid
  pub grade_value : Numeric
  pub student_name : Text

abbrev pub ficha_row :
    SectionEnrollment → Section → Course → AcademicPeriod → UserProfile → GradePart → FichaRow
ficha_row se s c ap up part = record {
  year = ap.year;
  term = ap.term;
  code = c.code;
  position = part.position;
  academic_period_id = ap.id;
  academic_period_name = period_name ap;
  section_id = s.id;
  course_name = c.name;
  enrollment_status = se.status;
  final_grade = se.final_grade;
  evaluation_id = part.evaluation_id;
  grade_value = part.value;
  student_name = up.given_names ++ (32 ∷ up.last_name_paternal);
}

abbrev pub ficha_rows : Uuid → Archive → List FichaRow
ficha_rows student a =
    each (select (λ e. e.student_id == student && is_null e.deleted_at) a.db.enrollments) λ e.
      each
        (select (λ se. se.enrollment_id == e.id && is_null se.deleted_at) a.db.section_enrollments)
        λ se. each (select (λ s. s.id == se.section_id && is_null s.deleted_at) a.db.sections) λ s.
          each (select (λ c. c.id == s.course_id) a.db.courses) λ c.
            each (select (λ ap. ap.id == s.academic_period_id) a.db.academic_periods) λ ap.
              each
                (select (λ up. up.user_id == e.student_id && is_null up.deleted_at) a.user_profiles)
                λ up. each (grade_parts se.id a.db) λ part. ficha_row se s c ap up part ∷ []

-- ORDER BY year, term, code, position.
abbrev pub ficha_precedes : (Text → Text → Bool) → FichaRow → FichaRow → Bool
ficha_precedes collates r s =
    ltb r.year s.year
    || (r.year == s.year
        && (ltb r.term s.term
            || (r.term == s.term
                && (collates r.code s.code
                    || (same_text r.code s.code && position_precedes r.position s.position)))))

unfoldable pub ficha_for_student : (Text → Text → Bool) → Uuid → Archive → List FichaRow
ficha_for_student collates student a =
    take 1001 (order_by (ficha_precedes collates) (ficha_rows student a))
