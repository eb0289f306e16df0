-- ===== src/Catalog/Service.antt =====
-- backend/internal/catalog/service.go: the methods that write. `uuid.Parse` and `time.Parse` are
-- parameters, and the context is an argument.
use infraestructura_y_servic.Base.{
  ℕ, zero, suc, String, not, ◌||◌, Option, none, some, ◌==◌, ltb, if◌then◌else◌,
}
use infraestructura_y_servic.Base.Int.{ℤ, pos, negsuc}
use infraestructura_y_servic.Platform.Texts.{is_blank}
use infraestructura_y_servic.Platform.Pgconv.{Text}
use infraestructura_y_servic.Store.{
  Uuid, Date, Program, Course, AcademicPeriod, ProgramCourse, ProgramQuota, Section, SectionTeacher,
}
use infraestructura_y_servic.Driver.{Faults, ok, err, M, ◌>>=◌, ◌>>◌, pure, raise, check}
use infraestructura_y_servic.Access.Interceptors.{Context}
use infraestructura_y_servic.Catalog.Errors.{Error, invalid_input}
use infraestructura_y_servic.Catalog.Programs.{CreateProgramParams}
use infraestructura_y_servic.Catalog.Terms.{CreateAcademicPeriodParams}
use infraestructura_y_servic.Catalog.Repository

abbrev pub actor_from_context : Context → Option Uuid
actor_from_context ctx = ctx.user_id

-- `if n <= 0 { return ErrInvalidInput }`.
unfoldable pub require_positive : ℤ → M Error ℕ
require_positive (negsuc n) = raise invalid_input
require_positive (pos zero) = raise invalid_input
require_positive (pos (suc n)) = pure (suc n)

-- Code and name are required.
unfoldable pub require_texts : Text → Text → M Error (Unit {0})
require_texts code name = do
  check (not (is_blank code)) invalid_input
  check (not (is_blank name)) invalid_input

-- term 1 or 2.
unfoldable pub require_term : ℤ → M Error ℕ
require_term (negsuc n) w = (err invalid_input, w)
require_term (pos n) w = ((if n == 1 || n == 2 then ok n else err invalid_input), w)

pub record CourseInput : Type 0 where
  pub code : Text
  pub name : Text
  pub credits : ℤ

pub record CreateAcademicPeriodServiceParams : Type 0 where
  pub year : ℤ
  pub term : ℤ
  pub start_date : String
  pub end_date : String

pub record CreateProgramQuotaServiceParams : Type 0 where
  pub program_id : String
  pub year : ℤ
  pub capacity : ℤ

pub record CreateSectionServiceParams : Type 0 where
  pub course_id : String
  pub academic_period_id : String
  pub seat_capacity : ℤ

-- `uuid.Parse` or `ParseDate`, whose failure is invalid input.
unfoldable pub parsed : Option ℕ → M Error ℕ
parsed none = raise invalid_input
parsed (some n) = pure n

-- Year, term, and a start before the end; the dates that are read are what the caller reads again.
unfoldable pub validate_academic_period :
    (String → Option Date) → CreateAcademicPeriodServiceParams → M Error CreateAcademicPeriodParams
validate_academic_period parse_date p = do
  year ← require_positive p.year
  term ← require_term p.term
  start ← parsed (parse_date p.start_date)
  end ← parsed (parse_date p.end_date)
  check (ltb start end) invalid_input
  pure (record { year = year; term = term; start_date = start; end_date = end })

module _ (parse : String → Option Uuid) (parse_date : String → Option Date) (faults : Faults)
    (ctx : Context) where
  unfoldable pub create_program : CreateProgramParams → M Error Program
  create_program p = do
    require_texts p.code p.name
    Repository.create_program faults p (actor_from_context ctx)

  unfoldable pub update_program : Uuid → CreateProgramParams → M Error Program
  update_program id p = do
    require_texts p.code p.name
    Repository.update_program faults id p (actor_from_context ctx)

  unfoldable pub delete_program : Uuid → M Error (Unit {0})
  delete_program id = Repository.delete_program_tx faults id (actor_from_context ctx)

  unfoldable pub create_course : CourseInput → M Error Course
  create_course p = do
    require_texts p.code p.name
    credits ← require_positive p.credits
    Repository.create_course faults (record { code = p.code; name = p.name; credits = credits })
        (actor_from_context ctx)

  unfoldable pub update_course : Uuid → CourseInput → M Error Course
  update_course id p = do
    require_texts p.code p.name
    credits ← require_positive p.credits
    Repository.update_course faults id (record { code = p.code; name = p.name; credits = credits })
        (actor_from_context ctx)

  unfoldable pub delete_course : Uuid → M Error (Unit {0})
  delete_course id = Repository.delete_course_tx faults id (actor_from_context ctx)

  unfoldable pub add_course_to_program : Uuid → Uuid → M Error ProgramCourse
  add_course_to_program program course = Repository.add_course_to_program faults program course

  unfoldable pub remove_course_from_program : Uuid → Uuid → M Error (Unit {0})
  remove_course_from_program program course =
      Repository.remove_course_from_program faults program course

  unfoldable pub create_academic_period : CreateAcademicPeriodServiceParams → M Error AcademicPeriod
  create_academic_period p = do
    valid ← validate_academic_period parse_date p
    Repository.create_academic_period faults valid

  unfoldable pub update_academic_period :
      Uuid → CreateAcademicPeriodServiceParams → M Error AcademicPeriod
  update_academic_period id p = do
    valid ← validate_academic_period parse_date p
    Repository.update_academic_period faults id valid

  unfoldable pub delete_academic_period : Uuid → M Error (Unit {0})
  delete_academic_period id = Repository.delete_academic_period_tx faults id

  unfoldable pub create_program_quota : CreateProgramQuotaServiceParams → M Error ProgramQuota
  create_program_quota p = do
    year ← require_positive p.year
    capacity ← require_positive p.capacity
    program ← parsed (parse p.program_id)
    Repository.create_program_quota faults
        (record { program_id = program; year = year; capacity = capacity }) (actor_from_context ctx)

  unfoldable pub update_program_quota : Uuid → ℤ → ℤ → M Error ProgramQuota
  update_program_quota id year_input capacity_input = do
    year ← require_positive year_input
    capacity ← require_positive capacity_input
    Repository.update_program_quota faults id (record { year = year; capacity = capacity })
        (actor_from_context ctx)

  unfoldable pub delete_program_quota : Uuid → M Error (Unit {0})
  delete_program_quota id = Repository.soft_delete_program_quota faults id (actor_from_context ctx)

  unfoldable pub create_section : CreateSectionServiceParams → M Error Section
  create_section p = do
    capacity ← require_positive p.seat_capacity
    course ← parsed (parse p.course_id)
    period ← parsed (parse p.academic_period_id)
    Repository.create_section faults
        (record { course_id = course; academic_period_id = period; seat_capacity = capacity })
        (actor_from_context ctx)

  unfoldable pub update_section : Uuid → ℤ → M Error Section
  update_section id seat_capacity = do
    capacity ← require_positive seat_capacity
    Repository.update_section faults id capacity (actor_from_context ctx)

  unfoldable pub delete_section : Uuid → M Error (Unit {0})
  delete_section id = Repository.delete_section_tx faults id (actor_from_context ctx)

  unfoldable pub assign_teacher_to_section : Uuid → Uuid → M Error SectionTeacher
  assign_teacher_to_section section teacher =
      Repository.assign_teacher_to_section faults section teacher

  unfoldable pub remove_teacher_from_section : Uuid → Uuid → M Error (Unit {0})
  remove_teacher_from_section section teacher =
      Repository.remove_teacher_from_section faults section teacher
