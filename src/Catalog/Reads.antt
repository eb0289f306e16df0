-- ===== src/Catalog/Reads.antt =====
-- backend/internal/catalog: the methods that get one row, and the lists without pages.
pub mod Order
pub mod Courses
use infraestructura_y_servic.Base.{
  ℕ, Bool, true, false, ◌&&◌, ◌||◌, List, [], ◌∷◌, ◌==◌, ltb, select, if◌then◌else◌,
}
use infraestructura_y_servic.Base.Joins.{each}
use infraestructura_y_servic.Store.{
  Uuid, Time, is_null, Section, Program, Course, AcademicPeriod, ProgramCourse, ProgramQuota,
  SectionTeacher, Db,
}
use infraestructura_y_servic.Driver.{Faults, ok, M, Query, reads}
use infraestructura_y_servic.Catalog.Errors.{Error}
use infraestructura_y_servic.Catalog.Programs.{is_live_course, get_program, get_course}
use infraestructura_y_servic.Catalog.Terms.{get_academic_period, get_program_quota}
use infraestructura_y_servic.Catalog.Sections.{get_section}
use infraestructura_y_servic.Catalog.Repository.{run_query}

module _ {A : Type 0} (precedes : A → A → Bool) where
  -- ORDER BY, rows that tie in the order in which they stand.
  unfoldable pub insert_ordered : A → List A → List A
  insert_ordered r [] = r ∷ []
  insert_ordered r (x ∷ xs) =
      let rest = insert_ordered r xs in if precedes x r then x ∷ rest else r ∷ x ∷ xs

  unfoldable pub order_by : List A → List A
  order_by [] = []
  order_by (x ∷ xs) = insert_ordered x (order_by xs)

-- A course with when it was associated with the program.
pub record ProgramCourseRow : Type 0 where
  pub program_id : Uuid
  pub course_id : Uuid
  pub association_created_at : Time
  pub c : Course

abbrev pub with_course : ProgramCourse → Course → ProgramCourseRow
with_course pc c = record {
  program_id = pc.program_id;
  course_id = pc.course_id;
  association_created_at = pc.created_at;
  c = c;
}

abbrev pub is_earlier : ProgramCourseRow → ProgramCourseRow → Bool
is_earlier a b = ltb a.association_created_at b.association_created_at

abbrev pub joined_courses : Uuid → Db → List ProgramCourseRow
joined_courses program db =
    each (select (λ pc. pc.program_id == program) db.program_courses)
      λ pc. each (select (is_live_course pc.course_id) db.courses) λ c. with_course pc c ∷ []

abbrev pub list_program_courses_with_course : Uuid → Query (List ProgramCourseRow)
list_program_courses_with_course program =
    reads λ db. ok (order_by is_earlier (joined_courses program db))

abbrev pub list_academic_periods_query : Query (List AcademicPeriod)
list_academic_periods_query = reads λ db. ok (
    order_by (λ a b. ltb a.year b.year || (a.year == b.year && ltb a.term b.term))
      (select (λ p. is_null p.deleted_at) db.academic_periods))

abbrev pub list_program_quotas_query : Uuid → Query (List ProgramQuota)
list_program_quotas_query program = reads λ db. ok (
    order_by (λ a b. ltb a.year b.year)
      (select (λ q. q.program_id == program && is_null q.deleted_at) db.program_quotas))

abbrev pub list_section_teachers_query : Uuid → Query (List SectionTeacher)
list_section_teachers_query section = reads λ db. ok (
    order_by (λ a b. ltb a.created_at b.created_at)
      (select (λ t. t.section_id == section) db.section_teachers))

module _ (faults : Faults) where
  pub program_by_id : Uuid → M Error Program
  program_by_id id = run_query faults 0 (get_program id)

  pub course_by_id : Uuid → M Error Course
  course_by_id id = run_query faults 0 (get_course id)

  pub academic_period_by_id : Uuid → M Error AcademicPeriod
  academic_period_by_id id = run_query faults 0 (get_academic_period id)

  pub program_quota_by_id : Uuid → M Error ProgramQuota
  program_quota_by_id id = run_query faults 0 (get_program_quota id)

  pub section_by_id : Uuid → M Error Section
  section_by_id id = run_query faults 0 (get_section id)

  unfoldable pub list_program_courses : Uuid → M Error (List ProgramCourseRow)
  list_program_courses program = run_query faults 0 (list_program_courses_with_course program)

  pub list_academic_periods : M Error (List AcademicPeriod)
  list_academic_periods = run_query faults 0 list_academic_periods_query

  pub list_program_quotas : Uuid → M Error (List ProgramQuota)
  list_program_quotas program = run_query faults 0 (list_program_quotas_query program)

  pub list_section_teachers : Uuid → M Error (List SectionTeacher)
  list_section_teachers section = run_query faults 0 (list_section_teachers_query section)
