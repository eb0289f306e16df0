-- ===== src/Catalog/Repository.antt =====
-- backend/internal/catalog/repository.go: the methods of `postgresRepository` that write.
pub mod Effects
use infraestructura_y_servic.Base.{
  ℕ, zero, suc, Bool, true, false, Option, none, some, ◌==◌, if◌then◌else◌,
}
use infraestructura_y_servic.Store.{
  Uuid, Program, Course, AcademicPeriod, ProgramCourse, ProgramQuota, Section, SectionTeacher,
}
use infraestructura_y_servic.Driver.{
  PgError, Faults, Result, ok, err, World, M, Query, ◌>>=◌, ◌>>◌, pure, check, call, or_fail,
  finish, pg_error_of,
}
use infraestructura_y_servic.Catalog.Errors.{
  Error, not_found, has_dependents, untranslated, translate_pg_error,
}
use infraestructura_y_servic.Catalog.Programs.{
  CreateProgramParams, insert_program, update_program as update_program_row, get_program_for_update,
  count_program_courses, count_live_program_quotas, soft_delete_program, CreateCourseParams,
  insert_course, update_course as update_course_row, get_course_for_update,
  count_course_program_associations, count_live_sections_by_course, soft_delete_course,
  insert_program_course, delete_program_course,
}
use infraestructura_y_servic.Catalog.Terms.{
  CreateAcademicPeriodParams, insert_academic_period,
  update_academic_period as update_academic_period_row, get_academic_period_for_update,
  count_live_sections_by_academic_period, soft_delete_academic_period, CreateProgramQuotaParams,
  upsert_program_quota, UpdateProgramQuotaParams, update_program_quota as update_program_quota_row,
  soft_delete_program_quota as soft_delete_program_quota_row,
}
use infraestructura_y_servic.Catalog.Sections.{
  CreateSectionParams, insert_section, update_section as update_section_row, get_section_for_update,
  count_section_teachers, soft_delete_section, insert_section_teacher, delete_section_teacher,
}

module _ (faults : Faults) where
  -- A statement, and its error translated.
  unfoldable pub run_query : {A : Type 0} → ℕ → Query A → M Error A
  run_query n q = do r ← call faults n q; or_fail translate_pg_error r

  -- The number of dependents that a delete counts.
  unfoldable pub no_dependents : ℕ → Query ℕ → M Error (Unit {0})
  no_dependents n q = do count ← run_query n q; check (count == 0) has_dependents

  -- A statement that must touch a row.
  unfoldable pub some_rows : ℕ → Query ℕ → M Error (Unit {0})
  some_rows n q = do rows ← run_query n q; if rows == 0 then (λ w. (err not_found, w)) else pure tt

  -- A transaction, whose commit's error is returned as it is.
  unfoldable pub transact : {A : Type 0} → M Error A → M Error A
  transact body w = elim (faults 0) [
    | some f ↦ (err (translate_pg_error (pg_error_of f)), w)
    | none ↦ finish untranslated (faults 1) w.db (body w)
  ]

  unfoldable pub create_program : CreateProgramParams → Option Uuid → M Error Program
  create_program p actor = run_query 0 (insert_program p actor)

  unfoldable pub update_program : Uuid → CreateProgramParams → Option Uuid → M Error Program
  update_program id p actor = run_query 0 (update_program_row id p actor)

  unfoldable pub delete_program_body : Uuid → Option Uuid → M Error (Unit {0})
  delete_program_body id actor = do
    p ← run_query 2 (get_program_for_update id)
    no_dependents 3 (count_program_courses id)
    no_dependents 4 (count_live_program_quotas id)
    some_rows 5 (soft_delete_program id actor)

  unfoldable pub delete_program_tx : Uuid → Option Uuid → M Error (Unit {0})
  delete_program_tx id actor = transact (delete_program_body id actor)

  unfoldable pub create_course : CreateCourseParams → Option Uuid → M Error Course
  create_course p actor = run_query 0 (insert_course p actor)

  unfoldable pub update_course : Uuid → CreateCourseParams → Option Uuid → M Error Course
  update_course id p actor = run_query 0 (update_course_row id p actor)

  unfoldable pub delete_course_body : Uuid → Option Uuid → M Error (Unit {0})
  delete_course_body id actor = do
    c ← run_query 2 (get_course_for_update id)
    no_dependents 3 (count_course_program_associations id)
    no_dependents 4 (count_live_sections_by_course id)
    some_rows 5 (soft_delete_course id actor)

  unfoldable pub delete_course_tx : Uuid → Option Uuid → M Error (Unit {0})
  delete_course_tx id actor = transact (delete_course_body id actor)

  unfoldable pub add_course_to_program : Uuid → Uuid → M Error ProgramCourse
  add_course_to_program program course = run_query 0 (insert_program_course program course)

  unfoldable pub remove_course_from_program : Uuid → Uuid → M Error (Unit {0})
  remove_course_from_program program course = some_rows 0 (delete_program_course program course)

  unfoldable pub create_academic_period : CreateAcademicPeriodParams → M Error AcademicPeriod
  create_academic_period p = run_query 0 (insert_academic_period p)

  unfoldable pub update_academic_period : Uuid → CreateAcademicPeriodParams → M Error AcademicPeriod
  update_academic_period id p = run_query 0 (update_academic_period_row id p)

  unfoldable pub delete_academic_period_body : Uuid → M Error (Unit {0})
  delete_academic_period_body id = do
    p ← run_query 2 (get_academic_period_for_update id)
    no_dependents 3 (count_live_sections_by_academic_period id)
    some_rows 4 (soft_delete_academic_period id)

  unfoldable pub delete_academic_period_tx : Uuid → M Error (Unit {0})
  delete_academic_period_tx id = transact (delete_academic_period_body id)

  unfoldable pub create_program_quota :
      CreateProgramQuotaParams → Option Uuid → M Error ProgramQuota
  create_program_quota p actor = run_query 0 (upsert_program_quota p actor)

  unfoldable pub update_program_quota :
      Uuid → UpdateProgramQuotaParams → Option Uuid → M Error ProgramQuota
  update_program_quota id p actor = run_query 0 (update_program_quota_row id p actor)

  unfoldable pub soft_delete_program_quota : Uuid → Option Uuid → M Error (Unit {0})
  soft_delete_program_quota id actor = some_rows 0 (soft_delete_program_quota_row id actor)

  unfoldable pub create_section : CreateSectionParams → Option Uuid → M Error Section
  create_section p actor = run_query 0 (insert_section p actor)

  unfoldable pub update_section : Uuid → ℕ → Option Uuid → M Error Section
  update_section id capacity actor = run_query 0 (update_section_row id capacity actor)

  unfoldable pub delete_section_body : Uuid → Option Uuid → M Error (Unit {0})
  delete_section_body id actor = do
    s ← run_query 2 (get_section_for_update id)
    no_dependents 3 (count_section_teachers id)
    some_rows 4 (soft_delete_section id actor)

  unfoldable pub delete_section_tx : Uuid → Option Uuid → M Error (Unit {0})
  delete_section_tx id actor = transact (delete_section_body id actor)

  unfoldable pub assign_teacher_to_section : Uuid → Uuid → M Error SectionTeacher
  assign_teacher_to_section section teacher = run_query 0 (insert_section_teacher section teacher)

  unfoldable pub remove_teacher_from_section : Uuid → Uuid → M Error (Unit {0})
  remove_teacher_from_section section teacher = some_rows 0 (delete_section_teacher section teacher)
