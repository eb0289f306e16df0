-- ===== src/Catalog/Change.antt =====
-- backend/internal/catalog: what one call of the service does to the tables.
use infraestructura_y_servic.Base.{
  ℕ, suc, ◌≡◌, ◌<◌, ◌⊎◌, Bool, true, false, Option, List, ◌∷◌, ◌==◌, any_of, count_if, select, not,
  update_where,
}
use infraestructura_y_servic.Platform.Texts.{is_blank}
use infraestructura_y_servic.Platform.Pgconv.{Text}
use infraestructura_y_servic.Store.{Uuid, SectionTeacher, Db}
use infraestructura_y_servic.Catalog.Programs.{
  CreateProgramParams, CreateCourseParams, is_program, is_live_course, fresh_program,
  renamed_program, is_quota_of, deleted_program, fresh_course, renamed_course, is_section_of_course,
  deleted_course, is_association,
}
use infraestructura_y_servic.Catalog.Terms.{
  CreateAcademicPeriodParams, CreateProgramQuotaParams, UpdateProgramQuotaParams, is_period,
  fresh_period, moved_period, is_section_of_period, deleted_period, is_quota, has_year, fresh_quota,
  replaced_quota, resized_quota, deleted_quota,
}
use infraestructura_y_servic.Catalog.Sections.{
  CreateSectionParams, is_live_section, fresh_section, resized_section, deleted_section,
}

abbrev pub IsNamed : Text → Text → Type 0
IsNamed code name = (is_blank code ≡ false) × (is_blank name ≡ false)

-- A positive year, term 1 or 2, and a start before the end.
abbrev pub IsTerm : CreateAcademicPeriodParams → Type 0
IsTerm p = (0 < p.year) × ((p.term ≡ 1) ⊎ (p.term ≡ 2)) × (p.start_date < p.end_date)

-- What one call does to the tables; `live` says whether it refers new rows to live ones.
pub data Change (db : Db) (live : Bool) : Db → Type 0 where
  unchanged : Change db live db
  program_added :
      (p : CreateProgramParams) (actor : Option Uuid)
      → IsNamed p.code p.name
      → Change db live (record db {
        programs = fresh_program p actor db ∷ db.programs;
        next_id = suc db.next_id;
      })
  program_renamed :
      (id : Uuid) (p : CreateProgramParams) (actor : Option Uuid)
      → IsNamed p.code p.name
      → Change db live (record db {
        programs = update_where (is_program id) (renamed_program p actor db) db.programs;
      })
  program_deleted :
      (id : Uuid) (actor : Option Uuid)
      → count_if (λ r. r.program_id == id) db.program_courses ≡ 0
      → count_if (is_quota_of id) db.program_quotas ≡ 0
      → Change db live (record db {
        programs = update_where (is_program id) (deleted_program actor db) db.programs;
      })
  course_added :
      (p : CreateCourseParams) (actor : Option Uuid)
      → IsNamed p.code p.name
      → 0 < p.credits
      → Change db live
          (record db { courses = fresh_course p actor db ∷ db.courses; next_id = suc db.next_id })
  course_renamed :
      (id : Uuid) (p : CreateCourseParams) (actor : Option Uuid)
      → IsNamed p.code p.name
      → 0 < p.credits
      → Change db live (record db {
        courses = update_where (is_live_course id) (renamed_course p actor db) db.courses;
      })
  course_deleted :
      (id : Uuid) (actor : Option Uuid)
      → count_if (λ r. r.course_id == id) db.program_courses ≡ 0
      → count_if (is_section_of_course id) db.sections ≡ 0
      → Change db live (record db {
        courses = update_where (is_live_course id) (deleted_course actor db) db.courses;
      })
  association_added :
      (program course : Uuid)
      → (live ≡ true
          → (any_of (is_program program) db.programs ≡ true)
            × (any_of (is_live_course course) db.courses ≡ true))
      → Change db live (record db {
        program_courses =
            (record { program_id = program; course_id = course; created_at = db.now })
            ∷ db.program_courses;
      })
  association_removed :
      (program course : Uuid)
      → Change db live (record db {
        program_courses = select (λ r. not (is_association program course r)) db.program_courses;
      })
  period_added :
      (p : CreateAcademicPeriodParams)
      → IsTerm p
      → Change db live (record db {
        academic_periods = fresh_period p db ∷ db.academic_periods;
        next_id = suc db.next_id;
      })
  period_moved :
      (id : Uuid) (p : CreateAcademicPeriodParams)
      → IsTerm p
      → Change db live (record db {
        academic_periods = update_where (is_period id) (moved_period p db) db.academic_periods;
      })
  period_deleted :
      (id : Uuid)
      → count_if (is_section_of_period id) db.sections ≡ 0
      → Change db live (record db {
        academic_periods = update_where (is_period id) (deleted_period db) db.academic_periods;
      })
  quota_added :
      (p : CreateProgramQuotaParams) (actor : Option Uuid)
      → (0 < p.year) × (0 < p.capacity)
      → (live ≡ true → any_of (is_program p.program_id) db.programs ≡ true)
      → Change db live (record db {
        program_quotas = fresh_quota p actor db ∷ db.program_quotas;
        next_id = suc db.next_id;
      })
  quota_replaced :
      (p : CreateProgramQuotaParams) (actor : Option Uuid)
      → (0 < p.year) × (0 < p.capacity)
      → (live ≡ true → any_of (is_program p.program_id) db.programs ≡ true)
      → Change db live (record db {
        program_quotas =
            update_where
              (has_year p.program_id p.year)
              (replaced_quota p actor db)
              db.program_quotas;
      })
  quota_resized :
      (id : Uuid) (p : UpdateProgramQuotaParams) (actor : Option Uuid)
      → (0 < p.year) × (0 < p.capacity)
      → Change db live (record db {
        program_quotas = update_where (is_quota id) (resized_quota p actor db) db.program_quotas;
      })
  quota_deleted :
      (id : Uuid) (actor : Option Uuid)
      → Change db live (record db {
        program_quotas = update_where (is_quota id) (deleted_quota actor db) db.program_quotas;
      })
  section_added :
      (p : CreateSectionParams) (actor : Option Uuid)
      → 0 < p.seat_capacity
      → (live ≡ true
          → (any_of (is_live_course p.course_id) db.courses ≡ true)
            × (any_of (is_period p.academic_period_id) db.academic_periods ≡ true))
      → Change db live (record db {
        sections = fresh_section p actor db ∷ db.sections;
        next_id = suc db.next_id;
      })
  section_resized :
      (id : Uuid) (capacity : ℕ) (actor : Option Uuid)
      → 0 < capacity
      → Change db live (record db {
        sections =
            update_where (is_live_section id) (resized_section capacity actor db) db.sections;
      })
  section_deleted :
      (id : Uuid) (actor : Option Uuid)
      → Change db live (record db {
        sections = update_where (is_live_section id) (deleted_section actor db) db.sections;
      })
  teachers_changed :
      (teachers : List SectionTeacher) → Change db live (record db { section_teachers = teachers })
