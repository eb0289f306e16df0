-- ===== src/Catalog/History.antt =====
-- backend/internal/catalog: sequences of service calls that write.
pub mod Changes
pub mod Offers
pub mod Seats
pub mod Calls
pub mod Validity
pub mod Links
use infraestructura_y_servic.Base.{
  ℕ, suc, ◌≡◌, ◌<◌, ◌⊎◌, String, Bool, true, false, Option, none, some, List, [], ◌∷◌, ◌==◌, ◌&&◌,
  any_of, count_if, select, not, update_where, if◌then◌else◌,
}
use infraestructura_y_servic.Base.Int.{ℤ}
use infraestructura_y_servic.Platform.Texts.{is_blank}
use infraestructura_y_servic.Platform.Pgconv.{Text}
use infraestructura_y_servic.Store.{Uuid, Date, SectionTeacher, Db}
use infraestructura_y_servic.Driver.{Faults, World}
use infraestructura_y_servic.Access.Interceptors.{Context}
use infraestructura_y_servic.Catalog.Programs.{
  CreateProgramParams, CreateCourseParams, is_program, is_live_course, fresh_program,
  renamed_program, is_quota_of, deleted_program, fresh_course, renamed_course, is_section_of_course,
  deleted_course, is_association,
}
use infraestructura_y_servic.Catalog.Terms.{
  CreateAcademicPeriodParams, CreateProgramQuotaParams, UpdateProgramQuotaParams, is_period,
  fresh_period, moved_period, is_section_of_period, deleted_period, is_quota, has_year, fresh_quota,
  replaced_quota, resized_quota, deleted_quota,
}
use infraestructura_y_servic.Catalog.Sections.{
  CreateSectionParams, is_live_section, fresh_section, resized_section, deleted_section,
}
use infraestructura_y_servic.Catalog.Service.{
  CourseInput, CreateAcademicPeriodServiceParams, CreateProgramQuotaServiceParams,
  CreateSectionServiceParams,
}
use infraestructura_y_servic.Catalog.Service

-- A call of the service.
pub data Operation : Type 0 where
  creating_program : CreateProgramParams → Operation
  updating_program : Uuid → CreateProgramParams → Operation
  deleting_program : Uuid → Operation
  creating_course : CourseInput → Operation
  updating_course : Uuid → CourseInput → Operation
  deleting_course : Uuid → Operation
  adding_course : (program course : Uuid) → Operation
  removing_course : (program course : Uuid) → Operation
  creating_period : CreateAcademicPeriodServiceParams → Operation
  updating_period : Uuid → CreateAcademicPeriodServiceParams → Operation
  deleting_period : Uuid → Operation
  creating_quota : CreateProgramQuotaServiceParams → Operation
  updating_quota : Uuid → ℤ → ℤ → Operation
  deleting_quota : Uuid → Operation
  creating_section : CreateSectionServiceParams → Operation
  updating_section : Uuid → ℤ → Operation
  deleting_section : Uuid → Operation
  assigning_teacher : (section teacher : Uuid) → Operation
  removing_teacher : (section teacher : Uuid) → Operation

module _ (parse : String → Option Uuid) (parse_date : String → Option Date) where
  unfoldable pub perform : Faults → Context → Operation → World → World
  perform faults ctx (creating_program p) w =
      (Service.create_program parse parse_date faults ctx p w).1
  perform faults ctx (updating_program id p) w =
      (Service.update_program parse parse_date faults ctx id p w).1
  perform faults ctx (deleting_program id) w =
      (Service.delete_program parse parse_date faults ctx id w).1
  perform faults ctx (creating_course p) w =
      (Service.create_course parse parse_date faults ctx p w).1
  perform faults ctx (updating_course id p) w =
      (Service.update_course parse parse_date faults ctx id p w).1
  perform faults ctx (deleting_course id) w =
      (Service.delete_course parse parse_date faults ctx id w).1
  perform faults ctx (adding_course program course) w =
      (Service.add_course_to_program parse parse_date faults ctx program course w).1
  perform faults ctx (removing_course program course) w =
      (Service.remove_course_from_program parse parse_date faults ctx program course w).1
  perform faults ctx (creating_period p) w =
      (Service.create_academic_period parse parse_date faults ctx p w).1
  perform faults ctx (updating_period id p) w =
      (Service.update_academic_period parse parse_date faults ctx id p w).1
  perform faults ctx (deleting_period id) w =
      (Service.delete_academic_period parse parse_date faults ctx id w).1
  perform faults ctx (creating_quota p) w =
      (Service.create_program_quota parse parse_date faults ctx p w).1
  perform faults ctx (updating_quota id year capacity) w =
      (Service.update_program_quota parse parse_date faults ctx id year capacity w).1
  perform faults ctx (deleting_quota id) w =
      (Service.delete_program_quota parse parse_date faults ctx id w).1
  perform faults ctx (creating_section p) w =
      (Service.create_section parse parse_date faults ctx p w).1
  perform faults ctx (updating_section id capacity) w =
      (Service.update_section parse parse_date faults ctx id capacity w).1
  perform faults ctx (deleting_section id) w =
      (Service.delete_section parse parse_date faults ctx id w).1
  perform faults ctx (assigning_teacher section teacher) w =
      (Service.assign_teacher_to_section parse parse_date faults ctx section teacher w).1
  perform faults ctx (removing_teacher section teacher) w =
      (Service.remove_teacher_from_section parse parse_date faults ctx section teacher w).1

  -- A text that is an identifier with this property, or none at all.
  abbrev id_meets : (Uuid → Bool) → Option Uuid → Bool
  id_meets test none = true
  id_meets test (some id) = test id

  -- What the call refers a new row to is not soft-deleted.
  abbrev pub targets_live : Operation → Db → Bool
  targets_live (adding_course program course) db =
      any_of (is_program program) db.programs && any_of (is_live_course course) db.courses
  targets_live (creating_quota p) db =
      id_meets (λ id. any_of (is_program id) db.programs) (parse p.program_id)
  targets_live (creating_section p) db =
      id_meets (λ id. any_of (is_live_course id) db.courses) (parse p.course_id)
      && id_meets (λ id. any_of (is_period id) db.academic_periods) (parse p.academic_period_id)
  targets_live _ db = true

  unfoldable pub run : List (Faults × (Context × Operation)) → World → World
  run [] w = w
  run ((faults, (ctx, op)) ∷ ops) w = run ops (perform faults ctx op w)

  -- Each call of the sequence refers new rows to live ones.
  unfoldable pub stays_on_live : List (Faults × (Context × Operation)) → World → Bool
  stays_on_live [] w = true
  stays_on_live ((faults, (ctx, op)) ∷ ops) w =
      let rest = stays_on_live ops (perform faults ctx op w) in targets_live op w.db && rest
