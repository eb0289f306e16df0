-- ===== src/Catalog/History/Validity.antt =====
-- backend/internal/catalog: under any sequence of calls, the rows are valid.
use infraestructura_y_servic.Base.{◌≡◌, ◌<◌, ◌⊎◌, String, Bool, Option, List, [], ◌∷◌, All}
use infraestructura_y_servic.Base.Every.{All-update}
use infraestructura_y_servic.Store.{
  Uuid, Date, Program, Course, AcademicPeriod, ProgramQuota, Section, Db,
}
use infraestructura_y_servic.Driver.{Faults, World}
use infraestructura_y_servic.Access.Interceptors.{Context}
use infraestructura_y_servic.Catalog.Programs.{
  is_program, is_live_course, renamed_program, deleted_program, renamed_course, deleted_course,
}
use infraestructura_y_servic.Catalog.Terms.{
  is_period, is_quota, has_year, moved_period, deleted_period, replaced_quota, resized_quota,
  deleted_quota,
}
use infraestructura_y_servic.Catalog.Sections.{is_live_section, resized_section, deleted_section}
use infraestructura_y_servic.Catalog.Change.{
  IsNamed, Change, unchanged, program_added, program_renamed, program_deleted, course_added,
  course_renamed, course_deleted, association_added, association_removed, period_added,
  period_moved, period_deleted, quota_added, quota_replaced, quota_resized, quota_deleted,
  section_added, section_resized, section_deleted, teachers_changed,
}
use infraestructura_y_servic.Catalog.History.{Operation, perform, targets_live, run}
use infraestructura_y_servic.Catalog.History.Calls.{perform-Change}

abbrev IsProgram : Program → Type 0
IsProgram p = IsNamed p.code p.name

abbrev IsCourse : Course → Type 0
IsCourse c = IsNamed c.code c.name × (0 < c.credits)

abbrev IsPeriod : AcademicPeriod → Type 0
IsPeriod p = (0 < p.year) × ((p.term ≡ 1) ⊎ (p.term ≡ 2)) × (p.start_date < p.end_date)

abbrev IsQuota : ProgramQuota → Type 0
IsQuota q = (0 < q.year) × (0 < q.capacity)

abbrev IsSection : Section → Type 0
IsSection s = 0 < s.capacity

-- Codes and names are not blank, credits, years and capacities positive, terms 1 or 2, and periods
-- start before they end.
pub record IsValid (db : Db) : Type 0 where
  pub programs : All IsProgram db.programs
  pub courses : All IsCourse db.courses
  pub periods : All IsPeriod db.academic_periods
  pub quotas : All IsQuota db.program_quotas
  pub sections : All IsSection db.sections

module _ (db : Db) (v : IsValid db) where
  put_programs :
      (rows : List Program) → All IsProgram rows → IsValid (record db { programs = rows })
  put_programs rows a = record {
    programs = a;
    courses = v.courses;
    periods = v.periods;
    quotas = v.quotas;
    sections = v.sections;
  }

  put_courses : (rows : List Course) → All IsCourse rows → IsValid (record db { courses = rows })
  put_courses rows a = record {
    programs = v.programs;
    courses = a;
    periods = v.periods;
    quotas = v.quotas;
    sections = v.sections;
  }

  put_periods :
      (rows : List AcademicPeriod)
      → All IsPeriod rows
      → IsValid (record db { academic_periods = rows })
  put_periods rows a = record {
    programs = v.programs;
    courses = v.courses;
    periods = a;
    quotas = v.quotas;
    sections = v.sections;
  }

  put_quotas :
      (rows : List ProgramQuota) → All IsQuota rows → IsValid (record db { program_quotas = rows })
  put_quotas rows a = record {
    programs = v.programs;
    courses = v.courses;
    periods = v.periods;
    quotas = a;
    sections = v.sections;
  }

  put_sections :
      (rows : List Section) → All IsSection rows → IsValid (record db { sections = rows })
  put_sections rows a = record {
    programs = v.programs;
    courses = v.courses;
    periods = v.periods;
    quotas = v.quotas;
    sections = a;
  }

module _ (live : Bool) where
  Change-IsValid : (db : Db) {db' : Db} → Change db live db' → IsValid db → IsValid db'
  Change-IsValid db unchanged v = v
  Change-IsValid db (program_added p actor n) v = record {
    programs = (n, v.programs);
    courses = v.courses;
    periods = v.periods;
    quotas = v.quotas;
    sections = v.sections;
  }
  Change-IsValid db (program_renamed id p actor n) v = put_programs db v _ (
      All-update IsProgram (is_program id) (renamed_program p actor db) db.programs (λ x e h. n)
        v.programs)
  Change-IsValid db (program_deleted id actor a b) v = put_programs db v _ (
      All-update IsProgram (is_program id) (deleted_program actor db) db.programs (λ x e h. h)
        v.programs)
  Change-IsValid db (course_added p actor n c) v = record {
    programs = v.programs;
    courses = ((n, c), v.courses);
    periods = v.periods;
    quotas = v.quotas;
    sections = v.sections;
  }
  Change-IsValid db (course_renamed id p actor n c) v = put_courses db v _ (
      All-update IsCourse (is_live_course id) (renamed_course p actor db) db.courses
        (λ x e h. (n, c)) v.courses)
  Change-IsValid db (course_deleted id actor a b) v = put_courses db v _ (
      All-update IsCourse (is_live_course id) (deleted_course actor db) db.courses (λ x e h. h)
        v.courses)
  Change-IsValid db (association_added program course on) v = record {
    programs = v.programs;
    courses = v.courses;
    periods = v.periods;
    quotas = v.quotas;
    sections = v.sections;
  }
  Change-IsValid db (association_removed program course) v = record {
    programs = v.programs;
    courses = v.courses;
    periods = v.periods;
    quotas = v.quotas;
    sections = v.sections;
  }
  Change-IsValid db (period_added p t) v = record {
    programs = v.programs;
    courses = v.courses;
    periods = (t, v.periods);
    quotas = v.quotas;
    sections = v.sections;
  }
  Change-IsValid db (period_moved id p t) v = put_periods db v _ (
      All-update IsPeriod (is_period id) (moved_period p db) db.academic_periods (λ x e h. t)
        v.periods)
  Change-IsValid db (period_deleted id a) v = put_periods db v _ (
      All-update IsPeriod (is_period id) (deleted_period db) db.academic_periods (λ x e h. h)
        v.periods)
  Change-IsValid db (quota_added p actor r on) v = record {
    programs = v.programs;
    courses = v.courses;
    periods = v.periods;
    quotas = (r, v.quotas);
    sections = v.sections;
  }
  Change-IsValid db (quota_replaced p actor r on) v = put_quotas db v _ (
      All-update IsQuota (has_year p.program_id p.year) (replaced_quota p actor db)
        db.program_quotas (λ x e h. (h.0, r.1)) v.quotas)
  Change-IsValid db (quota_resized id p actor r) v = put_quotas db v _ (
      All-update IsQuota (is_quota id) (resized_quota p actor db) db.program_quotas (λ x e h. r)
        v.quotas)
  Change-IsValid db (quota_deleted id actor) v = put_quotas db v _ (
      All-update IsQuota (is_quota id) (deleted_quota actor db) db.program_quotas (λ x e h. h)
        v.quotas)
  Change-IsValid db (section_added p actor c on) v = record {
    programs = v.programs;
    courses = v.courses;
    periods = v.periods;
    quotas = v.quotas;
    sections = (c, v.sections);
  }
  Change-IsValid db (section_resized id capacity actor c) v = put_sections db v _ (
      All-update IsSection (is_live_section id) (resized_section capacity actor db) db.sections
        (λ x e h. c) v.sections)
  Change-IsValid db (section_deleted id actor) v = put_sections db v _ (
      All-update IsSection (is_live_section id) (deleted_section actor db) db.sections (λ x e h. h)
        v.sections)
  Change-IsValid db (teachers_changed teachers) v = record {
    programs = v.programs;
    courses = v.courses;
    periods = v.periods;
    quotas = v.quotas;
    sections = v.sections;
  }

module _ (parse : String → Option Uuid) (parse_date : String → Option Date) where
  -- Whatever calls of the service run, with any failures and inputs, every row keeps a code and a
  -- name, positive credits, years and capacities, a term 1 or 2, and a start before its end.
  pub run-IsValid :
      (ops : List (Faults × (Context × Operation))) (w : World)
      → IsValid w.db
      → IsValid (run parse parse_date ops w).db
  unfolding run
  run-IsValid [] w v = v
  run-IsValid ((faults, (ctx, op)) ∷ ops) w v =
      run-IsValid ops (perform parse parse_date faults ctx op w) (
        Change-IsValid (targets_live parse parse_date op w.db) w.db
          (perform-Change parse parse_date faults ctx w op) v)
