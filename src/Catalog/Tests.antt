-- ===== src/Catalog/Tests.antt =====
-- A small catalog: program 60 with course 50, and the sections of the small campus.
use infraestructura_y_servic.Base.{
  ◌≡◌, refl, ◌↔◌, ◌≤◌, ◌⊎◌, ap, true, false, none, some, [], ◌∷◌, inl, inr, arith, count_if, sym,
  subst, find_first, select, any_of, update_where, ◌==◌, ◌&&◌, Option, String, List, if◌then◌else◌,
}
use infraestructura_y_servic.Base.Int.{pos}
use infraestructura_y_servic.Base.Joins.{In, each}
use infraestructura_y_servic.Store.{Uuid, Program, Course, ProgramCourse, paid, Db}
use infraestructura_y_servic.Driver.{Faults, no_faults, ok, World}
use infraestructura_y_servic.Access.Interceptors.{Context}
use infraestructura_y_servic.SectionEnrollment.Campus.{
  matricula, course, campus, start, open_row, open_section,
}
use infraestructura_y_servic.Catalog.History.{
  Operation, deleting_course, updating_course, perform, run, stays_on_live,
}
use infraestructura_y_servic.Catalog.Links.{IsLinked}
use infraestructura_y_servic.Catalog.History.Links.{run-IsLinked}
use infraestructura_y_servic.Catalog.Programs.{renamed_course}
use infraestructura_y_servic.Catalog.Tables.{update_row}
use infraestructura_y_servic.Catalog.Repository
use infraestructura_y_servic.Catalog.Repository.{
  run_query, no_dependents, transact, delete_course_body, delete_course_tx,
}
use infraestructura_y_servic.Catalog.Service
use infraestructura_y_servic.Catalog.Service.{require_texts, require_positive, delete_course}
use infraestructura_y_servic.SectionEnrollment.Queries.{
  is_open, fresh_row, find_key, find_enrollment_of, find_section, in_program,
}
use infraestructura_y_servic.SectionEnrollment.Invariant.{IsSound}
use infraestructura_y_servic.SectionEnrollment.Repository.{enroll_section_tx}
use infraestructura_y_servic.SectionEnrollment.Repository.Progress.{enroll_section_tx-progress}
use infraestructura_y_servic.SectionEnrollment.Enrollable.{EnrollableRow, enrollable}
use infraestructura_y_servic.SectionEnrollment.Enrollable.Agreement.{own_params}
use infraestructura_y_servic.Catalog.Offering.{run-enrolled_listed}
use infraestructura_y_servic.SectionEnrollment.Queries.{active_seats}
use infraestructura_y_servic.Catalog.Sections.{resized_section, is_live_section}
use infraestructura_y_servic.Catalog.Terms.{
  CreateProgramQuotaParams, fresh_quota, upsert_program_quota,
}
use infraestructura_y_servic.Catalog.Repository.{update_section, create_program_quota}
use infraestructura_y_servic.Catalog.Resizing.{update_section-IsSound}
use infraestructura_y_servic.Catalog.Quotas.{capacity_of, create_program_quota-capacity_of}
use infraestructura_y_servic.Catalog.Lists.{
  OwnSectionRow, list_own_sections, read_token, session_user, scoped_sections,
  caller_is_catalog_admin, insert_by_id, sort_by_id,
}
use infraestructura_y_servic.Platform.Search.{search_pattern, optional_pattern}
use infraestructura_y_servic.Platform.Pagination.{apply, paginate, token_of}
use infraestructura_y_servic.Catalog.Lists.Scope.{list_own_sections-scope}
use infraestructura_y_servic.Catalog.Reads.{
  with_course, order_by, insert_ordered, list_program_courses,
}
use infraestructura_y_servic.Catalog.History.Validity.{IsValid, run-IsValid}

abbrev program : Program
program = record {
  id = 60;
  code = 73 ∷ [];
  name = 73 ∷ [];
  created_at = 1;
  updated_at = 1;
  deleted_at = none;
  created_by = none;
  updated_by = none;
}

abbrev catalog : Db
catalog = record campus {
  programs = program ∷ [];
  courses = (record course { code = 65 ∷ []; name = 65 ∷ [] }) ∷ [];
  section_teachers = (record { section_id = 100; teacher_id = 5; created_at = 1 }) ∷ [];
}

abbrev opening : World
opening = record start { db = catalog }

abbrev teacher : Context
teacher = record { user_id = some 5; permissions = none }

abbrev no_id : String → Option Uuid
no_id s = none

abbrev some_id : String → Option Uuid
some_id s = some 50

-- A course that sections use is not deleted; its name changes; and another program is asked for it.
abbrev calls : List (Faults × (Context × Operation))
calls =
    (no_faults, (teacher, deleting_course 50))
    ∷ (
      no_faults,
      (teacher, updating_course 50 (record { code = 66 ∷ []; name = 66 ∷ []; credits = pos 7 })),
    )
    ∷ []

catalog-IsLinked : IsLinked catalog
unfolding any_of
catalog-IsLinked = record {
  sections = ((λ h. (refl, refl)), ((λ h. (refl, refl)), tt));
  associations = ((refl, refl), tt);
  quotas = tt;
  distinct = (((λ e. absurd (ground (arith, e))), tt), (tt, tt));
  bounded = (omega arith, (omega arith, tt));
}

catalog-IsValid : IsValid (record catalog { courses = [] })
catalog-IsValid = record {
  programs = ((refl, refl), tt);
  courses = tt;
  periods = ((omega arith, inl refl, omega arith), ((omega arith, inr refl, omega arith), tt));
  quotas = tt;
  sections = (omega arith, (omega arith, tt));
}

abbrev renamed : World
renamed = record opening {
  db = record catalog {
    courses =
        update_where (λ c. true)
          (renamed_course (record { code = 66 ∷ []; name = 66 ∷ []; credits = 7 }) (some 5) catalog)
          catalog.courses;
  };
}

calls-run : run no_id no_id calls opening ≡ renamed
unfolding run perform Service.delete_course Service.update_course Repository.delete_course_tx
    Repository.update_course delete_course_body transact no_dependents run_query update_row
    require_texts require_positive any_of count_if find_first update_where
calls-run = refl

calls-live : stays_on_live no_id no_id calls opening ≡ true
unfolding stays_on_live
calls-live = refl

run-IsLinked_example : IsLinked (run no_id no_id calls opening).db
run-IsLinked_example = run-IsLinked no_id no_id calls opening catalog-IsLinked calls-live

run-IsValid_example :
    IsValid (run no_id no_id calls (record start { db = record catalog { courses = [] } })).db
run-IsValid_example =
    run-IsValid no_id no_id calls (record start { db = record catalog { courses = [] } })
      catalog-IsValid

renamed-IsSound : IsSound renamed.db
unfolding find_section find_first count_if
renamed-IsSound = record {
  distinct = (tt, tt);
  bounded = (omega arith, tt);
  keys = λ e s. ground arith;
  seats = λ id s q. ground arith;
}

catalog-IsSound : IsSound catalog
unfolding find_section find_first count_if
catalog-IsSound = record {
  distinct = (tt, tt);
  bounded = (omega arith, tt);
  keys = λ e s. ground arith;
  seats = λ id s q. ground arith;
}

enrolls : enroll_section_tx no_faults (own_params 1 100 60) false renamed ≡ (
  ok (fresh_row 11 100 renamed.db),
  (enroll_section_tx no_faults (own_params 1 100 60) false renamed).1,
)
unfolding find_section find_first is_open any_of in_program count_if find_key find_enrollment_of
    update_where
enrolls =
    ap (λ r. (r, (enroll_section_tx no_faults (own_params 1 100 60) false renamed).1))
      (enroll_section_tx-progress (own_params 1 100 60) renamed open_row (matricula 11 1 paid) refl
        refl refl (omega arith) refl refl refl)

run-enrolled_listed_example :
    (x : EnrollableRow) × In x (enrollable 1 none (run no_id no_id calls opening).db)
    × (x.section_id ≡ 100)
    × (x.program_id ≡ 60)
run-enrolled_listed_example =
    run-enrolled_listed no_id no_id calls opening no_faults 1 100 60 catalog-IsLinked calls-live
      (subst (λ (w : World). IsSound w.db) (sym calls-run) renamed-IsSound)
      (subst
        (λ w. enroll_section_tx no_faults (own_params 1 100 60) false w ≡ (
          ok (fresh_row 11 100 renamed.db),
          (enroll_section_tx no_faults (own_params 1 100 60) false renamed).1,
        ))
        (sym calls-run) enrolls)

-- One seat of the section is taken, so a capacity of one still holds it.
abbrev resized : World
resized = record opening {
  db = record catalog {
    sections = update_where (is_live_section 100) (resized_section 1 none catalog) catalog.sections;
  };
}

resizes :
    update_section no_faults 100 1 none opening
    ≡ (ok (resized_section 1 none catalog open_section), resized)
unfolding update_section run_query update_row find_first any_of update_where
resizes = refl

update_section-IsSound_example :
    IsSound resized.db ↔ (active_seats 100 catalog.section_enrollments ≤ 1)
update_section-IsSound_example =
    update_section-IsSound no_faults 100 1 none opening catalog-IsSound resizes

abbrev quota : CreateProgramQuotaParams
quota = record { program_id = 60; year = 2026; capacity = 30 }

abbrev funded : World
funded = record opening {
  db = record catalog { program_quotas = fresh_quota quota none catalog ∷ []; next_id = 301 };
}

funds :
    create_program_quota no_faults quota none opening
    ≡ (ok (fresh_quota quota none catalog), funded)
unfolding create_program_quota run_query upsert_program_quota find_first any_of
funds = refl

create_program_quota-capacity_of_example : capacity_of funded.db 60 2026 ≡ (
    if 60 == quota.program_id && 2026 == quota.year then some 30 else capacity_of catalog 60 2026)
create_program_quota-capacity_of_example =
    create_program_quota-capacity_of no_faults quota none opening funds 60 2026

abbrev own_row : OwnSectionRow
own_row = record {
  id = 100;
  course_id = 50;
  academic_period_id = 70;
  seat_capacity = 2;
  course_code = 65 ∷ [];
  course_name = 65 ∷ [];
  period_year = 2026;
  period_term = 1;
}

lists :
    list_own_sections no_id (λ t. t) (λ p t. true) no_faults teacher (pos 0) none [] opening
    ≡ (ok (record { items = own_row ∷ []; next_page_token = none }), opening)
unfolding list_own_sections session_user read_token scoped_sections caller_is_catalog_admin
    run_query apply paginate token_of each select insert_by_id sort_by_id any_of search_pattern
    optional_pattern
lists = refl

list_own_sections-scope_example :
    (user : Uuid) × (teacher.user_id ≡ some user)
    × (any_of (is_live_section own_row.id) catalog.sections ≡ true)
    × ((caller_is_catalog_admin teacher ≡ true)
        ⊎ (any_of (λ t. t.section_id == own_row.id && t.teacher_id == user) catalog.section_teachers
            ≡ true))
list_own_sections-scope_example =
    list_own_sections-scope no_id (λ t. t) (λ p t. true) no_faults teacher (pos 0) none [] opening
      own_row lists (inl refl)

abbrev catalog_course : Course
catalog_course = record course { code = 65 ∷ []; name = 65 ∷ [] }

abbrev association : ProgramCourse
association = record { program_id = 60; course_id = 50; created_at = 1 }

shows :
    list_program_courses no_faults 60 opening
    ≡ (ok (with_course association catalog_course ∷ []), opening)
unfolding list_program_courses run_query order_by insert_ordered each select
shows = refl
