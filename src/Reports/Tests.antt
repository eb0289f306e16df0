-- ===== src/Reports/Tests.antt =====
-- The acta of section 100 of the small campus, whose one inscription is that of student 2.
use infraestructura_y_servic.Base.{
  ℕ, ◌≡◌, refl, ◌≤◌, Bool, true, false, Option, none, some, List, [], ◌∷◌, arith, subst, ◌==◌,
  count_if, find_first, select, any_of,
}
use infraestructura_y_servic.Base.Joins.{each}
use infraestructura_y_servic.Platform.Pgconv.{Text, null_numeric}
use infraestructura_y_servic.Store.{Uuid, Time, in_progress}
use infraestructura_y_servic.Driver.{no_faults, ok}
use infraestructura_y_servic.Access.Interceptors.{Context}
use infraestructura_y_servic.SectionEnrollment.Campus.{campus}
use infraestructura_y_servic.Reports.Queries.{
  Archive, ActaRow, acta_rows, acta_for_section_admin, acta_for_section_by_teacher,
}
use infraestructura_y_servic.Reports.Builders.{
  StudentGradeRow, SectionGradeReport, build_section_grade_response, capped, acta_cap,
}
use infraestructura_y_servic.Reports.Grouping.{
  entry_of, row_of_entry, build_section_grade_response-entry_of,
}
use infraestructura_y_servic.Reports.Service.{
  section_grades, section_occupancy, State, CacheFaults, membership, fetched, acta, computed,
  caller_is_admin, cache_get, cache_set, entry_at, get_section_grade_report,
}
use infraestructura_y_servic.SectionEnrollment.Queries.{find_section}
use infraestructura_y_servic.SectionEnrollment.Invariant.{IsSound}
use infraestructura_y_servic.SectionEnrollment.Enrollable.Agreement.{IsKeyed}
use infraestructura_y_servic.Reports.SummaryQueries.{occupancy_for_period}
use infraestructura_y_servic.Reports.Summaries.{
  Report, SectionOccupancyRow, build, occupancy_line, rebuilt, cached_report,
  get_section_occupancy_report,
}
use infraestructura_y_servic.Reports.Summaries.Occupancy.{
  IsFit, IsFitCache, get_section_occupancy_report-IsFit,
}
use infraestructura_y_servic.Reports.Scope.{
  MaySee, IsBuilt, IsTrusted, get_section_grade_report-IsBuilt,
}

abbrev archive : Archive
archive = record {
  db = record campus {
    section_teachers = (record { section_id = 100; teacher_id = 5; created_at = 1 }) ∷ [];
  };
  student_profiles = (record { user_id = 2; deleted_at = none }) ∷ [];
  user_profiles =
      (record {
        user_id = 2;
        given_names = 65 ∷ [];
        last_name_paternal = 66 ∷ [];
        last_name_maternal = none;
        deleted_at = none;
      })
      ∷ [];
}

abbrev teacher : Context
teacher = record { user_id = some 5; permissions = none }

abbrev state : State
state = record { archive = archive; entries = [] }

abbrev healthy : CacheFaults
healthy = record { get_fails = false; set_fails = false }

abbrev code_of : Uuid → Time → Bool → List StudentGradeRow → Option Text
code_of section now false [] = some (section ∷ now ∷ [])
code_of section now false (_ ∷ _) = none
code_of section now true rows = none

-- An encoding of reports without rows.
abbrev encode : SectionGradeReport → Option Text
encode r = code_of r.section_id r.generated_at r.truncated r.rows

abbrev decode : Text → Option SectionGradeReport
decode (section ∷ now ∷ []) =
    some (record { section_id = section; generated_at = now; truncated = false; rows = [] })
decode _ = none

code_of-lossless :
    (section : Uuid) (now : Time) (truncated : Bool) (rows : List StudentGradeRow) (bytes : Text)
    → code_of section now truncated rows ≡ some bytes
    → decode bytes
      ≡ some
          (record { section_id = section; generated_at = now; truncated = truncated; rows = rows })
code_of-lossless section now false [] bytes h =
    let same : section ∷ now ∷ [] ≡ bytes = ground (arith, h) in
    subst
      (λ b.
        decode b
        ≡ some (record { section_id = section; generated_at = now; truncated = false; rows = [] }))
      same refl
code_of-lossless section now false (r ∷ rows) bytes h = absurd (ground (arith, h))
code_of-lossless section now true rows bytes h = absurd (ground (arith, h))

abbrev only_row : ActaRow
only_row = record {
  se_id = 201;
  student_id = 2;
  given_names = 65 ∷ [];
  last_name_paternal = 66 ∷ [];
  last_name_maternal = none;
  evaluation_id = none;
  position = none;
  grade_value = null_numeric;
  final_grade = null_numeric;
  enrollment_status = in_progress;
}

acta_of_archive : acta_rows 100 archive ≡ only_row ∷ []
unfolding acta_rows each select
acta_of_archive = refl

by_name : Text → Text → Bool
by_name a b = false

abbrev report : SectionGradeReport
report = build_section_grade_response 100 15 (acta_for_section_admin by_name 100 archive) acta_cap

answers : get_section_grade_report encode decode by_name no_faults healthy teacher 100 state ≡ (
  ok report,
  record state { entries = cache_set encode healthy (section_grades 100) report [] },
)
unfolding get_section_grade_report membership fetched caller_is_admin any_of cache_get entry_at
    computed acta acta_for_section_by_teacher acta_for_section_admin
answers = refl

get_section_grade_report-IsBuilt_example :
    MaySee teacher 100 archive
    × IsBuilt encode decode by_name (λ a. a ≡ archive) 100 report
    × IsTrusted encode decode by_name
        (λ a. a ≡ archive)
        (cache_set encode healthy (section_grades 100) report [])
unfolding entry_at
get_section_grade_report-IsBuilt_example =
    get_section_grade_report-IsBuilt encode decode by_name
      (λ r bytes h. code_of-lossless r.section_id r.generated_at r.truncated r.rows bytes h)
      (λ a. a ≡ archive) no_faults healthy teacher 100 state refl
      (λ s bytes r e u. absurd (ground (arith, e))) answers

build_section_grade_response-entry_of_example :
    (count_if
        (λ (x : StudentGradeRow). x.student_id == 2)
        (build_section_grade_response 100 15 (acta_rows 100 archive) acta_cap).rows
      ≤ 1)
    × (find_first
          (λ (x : StudentGradeRow). x.student_id == 2)
          (build_section_grade_response 100 15 (acta_rows 100 archive) acta_cap).rows
        ≡ row_of_entry (entry_of 2 (capped (acta_rows 100 archive) acta_cap)))
build_section_grade_response-entry_of_example =
    build_section_grade_response-entry_of 100 15 (acta_rows 100 archive) acta_cap 2

-- An encoding of occupancy reports without rows.
abbrev occupancy_code : Uuid → Text → Time → Bool → List SectionOccupancyRow → Option Text
occupancy_code period name now false [] = some (period ∷ now ∷ name)
occupancy_code period name now false (_ ∷ _) = none
occupancy_code period name now true rows = none

abbrev encode_occupancy : Report SectionOccupancyRow → Option Text
encode_occupancy r = occupancy_code r.subject_id r.name r.generated_at r.truncated r.rows

abbrev decode_occupancy : Text → Option (Report SectionOccupancyRow)
decode_occupancy (period ∷ now ∷ name) =
    some (record {
      subject_id = period;
      name = name;
      generated_at = now;
      truncated = false;
      rows = [];
    })
decode_occupancy _ = none

occupancy_code-lossless :
    (period : Uuid) (name : Text) (now : Time) (truncated : Bool) (rows : List SectionOccupancyRow)
    (bytes : Text)
    → occupancy_code period name now truncated rows ≡ some bytes
    → decode_occupancy bytes
      ≡ some (record {
        subject_id = period;
        name = name;
        generated_at = now;
        truncated = truncated;
        rows = rows;
      })
occupancy_code-lossless period name now false [] bytes h =
    let same : period ∷ now ∷ name ≡ bytes = ground (arith, h) in
    subst
      (λ b.
        decode_occupancy b
        ≡ some (record {
          subject_id = period;
          name = name;
          generated_at = now;
          truncated = false;
          rows = [];
        }))
      same refl
occupancy_code-lossless period name now false (r ∷ rows) bytes h = absurd (ground (arith, h))
occupancy_code-lossless period name now true rows bytes h = absurd (ground (arith, h))

archive-IsSound : IsSound archive.db
unfolding find_section find_first count_if
archive-IsSound = record {
  distinct = (tt, tt);
  bounded = (omega arith, tt);
  keys = λ e s. ground arith;
  seats = λ id s q. ground arith;
}

archive-IsKeyed : IsKeyed archive.db
unfolding count_if
archive-IsKeyed = record {
  sections = λ id. ground arith;
  periods = λ id. ground arith;
  enrollments = λ student program year. ground arith;
}

abbrev admin : Context
admin = record { user_id = some 9; permissions = some (λ p. true) }

no_percentage : ℕ → ℕ → Text
no_percentage a b = []

abbrev occupancy : Report SectionOccupancyRow
occupancy =
    build (λ r. r.academic_period_name) (occupancy_line no_percentage) 70 15
      (occupancy_for_period 70 archive.db) 1000

abbrev after_occupancy : State
after_occupancy = record state {
  entries = cache_set encode_occupancy healthy (section_occupancy 70) occupancy [];
}

occupies :
    get_section_occupancy_report encode_occupancy decode_occupancy no_percentage no_faults healthy
      admin 70 state
    ≡ (ok occupancy, after_occupancy)
unfolding get_section_occupancy_report cached_report rebuilt fetched caller_is_admin any_of
    cache_get entry_at
occupies = refl

get_section_occupancy_report-IsFit_example :
    (caller_is_admin admin ≡ true)
    × IsFit occupancy
    × IsFitCache encode_occupancy decode_occupancy no_percentage after_occupancy.entries
unfolding entry_at
get_section_occupancy_report-IsFit_example =
    get_section_occupancy_report-IsFit encode_occupancy decode_occupancy no_percentage
      (λ r bytes h.
        occupancy_code-lossless r.subject_id r.name r.generated_at r.truncated r.rows bytes h)
      no_faults healthy admin 70 state archive-IsSound archive-IsKeyed
      (λ period bytes r e u. absurd (ground (arith, e))) occupies
