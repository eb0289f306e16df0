-- ===== src/Reports/Summaries.antt =====
-- backend/internal/reports: the reports for admins. Builders and methods of the occupancy
-- of a period, the summary of a program, and the record of a student. How a ratio is printed as a
-- percentage is a parameter, and so is the encoding of each report.
pub mod Occupancy
use infraestructura_y_servic.Base.{
  ℕ, ◌-◌, ◌<◌, min, Bool, true, false, not, ◌&&◌, ◌||◌, Option, none, some, List, [], ◌∷◌, ◌++◌,
  ◌==◌, ltb, any_of, count_if, select, take, map, length, if◌then◌else◌,
}
use infraestructura_y_servic.Base.Joins.{each}
use infraestructura_y_servic.Base.Int.{ℤ, pos, negsuc}
use infraestructura_y_servic.Platform.Texts.{same_text}
use infraestructura_y_servic.Platform.Pgconv.{Text, Numeric, numeric_to_string, decimal}
use infraestructura_y_servic.Store.{
  Uuid, Time, is_null, Section, Course, AcademicPeriod, Enrollment, SectionEnrollment, Status,
  ProgramQuota, Program, Db,
}
use infraestructura_y_servic.Driver.{Faults, Result, ok, err}
use infraestructura_y_servic.Access.Interceptors.{Context}
use infraestructura_y_servic.SectionEnrollment.Queries.{is_active_in}
use infraestructura_y_servic.Enrollment.Queries.{active_enrollments}
use infraestructura_y_servic.Catalog.Programs.{is_program}
use infraestructura_y_servic.Catalog.Terms.{is_period}
use infraestructura_y_servic.Catalog.Reads.{order_by}
use infraestructura_y_servic.Reports.Errors.{Error, not_found, invalid_input, permission_denied}
use infraestructura_y_servic.Reports.Queries.{
  Archive, UserProfile, GradePart, or_null, grade_parts, position_precedes,
}
use infraestructura_y_servic.Reports.SummaryQueries.{
  OccupancyRow, occupancy_for_period, ProgramSummaryRow, program_summary, FichaRow,
  ficha_for_student,
}
use infraestructura_y_servic.Reports.Builders.{text_or_empty, grade_outcome}
use infraestructura_y_servic.Reports.Service.{
  Key, section_occupancy, program_enrollment, student_record, State, CacheFaults, caller_is_admin,
  fetched, cache_get, cache_set,
}

abbrev pub limited : {A : Type 0} → List A → ℕ → List A
limited rows limit = if ltb limit (length rows) then take limit rows else rows

pub record Report (A : Type 0) : Type 0 where
  pub subject_id : Uuid
  pub name : Text
  pub generated_at : Time
  pub truncated : Bool
  pub rows : List A

-- What a report says of the subject itself is the first row's.
abbrev pub first_text : {A : Type 0} → (A → Text) → List A → Text
first_text f [] = []
first_text f (r ∷ rows) = f r

unfoldable pub build : {A B : Type 0} → (A → Text) → (A → B) → Uuid → Time → List A → ℕ → Report B
build name row id now rows limit = record {
  subject_id = id;
  name = first_text name (limited rows limit);
  generated_at = now;
  truncated = ltb limit (length rows);
  rows = map row (limited rows limit);
}

pub record SectionOccupancyRow : Type 0 where
  pub section_id : Uuid
  pub capacity : ℕ
  pub active_seat_count : ℕ
  pub course_name : Text
  pub fill_percentage : Text

pub record ProgramEnrollmentRow : Type 0 where
  pub quota_id : Uuid
  pub quota_capacity : ℕ
  pub enrolled_count : ℕ
  pub available_seats : ℕ
  pub fill_percentage : Text

pub record AcademicRecordRow : Type 0 where
  pub academic_period_id : Uuid
  pub academic_period_name : Text
  pub section_id : Uuid
  pub course_name : Text
  pub enrollment_status : Status
  pub final_grade : Text
  pub outcome : Status

pub record ProgramReport : Type 0 where
  pub year : ℕ
  pub report : Report ProgramEnrollmentRow

-- "0.00".
abbrev pub zero_percent : Text
zero_percent = 48 ∷ 46 ∷ 48 ∷ 48 ∷ []

module _ (percentage : ℕ → ℕ → Text) where
  abbrev pub fill : ℕ → ℕ → Text
  fill taken capacity = if ltb 0 capacity then percentage taken capacity else zero_percent

  -- The count, at most math.MaxInt32.
  unfoldable pub occupancy_line : OccupancyRow → SectionOccupancyRow
  occupancy_line r =
      let active = if ltb 2147483647 r.active_seat_count then 2147483647 else r.active_seat_count in
      record {
        section_id = r.section_id;
        capacity = r.capacity;
        active_seat_count = active;
        course_name = text_or_empty r.course_name;
        fill_percentage = fill active r.capacity;
      }

  -- `capacity - enrolled`, and 0 where that is negative.
  unfoldable pub enrollment_line : ProgramSummaryRow → ProgramEnrollmentRow
  enrollment_line r = record {
    quota_id = r.quota_id;
    quota_capacity = r.quota_capacity;
    enrolled_count = r.enrolled_count;
    available_seats = r.quota_capacity - r.enrolled_count;
    fill_percentage = fill r.enrolled_count r.quota_capacity;
  }

unfoldable pub record_line : FichaRow → AcademicRecordRow
record_line r =
    let final = numeric_to_string r.final_grade in
    record {
      academic_period_id = r.academic_period_id;
      academic_period_name = r.academic_period_name;
      section_id = r.section_id;
      course_name = r.course_name;
      enrollment_status = r.enrollment_status;
      final_grade = if r.final_grade.valid then final else [];
      outcome = if r.final_grade.valid then grade_outcome final else r.enrollment_status;
    }

-- The flow that the three methods share: the cache, the existence of the subject, its rows.
module _ {A : Type 0} (marshal : A → Option Text) (unmarshal : Text → Option A) where
  unfoldable pub rebuilt : Faults → CacheFaults → Key → Bool → A → State → Result Error A × State
  rebuilt faults cf key exists report s = elim (fetched faults 0 exists) [
    | err e ↦ (err e, s)
    | ok found ↦
        if found
        then elim (fetched faults 1 report) [
          | err e ↦ (err e, s)
          | ok r ↦ (ok r, record s { entries = cache_set marshal cf key r s.entries })
        ]
        else (err not_found, s)
  ]

  unfoldable pub cached_report :
      Faults → CacheFaults → Key → (Archive → Bool) → (Archive → A) → State → Result Error A × State
  cached_report faults cf key exists report s = elim (cache_get unmarshal cf key s.entries) [
    | some r ↦ (ok r, s)
    | none ↦ rebuilt faults cf key (exists s.archive) (report s.archive) s
  ]

unfoldable pub get_section_occupancy_report :
    (marshal : Report SectionOccupancyRow → Option Text)
    (unmarshal : Text → Option (Report SectionOccupancyRow)) (percentage : ℕ → ℕ → Text)
    → Faults
    → CacheFaults
    → Context
    → Uuid
    → State
    → Result Error (Report SectionOccupancyRow) × State
get_section_occupancy_report marshal unmarshal percentage faults cf ctx period s =
    if caller_is_admin ctx
    then cached_report marshal unmarshal faults cf (section_occupancy period)
        (λ a. any_of (is_period period) a.db.academic_periods)
        (λ a.
          build (λ r. r.academic_period_name) (occupancy_line percentage) period a.db.now
            (occupancy_for_period period a.db) 1000)
        s
    else (err permission_denied, s)

-- The years from 2000 to 2100.
abbrev pub is_summary_year : ℤ → Bool
is_summary_year (negsuc n) = false
is_summary_year (pos year) = not (ltb year 2000) && not (ltb 2100 year)

abbrev year_of : ℤ → ℕ
year_of (negsuc n) = 0
year_of (pos year) = year

unfoldable pub get_program_summary_report :
    (marshal : ProgramReport → Option Text) (unmarshal : Text → Option ProgramReport)
    (percentage : ℕ → ℕ → Text)
    → Faults
    → CacheFaults
    → Context
    → Uuid
    → ℤ
    → State
    → Result Error ProgramReport × State
get_program_summary_report marshal unmarshal percentage faults cf ctx program year s =
    if not (caller_is_admin ctx)
    then (err permission_denied, s)
    else if not (is_summary_year year)
    then (err invalid_input, s)
    else cached_report marshal unmarshal faults cf (program_enrollment program (year_of year))
        (λ a. any_of (is_program program) a.db.programs)
        (λ a. record {
          year = year_of year;
          report =
              build (λ r. r.program_name) (enrollment_line percentage) program a.db.now
                (program_summary program (year_of year) a.db) 200;
        })
        s

unfoldable pub get_student_record_report :
    (marshal : Report AcademicRecordRow → Option Text)
    (unmarshal : Text → Option (Report AcademicRecordRow)) (collates : Text → Text → Bool)
    → Faults
    → CacheFaults
    → Context
    → Uuid
    → State
    → Result Error (Report AcademicRecordRow) × State
get_student_record_report marshal unmarshal collates faults cf ctx student s =
    if caller_is_admin ctx
    then cached_report marshal unmarshal faults cf (student_record student)
        (λ a. any_of (λ sp. sp.user_id == student && is_null sp.deleted_at) a.student_profiles)
        (λ a.
          build (λ r. r.student_name) record_line student a.db.now
            (ficha_for_student collates student a) 1000)
        s
    else (err permission_denied, s)
