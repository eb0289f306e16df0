-- ===== src/SectionEnrollment/Queries.antt =====
-- backend/internal/sectionenrollment/query.sql: the statements of the slice, on the tables.
use infraestructura_y_servic.Base.{
  ℕ, suc, Bool, true, false, not, ◌&&◌, Option, none, some, List, ◌∷◌, ◌==◌, leb, find_first,
  count_if, any_of, update_where,
}
use infraestructura_y_servic.Platform.Pgconv.{Numeric, null_numeric}
use infraestructura_y_servic.Store.{
  Uuid, Time, is_null, Section, AcademicPeriod, Enrollment, Status, in_progress, passed, failed,
  withdrawn, SectionEnrollment, Db,
}
use infraestructura_y_servic.Driver.{no_rows, unique_violation, ok, err, Query, reads, one_row}

abbrev pub is_withdrawn : Status → Bool
is_withdrawn withdrawn = true
is_withdrawn _ = false

abbrev pub is_in_progress : Status → Bool
is_in_progress in_progress = true
is_in_progress _ = false

-- status IN ('passed', 'failed').
abbrev pub is_outcome : Status → Bool
is_outcome passed = true
is_outcome failed = true
is_outcome _ = false

-- WHERE id = $1 AND deleted_at IS NULL, on sections.
abbrev pub is_section : Uuid → Section → Bool
is_section id s = s.id == id && is_null s.deleted_at

unfoldable pub find_section : Uuid → Db → Option Section
find_section id db = find_first (is_section id) db.sections

abbrev pub get_section_capacity : Uuid → Query ℕ
get_section_capacity id =
    reads λ db. elim (find_section id db) [ none ↦ err no_rows | some s ↦ ok s.capacity ]

-- The row of `GetSectionForUpdateWithWindow`.
pub record SectionRow : Type 0 where
  pub capacity : ℕ
  pub course_id : Uuid
  pub period_year : ℕ
  pub window_open : Bool

-- now() BETWEEN starts AND ends, and false where a bound is NULL.
unfoldable pub is_open : Time → AcademicPeriod → Bool
is_open now p = elim p.enrollment_starts_at [
  | none ↦ false
  | some from ↦ elim p.enrollment_ends_at [
    | none ↦ false
    | some till ↦ leb from now && leb now till
  ]
]

abbrev with_window : Time → Section → Option AcademicPeriod → Option SectionRow
with_window now s none = none
with_window now s (some p) = some (record {
  capacity = s.capacity;
  course_id = s.course_id;
  period_year = p.year;
  window_open = is_open now p;
})

-- The section joined with its period.
abbrev pub section_row : Uuid → Db → Option SectionRow
section_row id db = elim (find_section id db) [
  | none ↦ none
  | some s ↦
      with_window db.now s (find_first (λ p. p.id == s.academic_period_id) db.academic_periods)
]

abbrev pub get_section_for_update_with_window : Uuid → Query SectionRow
get_section_for_update_with_window id = reads λ db. one_row (section_row id db)

-- section_id = $1 AND status <> 'withdrawn' AND deleted_at IS NULL.
abbrev pub is_active_in : Uuid → SectionEnrollment → Bool
is_active_in id r = r.section_id == id && (not (is_withdrawn r.status) && is_null r.deleted_at)

abbrev pub active_seats : Uuid → List SectionEnrollment → ℕ
active_seats id rows = count_if (is_active_in id) rows

abbrev pub count_active_seats : Uuid → Query ℕ
count_active_seats id = reads λ db. ok (active_seats id db.section_enrollments)

unfoldable pub find_enrollment : Uuid → Db → Option Enrollment
find_enrollment id db = find_first (λ e. e.id == id && is_null e.deleted_at) db.enrollments

unfoldable pub find_enrollment_of : Uuid → Uuid → ℕ → Db → Option Enrollment
find_enrollment_of student program year db =
    find_first
      (λ e.
        e.student_id == student
        && (e.program_id == program && (e.year == year && is_null e.deleted_at)))
      db.enrollments

abbrev pub resolve_enrollment_by_id : Uuid → Query Enrollment
resolve_enrollment_by_id id = reads λ db. one_row (find_enrollment id db)

abbrev pub resolve_enrollment_by_student_and_program : Uuid → Uuid → ℕ → Query Enrollment
resolve_enrollment_by_student_and_program student program year =
    reads λ db. one_row (find_enrollment_of student program year db)

unfoldable pub in_program : Uuid → Uuid → Db → Bool
in_program program course db =
    any_of (λ pc. pc.program_id == program && pc.course_id == course) db.program_courses

abbrev pub course_in_program : Uuid → Uuid → Query Bool
course_in_program program course = reads λ db. ok (in_program program course db)

-- The live row of a key; the partial unique index of migration 000011 is on this predicate.
abbrev pub has_key : Uuid → Uuid → SectionEnrollment → Bool
has_key enrollment section r =
    r.enrollment_id == enrollment && (r.section_id == section && is_null r.deleted_at)

unfoldable pub find_key : Uuid → Uuid → List SectionEnrollment → Option SectionEnrollment
find_key enrollment section rows = find_first (has_key enrollment section) rows

abbrev pub get_section_enrollment_by_key_for_update : Uuid → Uuid → Query SectionEnrollment
get_section_enrollment_by_key_for_update enrollment section =
    reads λ db. one_row (find_key enrollment section db.section_enrollments)

abbrev pub fresh_row : Uuid → Uuid → Db → SectionEnrollment
fresh_row enrollment section db = record {
  id = db.next_id;
  enrollment_id = enrollment;
  section_id = section;
  status = in_progress;
  registered_at = db.now;
  created_at = db.now;
  updated_at = db.now;
  deleted_at = none;
  final_grade = null_numeric;
}

-- INSERT … RETURNING *, under the partial unique index.
unfoldable pub insert_section_enrollment : Uuid → Uuid → Query SectionEnrollment
insert_section_enrollment enrollment section db =
    elim (find_key enrollment section db.section_enrollments) [
      | some _ ↦ (err unique_violation, db)
      | none ↦ (
        ok (fresh_row enrollment section db),
        record db {
          section_enrollments = fresh_row enrollment section db ∷ db.section_enrollments;
          next_id = suc db.next_id;
        },
      )
    ]

-- UPDATE … WHERE p RETURNING *, for a predicate that at most one row meets (its id is fixed):
-- the row as it stands after the update.
abbrev pub update_one :
    (SectionEnrollment → Bool) → (SectionEnrollment → SectionEnrollment) → Query SectionEnrollment
update_one p f db = elim (find_first p db.section_enrollments) [
  | none ↦ (err no_rows, db)
  | some r ↦ (ok (f r), record db { section_enrollments = update_where p f db.section_enrollments })
]

abbrev pub revived : Time → SectionEnrollment → SectionEnrollment
revived now r = record r { status = in_progress; deleted_at = none; updated_at = now }

unfoldable pub revive_section_enrollment : Uuid → Query SectionEnrollment
revive_section_enrollment id db = update_one (λ r. r.id == id) (revived db.now) db

abbrev pub can_withdraw : Uuid → SectionEnrollment → Bool
can_withdraw id r = r.id == id && (is_in_progress r.status && is_null r.deleted_at)

abbrev pub withdrawn_at : Time → SectionEnrollment → SectionEnrollment
withdrawn_at now r = record r { status = withdrawn; updated_at = now }

unfoldable pub withdraw_section_enrollment : Uuid → Query SectionEnrollment
withdraw_section_enrollment id db = update_one (can_withdraw id) (withdrawn_at db.now) db

unfoldable pub find_live : Uuid → Db → Option SectionEnrollment
find_live id db = find_first (λ r. r.id == id && is_null r.deleted_at) db.section_enrollments

abbrev pub get_section_enrollment_by_id : Uuid → Query SectionEnrollment
get_section_enrollment_by_id id = reads λ db. one_row (find_live id db)

-- WHERE id = $1 AND deleted_at IS NULL AND status IN (…) AND $2 IN ('passed', 'failed').
abbrev pub can_settle : Uuid → Status → SectionEnrollment → Bool
can_settle id outcome r =
    r.id == id && (is_null r.deleted_at && (not (is_withdrawn r.status) && is_outcome outcome))

abbrev pub settled : Status → Numeric → Time → SectionEnrollment → SectionEnrollment
settled outcome grade now r = record r { status = outcome; final_grade = grade; updated_at = now }

unfoldable pub set_section_enrollment_outcome : Uuid → Status → Numeric → Query SectionEnrollment
set_section_enrollment_outcome id outcome grade db =
    update_one (can_settle id outcome) (settled outcome grade db.now) db
