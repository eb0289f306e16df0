-- ===== src/Grades/Queries.antt =====
-- backend/internal/grades/query.sql: the statements that the transactions of the slice run. What
-- PostgreSQL stores for a value of a NUMERIC column, or the error of the column's type or CHECK, is
-- a parameter.
use infraestructura_y_servic.Base.{
  ℕ, suc, Bool, ◌&&◌, Option, none, some, List, [], ◌∷◌, ◌==◌, ltb, find_first, count_if, any_of,
  select, update_where, if◌then◌else◌,
}
use infraestructura_y_servic.Platform.Pgconv.{Numeric, Text}
use infraestructura_y_servic.Store.{
  Uuid, Time, is_null, Section, Enrollment, Status, SectionEnrollment, Evaluation, Grade, Db,
}
use infraestructura_y_servic.Driver.{
  PgError, no_rows, unique_violation, other, Result, ok, err, Query, reads, one_row,
}

-- course_id = $1 AND deleted_at IS NULL.
abbrev pub is_live_for : Uuid → Evaluation → Bool
is_live_for course e = e.course_id == course && is_null e.deleted_at

-- ORDER BY position.
unfoldable pub insert_by_position : Evaluation → List Evaluation → List Evaluation
insert_by_position e [] = e ∷ []
insert_by_position e (x ∷ xs) =
    if ltb x.position e.position then x ∷ insert_by_position e xs else e ∷ x ∷ xs

unfoldable pub sort_by_position : List Evaluation → List Evaluation
sort_by_position [] = []
sort_by_position (x ∷ xs) = insert_by_position x (sort_by_position xs)

unfoldable pub scheme_of : Uuid → Db → List Evaluation
scheme_of course db = sort_by_position (select (is_live_for course) db.evaluations)

abbrev pub list_evaluations_for_course : Uuid → Query (List Evaluation)
list_evaluations_for_course course = reads λ db. ok (scheme_of course db)

abbrev pub count_live_evaluations_for_course : Uuid → Query ℕ
count_live_evaluations_for_course course =
    reads λ db. ok (count_if (is_live_for course) db.evaluations)

-- The rows that FOR UPDATE locks.
abbrev pub lock_evaluations_for_course : Uuid → Query (List Evaluation)
lock_evaluations_for_course course = reads λ db. ok (select (is_live_for course) db.evaluations)

abbrev pub soft_deleted : Time → Evaluation → Evaluation
soft_deleted now e = record e { deleted_at = some now; updated_at = now }

unfoldable pub soft_delete_evaluations_for_course : Uuid → Query (Unit {0})
soft_delete_evaluations_for_course course db = (
  ok tt,
  record db {
    evaluations = update_where (is_live_for course) (soft_deleted db.now) db.evaluations;
  },
)

-- JOIN evaluations e ON e.id = g.evaluation_id, for a live evaluation of the course.
abbrev pub grades_live_for : Uuid → Db → Grade → Bool
grades_live_for course db g =
    any_of (λ e. e.id == g.evaluation_id && is_live_for course e) db.evaluations

abbrev pub count_grades_for_evaluations : Uuid → Query ℕ
count_grades_for_evaluations course =
    reads λ db. ok (count_if (grades_live_for course db) db.grades)

abbrev pub fresh_evaluation : Uuid → Numeric → ℕ → Db → Evaluation
fresh_evaluation course weight position db = record {
  id = db.next_id;
  course_id = course;
  weight = weight;
  position = position;
  created_at = db.now;
  updated_at = db.now;
  deleted_at = none;
}

abbrev pub with_evaluation : Uuid → Numeric → ℕ → Db → Db
with_evaluation course weight position db = record db {
  evaluations = fresh_evaluation course weight position db ∷ db.evaluations;
  next_id = suc db.next_id;
}

-- The partial unique index of migration 000014 is on the live (course_id, position).
abbrev pub has_position : Uuid → ℕ → Evaluation → Bool
has_position course position e = e.position == position && is_live_for course e

abbrev pub has_grade_key : Uuid → Uuid → Grade → Bool
has_grade_key evaluation enrollment g =
    g.evaluation_id == evaluation && g.section_enrollment_id == enrollment

unfoldable pub find_grade : Uuid → Uuid → List Grade → Option Grade
find_grade evaluation enrollment rows =
    find_first (λ g. has_grade_key evaluation enrollment g && is_null g.deleted_at) rows

abbrev pub get_grade_by_key : Uuid → Uuid → Query Grade
get_grade_by_key evaluation enrollment =
    reads λ db. one_row (find_grade evaluation enrollment db.grades)

abbrev pub fresh_grade : Uuid → Uuid → Uuid → Numeric → Db → Grade
fresh_grade evaluation enrollment actor value db = record {
  id = db.next_id;
  evaluation_id = evaluation;
  section_enrollment_id = enrollment;
  graded_by = actor;
  value = value;
  evaluated_at = db.now;
  version = 1;
  created_at = db.now;
  updated_at = db.now;
  created_by = some actor;
  updated_by = some actor;
  deleted_at = none;
}

abbrev pub with_grade : Uuid → Uuid → Uuid → Numeric → Db → Db
with_grade evaluation enrollment actor value db = record db {
  grades = fresh_grade evaluation enrollment actor value db ∷ db.grades;
  next_id = suc db.next_id;
}

abbrev pub regraded : Uuid → Numeric → Time → Grade → Grade
regraded actor value now g = record g {
  value = value;
  version = suc g.version;
  graded_by = actor;
  evaluated_at = now;
  updated_at = now;
  updated_by = some actor;
}

-- id = $1 AND version = $2.
abbrev pub has_version : Uuid → ℕ → Grade → Bool
has_version id version g = g.id == id && g.version == version

module _ (fit : Numeric → Result PgError Numeric) where
  -- `fit` is the column's NUMERIC(4,3) and its CHECK.
  unfoldable pub insert_evaluation : Uuid → Numeric → ℕ → Query Evaluation
  insert_evaluation course weight position db = elim (fit weight) [
    | err e ↦ (err e, db)
    | ok w ↦
        if any_of (has_position course position) db.evaluations
        then (err unique_violation, db)
        else (ok (fresh_evaluation course w position db), with_evaluation course w position db)
  ]

  -- ON CONFLICT (evaluation_id, section_enrollment_id) DO NOTHING: no row comes back. `graded_by`
  -- is NOT NULL (23502), and `fit` is the column's NUMERIC(3,1) and its CHECK.
  unfoldable pub insert_grade : Uuid → Uuid → Option Uuid → Numeric → Query Grade
  insert_grade evaluation enrollment none value db = (err (other 23502), db)
  insert_grade evaluation enrollment (some actor) value db = elim (fit value) [
    | err e ↦ (err e, db)
    | ok v ↦ if any_of (has_grade_key evaluation enrollment) db.grades then (err no_rows, db) else (
      ok (fresh_grade evaluation enrollment actor v db),
      with_grade evaluation enrollment actor v db,
    )
  ]

  unfoldable pub update_grade_by_version : Uuid → ℕ → Numeric → Option Uuid → Query Grade
  update_grade_by_version id version value actor db =
      elim (find_first (has_version id version) db.grades) [
        | none ↦ (err no_rows, db)
        | some g ↦ elim actor [
          | none ↦ (err (other 23502), db)
          | some a ↦ elim (fit value) [
            | err e ↦ (err e, db)
            | ok v ↦ (
              ok (regraded a v db.now g),
              record db {
                grades = update_where (has_version id version) (regraded a v db.now) db.grades;
              },
            )
          ]
        ]
      ]

-- The row of `GetSectionEnrollmentForGrade`.
pub record ForGrade : Type 0 where
  pub section_id : Uuid
  pub status : Status
  pub course_id : Uuid
  pub student_id : Uuid

abbrev joined : SectionEnrollment → Option Section → Option Enrollment → Option ForGrade
joined se none e = none
joined se (some s) none = none
joined se (some s) (some e) = some (record {
  section_id = se.section_id;
  status = se.status;
  course_id = s.course_id;
  student_id = e.student_id;
})

-- The live inscription joined with its section and its enrollment.
abbrev pub for_grade : Uuid → Db → Option ForGrade
for_grade id db =
    elim (find_first (λ r. r.id == id && is_null r.deleted_at) db.section_enrollments) [
      | none ↦ none
      | some se ↦
          joined se (find_first (λ s. s.id == se.section_id) db.sections)
            (find_first (λ e. e.id == se.enrollment_id) db.enrollments)
    ]

abbrev pub get_section_enrollment_for_grade : Uuid → Query ForGrade
get_section_enrollment_for_grade id = reads λ db. one_row (for_grade id db)

abbrev pub teaches : Uuid → Uuid → Db → Bool
teaches section user db =
    any_of (λ t. t.section_id == section && t.teacher_id == user) db.section_teachers

abbrev pub is_teacher_for_section : Uuid → Uuid → Query Bool
is_teacher_for_section section user = reads λ db. ok (teaches section user db)

abbrev pub get_evaluation_by_id : Uuid → Query Evaluation
get_evaluation_by_id id = reads λ db. one_row (find_first (λ e. e.id == id) db.evaluations)

abbrev pub grades_of : Uuid → List Grade → List Grade
grades_of enrollment rows =
    select (λ g. g.section_enrollment_id == enrollment && is_null g.deleted_at) rows

abbrev pub list_grades_by_section_enrollment : Uuid → Query (List Grade)
list_grades_by_section_enrollment enrollment = reads λ db. ok (grades_of enrollment db.grades)

-- The audit row of a change of a grade; its action is 'grade.update', its entity 'grades'.
unfoldable pub insert_audit_log : Option Uuid → Uuid → Text → Text → Query (Unit {0})
insert_audit_log actor entity old new db = (
  ok tt,
  record db {
    audit_logs =
        record {
          id = db.next_id;
          actor_id = actor;
          entity_id = entity;
          old_value = old;
          new_value = new;
          created_at = db.now;
        }
        ∷ db.audit_logs;
    next_id = suc db.next_id;
  },
)
