-- ===== src/Reports/Queries.antt =====
-- backend/internal/reports/query.sql: the statements of the acta of a section. The
-- collation of names is a parameter, and profiles stand beside the tables of the store.
use infraestructura_y_servic.Base.{
  ℕ, Bool, true, false, not, ◌&&◌, ◌||◌, Option, none, some, List, [], ◌∷◌, ◌==◌, ltb, any_of,
  select, take, if◌then◌else◌,
}
use infraestructura_y_servic.Base.Joins.{each}
use infraestructura_y_servic.Platform.Texts.{same_text}
use infraestructura_y_servic.Platform.Pgconv.{Text, Numeric, null_numeric}
use infraestructura_y_servic.Store.{
  Uuid, Time, is_null, Enrollment, SectionEnrollment, Grade, Status, in_progress, passed, failed,
  withdrawn, Db,
}
use infraestructura_y_servic.Catalog.Sections.{is_live_section}
use infraestructura_y_servic.Catalog.Reads.{order_by}

pub record StudentProfile : Type 0 where
  pub user_id : Uuid
  pub deleted_at : Option Time

pub record UserProfile : Type 0 where
  pub user_id : Uuid
  pub given_names : Text
  pub last_name_paternal : Text
  pub last_name_maternal : Option Text
  pub deleted_at : Option Time

pub record Archive : Type 0 where
  pub db : Db
  pub student_profiles : List StudentProfile
  pub user_profiles : List UserProfile

-- A row of the acta: an inscription, its student, and one of its grades, if it has any.
pub record ActaRow : Type 0 where
  pub se_id : Uuid
  pub student_id : Uuid
  pub given_names : Text
  pub last_name_paternal : Text
  pub last_name_maternal : Option Text
  pub evaluation_id : Option Uuid
  pub position : Option ℕ
  pub grade_value : Numeric
  pub final_grade : Numeric
  pub enrollment_status : Status

-- LEFT JOIN: the rows of a join, or one without the right side.
abbrev pub or_null : {A : Type 0} → A → List A → List A
or_null a [] = a ∷ []
or_null a (x ∷ xs) = x ∷ xs

-- The grade of an inscription: its evaluation and position, and its value.
pub record GradePart : Type 0 where
  pub evaluation_id : Option Uuid
  pub position : Option ℕ
  pub value : Numeric

abbrev pub ungraded : GradePart
ungraded = record { evaluation_id = none; position = none; value = null_numeric }

abbrev pub evaluations_of : Grade → Db → List GradePart
evaluations_of g db =
    or_null (record { evaluation_id = none; position = none; value = g.value })
      (each (select (λ ev. ev.id == g.evaluation_id && is_null ev.deleted_at) db.evaluations) λ ev.
        (record { evaluation_id = some ev.id; position = some ev.position; value = g.value }) ∷ [])

abbrev pub grade_parts : Uuid → Db → List GradePart
grade_parts se db = or_null ungraded (
    each (select (λ g. g.section_enrollment_id == se && is_null g.deleted_at) db.grades)
      λ g. evaluations_of g db)

abbrev pub is_withdrawn : Status → Bool
is_withdrawn in_progress = false
is_withdrawn passed = false
is_withdrawn failed = false
is_withdrawn withdrawn = true

abbrev pub acta_row : SectionEnrollment → Enrollment → UserProfile → GradePart → ActaRow
acta_row se e up part = record {
  se_id = se.id;
  student_id = e.student_id;
  given_names = up.given_names;
  last_name_paternal = up.last_name_paternal;
  last_name_maternal = up.last_name_maternal;
  evaluation_id = part.evaluation_id;
  position = part.position;
  grade_value = part.value;
  final_grade = se.final_grade;
  enrollment_status = se.status;
}

-- The joins of the acta of a live section.
unfoldable pub acta_rows : Uuid → Archive → List ActaRow
acta_rows section a = each (select (is_live_section section) a.db.sections) λ s.
    each
      (select
        (λ se. se.section_id == s.id && (not (is_withdrawn se.status) && is_null se.deleted_at))
        a.db.section_enrollments)
      λ se.
        each (select (λ e. e.id == se.enrollment_id && is_null e.deleted_at) a.db.enrollments) λ e.
          each
            (select (λ sp. sp.user_id == e.student_id && is_null sp.deleted_at) a.student_profiles)
            λ sp.
              each
                (select (λ up. up.user_id == e.student_id && is_null up.deleted_at) a.user_profiles)
                λ up. each (grade_parts se.id a.db) λ part. acta_row se e up part ∷ []

-- ORDER BY of positions, nulls last.
abbrev pub position_precedes : Option ℕ → Option ℕ → Bool
position_precedes none p = false
position_precedes (some n) none = true
position_precedes (some n) (some k) = ltb n k

abbrev pub is_teacher_for_section : Uuid → Uuid → Db → Bool
is_teacher_for_section section teacher db =
    any_of (λ t. t.section_id == section && t.teacher_id == teacher) db.section_teachers

abbrev pub acta_section_exists : Uuid → Db → Bool
acta_section_exists section db = any_of (is_live_section section) db.sections

module _ (collates : Text → Text → Bool) where
  abbrev pub acta_precedes : ActaRow → ActaRow → Bool
  acta_precedes r s =
      collates r.last_name_paternal s.last_name_paternal
      || (same_text r.last_name_paternal s.last_name_paternal
          && (collates r.given_names s.given_names
              || (same_text r.given_names s.given_names
                  && position_precedes r.position s.position)))

  unfoldable pub acta_for_section_admin : Uuid → Archive → List ActaRow
  acta_for_section_admin section a = take 501 (order_by acta_precedes (acta_rows section a))

  unfoldable pub acta_for_section_by_teacher : Uuid → Uuid → Archive → List ActaRow
  acta_for_section_by_teacher section teacher a = take 501 (
      order_by acta_precedes
        (if is_teacher_for_section section teacher a.db then acta_rows section a else []))
