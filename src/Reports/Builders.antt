-- ===== src/Reports/Builders.antt =====
-- backend/internal/reports/service.go: the acta of a section from its rows. The two builders of the
-- source differ in the type of their rows only, and are one here; the map of entries by student and
-- the slice of their order are a list in that order.
use infraestructura_y_servic.Base.{
  ℕ, Bool, Option, none, some, List, [], ◌∷◌, ◌++◌, ◌==◌, ltb, length, map, take, if◌then◌else◌,
}
use infraestructura_y_servic.Base.Int.{pos}
use infraestructura_y_servic.Platform.Pgconv.{Text, numeric_to_string}
use infraestructura_y_servic.Store.{Uuid, Time, Status, in_progress, passed, failed}
use infraestructura_y_servic.Grades.Rat.{Rat, le, of_int}
use infraestructura_y_servic.Grades.Numerics.{set_string}
use infraestructura_y_servic.Reports.Queries.{ActaRow}

abbrev pub acta_cap : ℕ
acta_cap = 500

-- At least 4.0, and "failed" where the text is no number.
abbrev pub threshold_outcome : Option Rat → Status
threshold_outcome none = failed
threshold_outcome (some r) = if le (of_int (pos 4)) r then passed else failed

unfoldable pub grade_outcome : Text → Status
grade_outcome grade = threshold_outcome (set_string grade)

-- A position or a value that is absent is the zero of its type.
pub record PartialGrade : Type 0 where
  pub evaluation_id : Uuid
  pub position : ℕ
  pub value : Text

pub record StudentEntry : Type 0 where
  pub row : ActaRow
  pub grades : List PartialGrade

abbrev pub int_or_zero : Option ℕ → ℕ
int_or_zero none = 0
int_or_zero (some n) = n

abbrev pub text_or_empty : Option Text → Text
text_or_empty none = []
text_or_empty (some s) = s

-- The grade of a row, none for a student without grades.
unfoldable pub partials : ActaRow → List PartialGrade
partials r = elim r.evaluation_id [
  | none ↦ []
  | some id ↦
      (record {
        evaluation_id = id;
        position = int_or_zero r.position;
        value = if r.grade_value.valid then numeric_to_string r.grade_value else [];
      })
      ∷ []
]

-- One turn of the loop over the rows.
unfoldable pub add_row : ActaRow → List StudentEntry → List StudentEntry
add_row r [] = (record { row = r; grades = partials r }) ∷ []
add_row r (e ∷ es) =
    let rest = add_row r es in
    if e.row.student_id == r.student_id
    then (record e { grades = e.grades ++ partials r }) ∷ es
    else e ∷ rest

unfoldable pub group_rows : List StudentEntry → List ActaRow → List StudentEntry
group_rows entries [] = entries
group_rows entries (r ∷ rows) = group_rows (add_row r entries) rows

pub record StudentGradeRow : Type 0 where
  pub student_id : Uuid
  pub given_names : Text
  pub last_name_paternal : Text
  pub last_name_maternal : Text
  pub final_grade : Text
  pub outcome : Status
  pub partial_grades : List PartialGrade

unfoldable pub student_grade_row : StudentEntry → StudentGradeRow
student_grade_row e =
    let final = numeric_to_string e.row.final_grade in
    record {
      student_id = e.row.student_id;
      given_names = e.row.given_names;
      last_name_paternal = e.row.last_name_paternal;
      last_name_maternal = text_or_empty e.row.last_name_maternal;
      final_grade = if e.row.final_grade.valid then final else [];
      outcome = if e.row.final_grade.valid then grade_outcome final else in_progress;
      partial_grades = e.grades;
    }

pub record SectionGradeReport : Type 0 where
  pub section_id : Uuid
  pub generated_at : Time
  pub truncated : Bool
  pub rows : List StudentGradeRow

-- The rows, cut to the cap.
abbrev pub capped : List ActaRow → ℕ → List ActaRow
capped rows cap = if ltb cap (length rows) then take cap rows else rows

unfoldable pub build_section_grade_response : Uuid → Time → List ActaRow → ℕ → SectionGradeReport
build_section_grade_response section now rows cap = record {
  section_id = section;
  generated_at = now;
  truncated = ltb cap (length rows);
  rows = map student_grade_row (group_rows [] (capped rows cap));
}
