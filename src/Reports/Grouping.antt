-- ===== src/Reports/Grouping.antt =====
-- backend/internal/reports/service.go: what the grouping of rows by student computes.
use infraestructura_y_servic.Base.{
  ℕ, ◌≡◌, refl, sym, ap, ◌∙◌, subst, Bool, Option, none, some, List, [], ◌∷◌, ◌++◌, ◌==◌, arith,
  map, select, count_if, ◌&&◌, ◌≤◌, find_first, Bool-cases, inl, inr, append_assoc, append-nil,
  if◌then◌else◌,
}
use infraestructura_y_servic.Base.Joins.{each}
use infraestructura_y_servic.Store.{Uuid, Time}
use infraestructura_y_servic.Reports.Queries.{ActaRow}
use infraestructura_y_servic.Reports.Builders.{
  PartialGrade, StudentEntry, partials, add_row, group_rows, StudentGradeRow, student_grade_row,
  capped, build_section_grade_response,
}

abbrev pub of_student : Uuid → ActaRow → Bool
of_student id r = r.student_id == id

-- The grades of a student, in the order of the rows.
abbrev pub grades_of : Uuid → List ActaRow → List PartialGrade
grades_of id rows = each (select (of_student id) rows) partials

-- The entry of a student: the first of its rows, and all of its grades.
unfoldable pub entry_of : Uuid → List ActaRow → Option StudentEntry
entry_of id rows = elim (find_first (of_student id) rows) [
  | none ↦ none
  | some r ↦ some (record { row = r; grades = grades_of id rows })
]

-- An entry that is there takes the grades of the rows, and one that is not is made from them.
abbrev extended : Uuid → Option StudentEntry → List ActaRow → Option StudentEntry
extended id none rows = entry_of id rows
extended id (some e) rows = some (record e { grades = e.grades ++ grades_of id rows })

abbrev entry : Uuid → List StudentEntry → Option StudentEntry
entry id es = find_first (λ e. e.row.student_id == id) es

-- The entry of a student after one more of its rows.
abbrev with_row : ActaRow → Option StudentEntry → StudentEntry
with_row r none = record { row = r; grades = partials r }
with_row r (some e) = record e { grades = e.grades ++ partials r }

entry-add_row :
    (id : Uuid) (r : ActaRow) (es : List StudentEntry)
    → entry id (add_row r es)
      ≡ (if r.student_id == id then some (with_row r (entry id es)) else entry id es)
unfolding find_first add_row
entry-add_row id r [] = refl
entry-add_row id r (e ∷ es) = elim (Bool-cases (e.row.student_id == r.student_id)) [
  | inl q ↦ elim (Bool-cases (r.student_id == id)) [
    | inl k ↦ ground (arith, q, k)
    | inr k ↦ ground (arith, q, k)
  ]
  | inr q ↦ elim (Bool-cases (e.row.student_id == id)) [
    | inl k ↦ ground (arith, q, k)
    | inr k ↦ ground (arith, q, k, entry-add_row id r es)
  ]
]

grades_of-cons :
    (id : Uuid) (r : ActaRow) (rows : List ActaRow)
    → grades_of id (r ∷ rows)
      ≡ (if r.student_id == id then partials r ++ grades_of id rows else grades_of id rows)
unfolding select each
grades_of-cons id r rows = elim (Bool-cases (r.student_id == id)) [
  | inl k ↦ ground (arith, k)
  | inr k ↦ ground (arith, k)
]

extended-with_row :
    (id : Uuid) (e : Option StudentEntry) (r : ActaRow) (rows : List ActaRow)
    → extended id (if r.student_id == id then some (with_row r e) else e) rows
      ≡ extended id e (r ∷ rows)
unfolding find_first entry_of
extended-with_row id none r rows = elim (Bool-cases (r.student_id == id)) [
  | inl k ↦ ground (arith, k, grades_of-cons id r rows)
  | inr k ↦ ground (arith, k, grades_of-cons id r rows)
]
extended-with_row id (some e) r rows = elim (Bool-cases (r.student_id == id)) [
  | inl k ↦
      ground
        (arith, k, grades_of-cons id r rows, append_assoc e.grades (partials r) (grades_of id rows))
  | inr k ↦ ground (arith, k, grades_of-cons id r rows)
]

extended-none : (id : Uuid) (e : Option StudentEntry) → extended id e [] ≡ e
unfolding find_first entry_of select each
extended-none id none = refl
extended-none id (some e) = ap (λ gs. some (record e { grades = gs })) (append-nil e.grades)

entry-group_rows :
    (id : Uuid) (es : List StudentEntry) (rows : List ActaRow)
    → entry id (group_rows es rows) ≡ extended id (entry id es) rows
unfolding group_rows
entry-group_rows id es [] = sym (extended-none id (entry id es))
entry-group_rows id es (r ∷ rows) =
    entry-group_rows id (add_row r es) rows
    ∙ ap (λ x. extended id x rows) (entry-add_row id r es)
    ∙ extended-with_row id (entry id es) r rows

-- The row of a student in the acta, from the entry of the student.
abbrev pub row_of_entry : Option StudentEntry → Option StudentGradeRow
row_of_entry none = none
row_of_entry (some e) = some (student_grade_row e)

find_first-map :
    (id : Uuid) (es : List StudentEntry)
    → find_first (λ (x : StudentGradeRow). x.student_id == id) (map student_grade_row es)
      ≡ row_of_entry (entry id es)
unfolding find_first student_grade_row
find_first-map id [] = refl
find_first-map id (e ∷ es) = elim (Bool-cases (e.row.student_id == id)) [
  | inl k ↦ ground (arith, k)
  | inr k ↦ ground (arith, k, find_first-map id es)
]

count-add_row :
    (id : Uuid) (r : ActaRow) (es : List StudentEntry)
    → count_if (λ e. e.row.student_id == id) (add_row r es) ≡ (
        if r.student_id == id && count_if (λ (e : StudentEntry). e.row.student_id == id) es == 0
        then 1
        else count_if (λ (e : StudentEntry). e.row.student_id == id) es)
unfolding count_if add_row
count-add_row id r [] = ground arith
count-add_row id r (e ∷ es) = elim (Bool-cases (e.row.student_id == r.student_id)) [
  | inl q ↦ elim (Bool-cases (r.student_id == id)) [
    | inl k ↦ ground (arith, q, k)
    | inr k ↦ ground (arith, q, k)
  ]
  | inr q ↦ elim (Bool-cases (e.row.student_id == id)) [
    | inl k ↦ ground (arith, q, k, count-add_row id r es)
    | inr k ↦ ground (arith, q, k, count-add_row id r es)
  ]
]

count-group_rows :
    (id : Uuid) (es : List StudentEntry) (rows : List ActaRow)
    → count_if (λ e. e.row.student_id == id) es ≤ 1
    → count_if (λ e. e.row.student_id == id) (group_rows es rows) ≤ 1
unfolding group_rows
count-group_rows id es [] h = h
count-group_rows id es (r ∷ rows) h =
    count-group_rows id (add_row r es) rows (ground (arith, h, count-add_row id r es))

count-map :
    (id : Uuid) (es : List StudentEntry)
    → count_if (λ (x : StudentGradeRow). x.student_id == id) (map student_grade_row es)
      ≡ count_if (λ (e : StudentEntry). e.row.student_id == id) es
unfolding count_if student_grade_row
count-map id [] = refl
count-map id (e ∷ es) = ground (arith, count-map id es)

-- The acta has at most one row of a student, for every student: it is made from the first of the
-- student's rows within the cap and has the grades of all of them in their order, and a student
-- without rows there has none.
pub build_section_grade_response-entry_of :
    (section : Uuid) (now : Time) (rows : List ActaRow) (limit : ℕ) (student : Uuid)
    → (count_if
          (λ (x : StudentGradeRow). x.student_id == student)
          (build_section_grade_response section now rows limit).rows
        ≤ 1)
      × (find_first
            (λ (x : StudentGradeRow). x.student_id == student)
            (build_section_grade_response section now rows limit).rows
          ≡ row_of_entry (entry_of student (capped rows limit)))
unfolding build_section_grade_response entry_of find_first count_if
build_section_grade_response-entry_of section now rows limit student =
    let held = count-group_rows student [] (capped rows limit) (omega arith) in
    (
      subst (λ n. n ≤ 1) (sym (count-map student (group_rows [] (capped rows limit)))) held,
      find_first-map student (group_rows [] (capped rows limit))
          ∙ ap row_of_entry (entry-group_rows student [] (capped rows limit)),
    )
