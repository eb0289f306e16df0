-- ===== src/Catalog/Tables.antt =====
-- The shapes of the statements of backend/internal/catalog/query.sql: a table as the rows it has in a
-- state and the state with other rows, and what INSERT, UPDATE and DELETE do to it.
use infraestructura_y_servic.Base.{
  ℕ, Bool, not, none, some, List, ◌∷◌, find_first, count_if, any_of, select, update_where,
  if◌then◌else◌,
}
use infraestructura_y_servic.Store.{
  Section, Program, Course, AcademicPeriod, ProgramCourse, ProgramQuota, SectionTeacher, Db,
}
use infraestructura_y_servic.Driver.{
  no_rows, unique_violation, fk_violation, ok, err, Query, reads, one_row,
}

pub record Table (A : Type 0) : Type 0 where
  pub rows : Db → List A
  pub put : List A → Db → Db

abbrev pub programs : Table Program
programs = record { rows = λ db. db.programs; put = λ xs db. record db { programs = xs } }

abbrev pub courses : Table Course
courses = record { rows = λ db. db.courses; put = λ xs db. record db { courses = xs } }

abbrev pub academic_periods : Table AcademicPeriod
academic_periods = record {
  rows = λ db. db.academic_periods;
  put = λ xs db. record db { academic_periods = xs };
}

abbrev pub program_courses : Table ProgramCourse
program_courses = record {
  rows = λ db. db.program_courses;
  put = λ xs db. record db { program_courses = xs };
}

abbrev pub program_quotas : Table ProgramQuota
program_quotas = record {
  rows = λ db. db.program_quotas;
  put = λ xs db. record db { program_quotas = xs };
}

abbrev pub sections : Table Section
sections = record { rows = λ db. db.sections; put = λ xs db. record db { sections = xs } }

abbrev pub section_teachers : Table SectionTeacher
section_teachers = record {
  rows = λ db. db.section_teachers;
  put = λ xs db. record db { section_teachers = xs };
}

module _ {A : Type 0} (t : Table A) where
  -- SELECT … WHERE p, for one row, and the rows that it counts.
  abbrev pub get_row : (A → Bool) → Query A
  get_row p = reads λ db. one_row (find_first p (t.rows db))

  abbrev pub count_rows : (A → Bool) → Query ℕ
  count_rows p = reads λ db. ok (count_if p (t.rows db))

  -- INSERT … RETURNING *: `refers` says whether the row's foreign keys have a row, `clashes`
  -- whether a row has its unique key, and `next` which identifier comes next.
  unfoldable pub insert_row : (ℕ → ℕ) → (Db → Bool) → (A → Bool) → (Db → A) → Query A
  insert_row next refers clashes fresh db =
      if any_of clashes (t.rows db)
      then (err unique_violation, db)
      else if refers db
      then (ok (fresh db), record (t.put (fresh db ∷ t.rows db) db) { next_id = next db.next_id })
      else (err fk_violation, db)

  -- UPDATE … SET f WHERE p RETURNING *: `clashes` says which rows already have the new unique key
  -- of the row.
  unfoldable pub update_row : (A → A → Bool) → (A → Bool) → (Db → A → A) → Query A
  update_row clashes p f db = elim (find_first p (t.rows db)) [
    | none ↦ (err no_rows, db)
    | some r ↦
        if any_of (clashes r) (t.rows db)
        then (err unique_violation, db)
        else (ok (f db r), t.put (update_where p (f db) (t.rows db)) db)
  ]

  -- UPDATE … SET f WHERE p, with the number of rows that it touches.
  unfoldable pub mark_rows : (A → Bool) → (Db → A → A) → Query ℕ
  mark_rows p f db = (ok (count_if p (t.rows db)), t.put (update_where p (f db) (t.rows db)) db)

  -- DELETE … WHERE p, with the number of rows.
  unfoldable pub delete_rows : (A → Bool) → Query ℕ
  delete_rows p db = (ok (count_if p (t.rows db)), t.put (select (λ r. not (p r)) (t.rows db)) db)
