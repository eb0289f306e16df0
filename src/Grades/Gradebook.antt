-- ===== src/Grades/Gradebook.antt =====
-- A course with two evaluations of one half each, taught by user 9 in section 100: student 2 has a
-- 3.9 in the first, at version 2. Columns store what they are given, and "4.0" is read as 40 / 10.
use infraestructura_y_servic.Base.{ℕ, Option, some, none, [], ◌∷◌, arith, true, false, count_if}
use infraestructura_y_servic.Base.Int.{pos, negsuc}
use infraestructura_y_servic.Platform.Pgconv.{Text, Numeric}
use infraestructura_y_servic.Store.{Uuid, Evaluation, Grade}
use infraestructura_y_servic.Driver.{PgError, Result, ok, World}
use infraestructura_y_servic.SectionEnrollment.Campus.{campus, start}
use infraestructura_y_servic.Grades.Repository.{RecordGradeParams}
use infraestructura_y_servic.Grades.Versions.{IsSound}

abbrev pub store_as_is : Numeric → Result PgError Numeric
store_as_is n = ok n

-- n · 10 ^ -1.
abbrev pub tenths : ℕ → Numeric
tenths n = record { int = some (pos n); exp = negsuc 0; valid = true }

abbrev pub read_four : Text → Option Numeric
read_four s = some (tenths 40)

abbrev pub half : Numeric
half = tenths 5

abbrev pub evaluation : Uuid → ℕ → Evaluation
evaluation id position = record {
  id = id;
  course_id = 50;
  weight = half;
  position = position;
  created_at = 3;
  updated_at = 3;
  deleted_at = none;
}

abbrev pub first_grade : Grade
first_grade = record {
  id = 250;
  evaluation_id = 211;
  section_enrollment_id = 201;
  graded_by = 9;
  value = tenths 39;
  evaluated_at = 4;
  version = 2;
  created_at = 4;
  updated_at = 4;
  created_by = some 9;
  updated_by = some 9;
  deleted_at = none;
}

abbrev pub gradebook : World
gradebook = record start {
  db = record campus {
    section_teachers = (record { section_id = 100; teacher_id = 9; created_at = 1 }) ∷ [];
    evaluations = evaluation 212 2 ∷ evaluation 211 1 ∷ [];
    grades = first_grade ∷ [];
  };
}

abbrev pub by_teacher : Uuid → Numeric → Option ℕ → RecordGradeParams
by_teacher target value version = record {
  evaluation_id = target;
  section_enrollment_id = 201;
  value = value;
  expected_version = version;
  is_override = false;
  actor_id = some 9;
}

pub gradebook-IsSound : IsSound gradebook.db
unfolding count_if
gradebook-IsSound = record {
  distinct = (tt, tt);
  bounded = (omega arith, tt);
  keys = λ e s. ground arith;
}
