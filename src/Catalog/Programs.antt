-- ===== src/Catalog/Programs.antt =====
-- backend/internal/catalog/query.sql: the statements on programs, courses and their associations.
use infraestructura_y_servic.Base.{ℕ, suc, Bool, true, not, ◌&&◌, Option, none, some, ◌==◌, any_of}
use infraestructura_y_servic.Platform.Pgconv.{Text}
use infraestructura_y_servic.Platform.Texts.{same_text}
use infraestructura_y_servic.Store.{
  Uuid, is_null, Program, Course, ProgramCourse, ProgramQuota, Section, Db,
}
use infraestructura_y_servic.Driver.{Query}
use infraestructura_y_servic.Catalog.Tables.{
  programs, courses, program_courses, program_quotas, sections, get_row, count_rows, insert_row,
  update_row, mark_rows, delete_rows,
}

-- WHERE id = $1 AND deleted_at IS NULL.
abbrev pub is_program : Uuid → Program → Bool
is_program id p = p.id == id && is_null p.deleted_at

abbrev pub is_live_course : Uuid → Course → Bool
is_live_course id c = c.id == id && is_null c.deleted_at

pub record CreateProgramParams : Type 0 where
  pub code : Text
  pub name : Text

abbrev pub fresh_program : CreateProgramParams → Option Uuid → Db → Program
fresh_program p actor db = record {
  id = db.next_id;
  code = p.code;
  name = p.name;
  created_at = db.now;
  updated_at = db.now;
  deleted_at = none;
  created_by = actor;
  updated_by = actor;
}

-- UNIQUE (code), soft-deleted rows included.
abbrev pub insert_program : CreateProgramParams → Option Uuid → Query Program
insert_program p actor =
    insert_row programs suc (λ _. true) (λ r. same_text r.code p.code) (fresh_program p actor)

abbrev pub renamed_program : CreateProgramParams → Option Uuid → Db → Program → Program
renamed_program p actor db r = record r {
  code = p.code;
  name = p.name;
  updated_at = db.now;
  updated_by = actor;
}

abbrev pub update_program : Uuid → CreateProgramParams → Option Uuid → Query Program
update_program id p actor =
    update_row programs (λ _ r. not (r.id == id) && same_text r.code p.code) (is_program id)
      (renamed_program p actor)

abbrev pub get_program : Uuid → Query Program
get_program id = get_row programs (is_program id)

abbrev pub get_program_for_update : Uuid → Query Program
get_program_for_update id = get_row programs (is_program id)

abbrev pub count_program_courses : Uuid → Query ℕ
count_program_courses id = count_rows program_courses (λ r. r.program_id == id)

-- program_id = $1 AND deleted_at IS NULL.
abbrev pub is_quota_of : Uuid → ProgramQuota → Bool
is_quota_of id q = q.program_id == id && is_null q.deleted_at

abbrev pub count_live_program_quotas : Uuid → Query ℕ
count_live_program_quotas id = count_rows program_quotas (is_quota_of id)

abbrev pub deleted_program : Option Uuid → Db → Program → Program
deleted_program actor db r = record r {
  deleted_at = some db.now;
  updated_at = db.now;
  updated_by = actor;
}

abbrev pub soft_delete_program : Uuid → Option Uuid → Query ℕ
soft_delete_program id actor = mark_rows programs (is_program id) (deleted_program actor)

pub record CreateCourseParams : Type 0 where
  pub code : Text
  pub name : Text
  pub credits : ℕ

abbrev pub fresh_course : CreateCourseParams → Option Uuid → Db → Course
fresh_course p actor db = record {
  id = db.next_id;
  code = p.code;
  name = p.name;
  credits = p.credits;
  created_at = db.now;
  updated_at = db.now;
  deleted_at = none;
  created_by = actor;
  updated_by = actor;
}

abbrev pub insert_course : CreateCourseParams → Option Uuid → Query Course
insert_course p actor =
    insert_row courses suc (λ _. true) (λ r. same_text r.code p.code) (fresh_course p actor)

abbrev pub renamed_course : CreateCourseParams → Option Uuid → Db → Course → Course
renamed_course p actor db r = record r {
  code = p.code;
  name = p.name;
  credits = p.credits;
  updated_at = db.now;
  updated_by = actor;
}

abbrev pub update_course : Uuid → CreateCourseParams → Option Uuid → Query Course
update_course id p actor =
    update_row courses (λ _ r. not (r.id == id) && same_text r.code p.code) (is_live_course id)
      (renamed_course p actor)

abbrev pub get_course : Uuid → Query Course
get_course id = get_row courses (is_live_course id)

abbrev pub get_course_for_update : Uuid → Query Course
get_course_for_update id = get_row courses (is_live_course id)

abbrev pub count_course_program_associations : Uuid → Query ℕ
count_course_program_associations id = count_rows program_courses (λ r. r.course_id == id)

abbrev pub is_section_of_course : Uuid → Section → Bool
is_section_of_course id s = s.course_id == id && is_null s.deleted_at

abbrev pub count_live_sections_by_course : Uuid → Query ℕ
count_live_sections_by_course id = count_rows sections (is_section_of_course id)

abbrev pub deleted_course : Option Uuid → Db → Course → Course
deleted_course actor db r = record r {
  deleted_at = some db.now;
  updated_at = db.now;
  updated_by = actor;
}

abbrev pub soft_delete_course : Uuid → Option Uuid → Query ℕ
soft_delete_course id actor = mark_rows courses (is_live_course id) (deleted_course actor)

-- PRIMARY KEY (program_id, course_id), and two foreign keys, which a soft-deleted row satisfies.
abbrev pub is_association : Uuid → Uuid → ProgramCourse → Bool
is_association program course r = r.program_id == program && r.course_id == course

abbrev pub insert_program_course : Uuid → Uuid → Query ProgramCourse
insert_program_course program course =
    insert_row program_courses (λ n. n)
      (λ db. any_of (λ p. p.id == program) db.programs && any_of (λ c. c.id == course) db.courses)
      (is_association program course)
      (λ db. record { program_id = program; course_id = course; created_at = db.now })

abbrev pub delete_program_course : Uuid → Uuid → Query ℕ
delete_program_course program course = delete_rows program_courses (is_association program course)
