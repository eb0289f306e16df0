-- ===== src/Catalog/Sections.antt =====
-- backend/internal/catalog/query.sql: the statements on sections and their teachers.
use infraestructura_y_servic.Base.{ℕ, suc, Bool, false, ◌&&◌, Option, none, some, ◌==◌, any_of}
use infraestructura_y_servic.Store.{Uuid, is_null, Section, SectionTeacher, Db}
use infraestructura_y_servic.Driver.{Query}
use infraestructura_y_servic.Catalog.Tables.{
  sections, section_teachers, get_row, count_rows, insert_row, update_row, mark_rows, delete_rows,
}

abbrev pub is_live_section : Uuid → Section → Bool
is_live_section id s = s.id == id && is_null s.deleted_at

pub record CreateSectionParams : Type 0 where
  pub course_id : Uuid
  pub academic_period_id : Uuid
  pub seat_capacity : ℕ

abbrev pub fresh_section : CreateSectionParams → Option Uuid → Db → Section
fresh_section p actor db = record {
  id = db.next_id;
  course_id = p.course_id;
  academic_period_id = p.academic_period_id;
  capacity = p.seat_capacity;
  created_at = db.now;
  updated_at = db.now;
  deleted_at = none;
  created_by = actor;
  updated_by = actor;
}

-- Two foreign keys, which a soft-deleted course or period satisfies.
abbrev pub insert_section : CreateSectionParams → Option Uuid → Query Section
insert_section p actor =
    insert_row sections suc
      (λ db.
        any_of (λ c. c.id == p.course_id) db.courses
        && any_of (λ r. r.id == p.academic_period_id) db.academic_periods)
      (λ _. false) (fresh_section p actor)

abbrev pub resized_section : ℕ → Option Uuid → Db → Section → Section
resized_section capacity actor db s = record s {
  capacity = capacity;
  updated_at = db.now;
  updated_by = actor;
}

abbrev pub update_section : Uuid → ℕ → Option Uuid → Query Section
update_section id capacity actor =
    update_row sections (λ _ _. false) (is_live_section id) (resized_section capacity actor)

abbrev pub get_section : Uuid → Query Section
get_section id = get_row sections (is_live_section id)

abbrev pub get_section_for_update : Uuid → Query Section
get_section_for_update id = get_row sections (is_live_section id)

abbrev pub count_section_teachers : Uuid → Query ℕ
count_section_teachers id = count_rows section_teachers (λ r. r.section_id == id)

abbrev pub deleted_section : Option Uuid → Db → Section → Section
deleted_section actor db s = record s {
  deleted_at = some db.now;
  updated_at = db.now;
  updated_by = actor;
}

abbrev pub soft_delete_section : Uuid → Option Uuid → Query ℕ
soft_delete_section id actor = mark_rows sections (is_live_section id) (deleted_section actor)

-- PRIMARY KEY (section_id, teacher_id), and two foreign keys.
abbrev pub is_assignment : Uuid → Uuid → SectionTeacher → Bool
is_assignment section teacher r = r.section_id == section && r.teacher_id == teacher

abbrev pub insert_section_teacher : Uuid → Uuid → Query SectionTeacher
insert_section_teacher section teacher =
    insert_row section_teachers (λ n. n)
      (λ db.
        any_of (λ s. s.id == section) db.sections
        && any_of (λ t. t.user_id == teacher) db.teacher_profiles)
      (is_assignment section teacher)
      (λ db. record { section_id = section; teacher_id = teacher; created_at = db.now })

abbrev pub delete_section_teacher : Uuid → Uuid → Query ℕ
delete_section_teacher section teacher =
    delete_rows section_teachers (is_assignment section teacher)
