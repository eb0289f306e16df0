-- ===== src/Catalog/Terms.antt =====
-- backend/internal/catalog/query.sql: the statements on academic periods and program quotas.
use infraestructura_y_servic.Base.{
  ℕ, suc, Bool, true, not, ◌&&◌, Option, none, some, ◌∷◌, ◌==◌, find_first, any_of, update_where,
  if◌then◌else◌,
}
use infraestructura_y_servic.Store.{Uuid, Date, is_null, AcademicPeriod, ProgramQuota, Section, Db}
use infraestructura_y_servic.Driver.{fk_violation, ok, err, Query}
use infraestructura_y_servic.Catalog.Tables.{
  academic_periods, program_quotas, sections, get_row, count_rows, insert_row, update_row,
  mark_rows,
}

abbrev pub is_period : Uuid → AcademicPeriod → Bool
is_period id p = p.id == id && is_null p.deleted_at

pub record CreateAcademicPeriodParams : Type 0 where
  pub year : ℕ
  pub term : ℕ
  pub start_date : Date
  pub end_date : Date

-- The columns of UNIQUE (year, term).
abbrev pub has_term : CreateAcademicPeriodParams → AcademicPeriod → Bool
has_term p r = r.year == p.year && r.term == p.term

abbrev pub fresh_period : CreateAcademicPeriodParams → Db → AcademicPeriod
fresh_period p db = record {
  id = db.next_id;
  year = p.year;
  term = p.term;
  start_date = p.start_date;
  end_date = p.end_date;
  created_at = db.now;
  updated_at = db.now;
  deleted_at = none;
  enrollment_starts_at = none;
  enrollment_ends_at = none;
}

abbrev pub insert_academic_period : CreateAcademicPeriodParams → Query AcademicPeriod
insert_academic_period p = insert_row academic_periods suc (λ _. true) (has_term p) (fresh_period p)

abbrev pub moved_period : CreateAcademicPeriodParams → Db → AcademicPeriod → AcademicPeriod
moved_period p db r = record r {
  year = p.year;
  term = p.term;
  start_date = p.start_date;
  end_date = p.end_date;
  updated_at = db.now;
}

abbrev pub update_academic_period : Uuid → CreateAcademicPeriodParams → Query AcademicPeriod
update_academic_period id p =
    update_row academic_periods (λ _ r. not (r.id == id) && has_term p r) (is_period id)
      (moved_period p)

abbrev pub get_academic_period : Uuid → Query AcademicPeriod
get_academic_period id = get_row academic_periods (is_period id)

abbrev pub get_academic_period_for_update : Uuid → Query AcademicPeriod
get_academic_period_for_update id = get_row academic_periods (is_period id)

abbrev pub is_section_of_period : Uuid → Section → Bool
is_section_of_period id s = s.academic_period_id == id && is_null s.deleted_at

abbrev pub count_live_sections_by_academic_period : Uuid → Query ℕ
count_live_sections_by_academic_period id = count_rows sections (is_section_of_period id)

abbrev pub deleted_period : Db → AcademicPeriod → AcademicPeriod
deleted_period db r = record r { deleted_at = some db.now; updated_at = db.now }

abbrev pub soft_delete_academic_period : Uuid → Query ℕ
soft_delete_academic_period id = mark_rows academic_periods (is_period id) deleted_period

abbrev pub is_quota : Uuid → ProgramQuota → Bool
is_quota id q = q.id == id && is_null q.deleted_at

pub record CreateProgramQuotaParams : Type 0 where
  pub program_id : Uuid
  pub year : ℕ
  pub capacity : ℕ

-- The columns of UNIQUE (program_id, year).
abbrev pub has_year : Uuid → ℕ → ProgramQuota → Bool
has_year program year q = q.program_id == program && q.year == year

abbrev pub fresh_quota : CreateProgramQuotaParams → Option Uuid → Db → ProgramQuota
fresh_quota p actor db = record {
  id = db.next_id;
  program_id = p.program_id;
  year = p.year;
  capacity = p.capacity;
  created_at = db.now;
  updated_at = db.now;
  deleted_at = none;
  created_by = actor;
  updated_by = actor;
}

-- ON CONFLICT (program_id, year) DO UPDATE, which also revives a soft-deleted row.
abbrev pub replaced_quota :
    CreateProgramQuotaParams → Option Uuid → Db → ProgramQuota → ProgramQuota
replaced_quota p actor db q = record q {
  capacity = p.capacity;
  updated_at = db.now;
  updated_by = actor;
  deleted_at = none;
}

unfoldable pub upsert_program_quota : CreateProgramQuotaParams → Option Uuid → Query ProgramQuota
upsert_program_quota p actor db =
    elim (find_first (has_year p.program_id p.year) db.program_quotas) [
      | some q ↦ (
        ok (replaced_quota p actor db q),
        record db {
          program_quotas =
              update_where (has_year p.program_id p.year) (replaced_quota p actor db)
                db.program_quotas;
        },
      )
      | none ↦
          if any_of (λ r. r.id == p.program_id) db.programs
          then (
            ok (fresh_quota p actor db),
            record db {
              program_quotas = fresh_quota p actor db ∷ db.program_quotas;
              next_id = suc db.next_id;
            },
          )
          else (err fk_violation, db)
    ]

pub record UpdateProgramQuotaParams : Type 0 where
  pub year : ℕ
  pub capacity : ℕ

abbrev pub resized_quota : UpdateProgramQuotaParams → Option Uuid → Db → ProgramQuota → ProgramQuota
resized_quota p actor db q = record q {
  year = p.year;
  capacity = p.capacity;
  updated_at = db.now;
  updated_by = actor;
}

abbrev pub update_program_quota : Uuid → UpdateProgramQuotaParams → Option Uuid → Query ProgramQuota
update_program_quota id p actor =
    update_row program_quotas (λ q r. not (r.id == id) && has_year q.program_id p.year r)
      (is_quota id) (resized_quota p actor)

abbrev pub get_program_quota : Uuid → Query ProgramQuota
get_program_quota id = get_row program_quotas (is_quota id)

abbrev pub deleted_quota : Option Uuid → Db → ProgramQuota → ProgramQuota
deleted_quota actor db q = record q {
  deleted_at = some db.now;
  updated_at = db.now;
  updated_by = actor;
}

abbrev pub soft_delete_program_quota : Uuid → Option Uuid → Query ℕ
soft_delete_program_quota id actor = mark_rows program_quotas (is_quota id) (deleted_quota actor)
