-- ===== src/Catalog/Links.antt =====
-- backend/internal/catalog: what a live row refers to is live, and which statements keep that.
pub mod Courses
pub mod Terms
use infraestructura_y_servic.Base.{
  ℕ, suc, ◌≡◌, ◌≢◌, refl, Bool, true, false, Option, none, some, List, [], ◌∷◌, ◌==◌, arith, ◌&&◌,
  any_of, count_if, All, select, update_where, not, IsDistinct, IsBounded, IsBounded-suc,
  IsBounded-IsFresh, update-IsDistinct, update-IsBounded,
}
use infraestructura_y_servic.Base.Every.{
  All-weaken, All-both, All-update, All-select, count_none-All, any_of-update, any_of-cons,
}
use infraestructura_y_servic.Store.{
  Uuid, is_null, Section, Program, Course, AcademicPeriod, ProgramCourse, ProgramQuota, Db,
}
use infraestructura_y_servic.Catalog.Programs.{
  is_program, is_live_course, CreateProgramParams, renamed_program, is_quota_of, deleted_program,
  CreateCourseParams, renamed_course, is_section_of_course, deleted_course, is_association,
}
use infraestructura_y_servic.Catalog.Terms.{
  is_period, CreateAcademicPeriodParams, moved_period, is_section_of_period, deleted_period,
  is_quota, deleted_quota, has_year, replaced_quota, CreateProgramQuotaParams,
  UpdateProgramQuotaParams, resized_quota,
}
use infraestructura_y_servic.Catalog.Sections.{is_live_section, resized_section, deleted_section}

abbrev pub period_id : AcademicPeriod → ℕ
period_id p = p.id

-- A live section has a live course and a live period.
abbrev pub IsHeld : Db → Section → Type 0
IsHeld db s =
    is_null s.deleted_at ≡ true
    → (any_of (is_live_course s.course_id) db.courses ≡ true)
      × (any_of (is_period s.academic_period_id) db.academic_periods ≡ true)

-- The program and the course of an association are live.
abbrev pub IsJoined : Db → ProgramCourse → Type 0
IsJoined db r =
    (any_of (is_program r.program_id) db.programs ≡ true)
    × (any_of (is_live_course r.course_id) db.courses ≡ true)

-- A live quota has a live program.
abbrev pub IsFunded : Db → ProgramQuota → Type 0
IsFunded db q = is_null q.deleted_at ≡ true → any_of (is_program q.program_id) db.programs ≡ true

-- No live row refers to a soft-deleted one, and the ids of periods are distinct and spent.
pub record IsLinked (db : Db) : Type 0 where
  pub sections : All (IsHeld db) db.sections
  pub associations : All (IsJoined db) db.program_courses
  pub quotas : All (IsFunded db) db.program_quotas
  pub distinct : IsDistinct period_id db.academic_periods
  pub bounded : IsBounded period_id db.next_id db.academic_periods

module _ (db : Db) (v : IsLinked db) where
  -- A new program; `rows` has the programs that there were.
  pub programs-IsLinked :
      (rows : List Program) (next : ℕ)
      → ((x : Uuid) → any_of (is_program x) db.programs ≡ true → any_of (is_program x) rows ≡ true)
      → IsBounded period_id next db.academic_periods
      → IsLinked (record db { programs = rows; next_id = next })
  programs-IsLinked rows next keep bound = record {
    sections = v.sections;
    associations =
        All-weaken (IsJoined db) (IsJoined (record db { programs = rows; next_id = next }))
          db.program_courses (λ r h. (keep r.program_id h.0, h.1)) v.associations;
    quotas =
        All-weaken (IsFunded db) (IsFunded (record db { programs = rows; next_id = next }))
          db.program_quotas (λ q h live. keep q.program_id (h live)) v.quotas;
    distinct = v.distinct;
    bounded = bound;
  }

  pub insert_program-IsLinked :
      (p : Program) → IsLinked (record db { programs = p ∷ db.programs; next_id = suc db.next_id })
  insert_program-IsLinked p =
      programs-IsLinked (p ∷ db.programs) (suc db.next_id)
        (λ x h. any_of-cons (is_program x) p db.programs h)
        (IsBounded-suc period_id db.next_id db.academic_periods v.bounded)

  pub update_program-IsLinked :
      (p : Program → Bool) (a : CreateProgramParams) (actor : Option Uuid)
      → IsLinked (record db { programs = update_where p (renamed_program a actor db) db.programs })
  update_program-IsLinked p a actor =
      programs-IsLinked (update_where p (renamed_program a actor db) db.programs) db.next_id
        (λ x h.
          any_of-update (is_program x) p (renamed_program a actor db) db.programs (λ r e k. k) h)
        v.bounded

  -- A program that no association and no live quota refers to is deleted.
  pub delete_program-IsLinked :
      (id : Uuid) (actor : Option Uuid)
      → count_if (λ r. r.program_id == id) db.program_courses ≡ 0
      → count_if (is_quota_of id) db.program_quotas ≡ 0
      → IsLinked (record db {
        programs = update_where (is_program id) (deleted_program actor db) db.programs;
      })
  delete_program-IsLinked id actor no_courses no_quotas =
      let rows = update_where (is_program id) (deleted_program actor db) db.programs in
      let keep : (x : Uuid)
          → x == id ≡ false
          → any_of (is_program x) db.programs ≡ true
          → any_of (is_program x) rows ≡ true =
        λ x apart h.
          any_of-update (is_program x) (is_program id) (deleted_program actor db) db.programs
            (λ r e k. absurd (ground (arith, e, k, apart))) h in
      record {
        sections = v.sections;
        associations =
            All-weaken (λ r. IsJoined db r × ((r.program_id == id) ≡ false))
              (IsJoined (record db { programs = rows })) db.program_courses
              (λ r h. (keep r.program_id h.1 h.0.0, h.0.1))
              (All-both (IsJoined db) (λ r. (r.program_id == id) ≡ false) db.program_courses
                v.associations
                (count_none-All (λ r. r.program_id == id) db.program_courses no_courses));
        quotas =
            All-weaken (λ q. IsFunded db q × (is_quota_of id q ≡ false))
              (IsFunded (record db { programs = rows })) db.program_quotas
              (λ q h live. keep q.program_id (ground (arith, h.1, live)) (h.0 live))
              (All-both (IsFunded db) (λ q. is_quota_of id q ≡ false) db.program_quotas v.quotas
                (count_none-All (is_quota_of id) db.program_quotas no_quotas));
        distinct = v.distinct;
        bounded = v.bounded;
      }
