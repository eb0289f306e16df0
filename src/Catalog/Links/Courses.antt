-- ===== src/Catalog/Links/Courses.antt =====
-- backend/internal/catalog: the statements on courses and associations keep the links.
use infraestructura_y_servic.Base.{
  ℕ, suc, ◌≡◌, Bool, true, false, Option, List, ◌∷◌, ◌==◌, arith, any_of, count_if, select,
  update_where, IsBounded, IsBounded-suc,
}
use infraestructura_y_servic.Base.Every.{
  All-weaken, All-both, All-select, count_none-All, any_of-update, any_of-cons,
}
use infraestructura_y_servic.Store.{Uuid, Course, ProgramCourse, Db}
use infraestructura_y_servic.Catalog.Programs.{
  is_live_course, CreateCourseParams, renamed_course, is_section_of_course, deleted_course,
}
use infraestructura_y_servic.Catalog.Links.{IsLinked, IsHeld, IsJoined, period_id}

module _ (db : Db) (v : IsLinked db) where
  pub courses-IsLinked :
      (rows : List Course) (next : ℕ)
      → ((x : Uuid)
          → any_of (is_live_course x) db.courses ≡ true
          → any_of (is_live_course x) rows ≡ true)
      → IsBounded period_id next db.academic_periods
      → IsLinked (record db { courses = rows; next_id = next })
  courses-IsLinked rows next keep bound = record {
    sections =
        All-weaken (IsHeld db) (IsHeld (record db { courses = rows; next_id = next })) db.sections
          (λ s h live. (keep s.course_id (h live).0, (h live).1)) v.sections;
    associations =
        All-weaken (IsJoined db) (IsJoined (record db { courses = rows; next_id = next }))
          db.program_courses (λ r h. (h.0, keep r.course_id h.1)) v.associations;
    quotas = v.quotas;
    distinct = v.distinct;
    bounded = bound;
  }

  pub insert_course-IsLinked :
      (c : Course) → IsLinked (record db { courses = c ∷ db.courses; next_id = suc db.next_id })
  insert_course-IsLinked c =
      courses-IsLinked (c ∷ db.courses) (suc db.next_id)
        (λ x h. any_of-cons (is_live_course x) c db.courses h)
        (IsBounded-suc period_id db.next_id db.academic_periods v.bounded)

  pub update_course-IsLinked :
      (p : Course → Bool) (a : CreateCourseParams) (actor : Option Uuid)
      → IsLinked (record db { courses = update_where p (renamed_course a actor db) db.courses })
  update_course-IsLinked p a actor =
      courses-IsLinked (update_where p (renamed_course a actor db) db.courses) db.next_id
        (λ x h.
          any_of-update (is_live_course x) p (renamed_course a actor db) db.courses (λ r e k. k) h)
        v.bounded

  -- A course that no association and no live section refers to is deleted.
  pub delete_course-IsLinked :
      (id : Uuid) (actor : Option Uuid)
      → count_if (λ r. r.course_id == id) db.program_courses ≡ 0
      → count_if (is_section_of_course id) db.sections ≡ 0
      → IsLinked (record db {
        courses = update_where (is_live_course id) (deleted_course actor db) db.courses;
      })
  delete_course-IsLinked id actor no_programs no_sections =
      let rows = update_where (is_live_course id) (deleted_course actor db) db.courses in
      let keep : (x : Uuid)
          → x == id ≡ false
          → any_of (is_live_course x) db.courses ≡ true
          → any_of (is_live_course x) rows ≡ true =
        λ x apart h.
          any_of-update (is_live_course x) (is_live_course id) (deleted_course actor db) db.courses
            (λ r e k. absurd (ground (arith, e, k, apart))) h in
      record {
        sections =
            All-weaken (λ s. IsHeld db s × (is_section_of_course id s ≡ false))
              (IsHeld (record db { courses = rows })) db.sections
              (λ s h live.
                (keep s.course_id (ground (arith, h.1, live)) (h.0 live).0, (h.0 live).1))
              (All-both (IsHeld db) (λ s. is_section_of_course id s ≡ false) db.sections v.sections
                (count_none-All (is_section_of_course id) db.sections no_sections));
        associations =
            All-weaken (λ r. IsJoined db r × ((r.course_id == id) ≡ false))
              (IsJoined (record db { courses = rows })) db.program_courses
              (λ r h. (h.0.0, keep r.course_id h.1 h.0.1))
              (All-both (IsJoined db) (λ r. (r.course_id == id) ≡ false) db.program_courses
                v.associations
                (count_none-All (λ r. r.course_id == id) db.program_courses no_programs));
        quotas = v.quotas;
        distinct = v.distinct;
        bounded = v.bounded;
      }

  -- An association of a live program and a live course.
  pub insert_program_course-IsLinked :
      (r : ProgramCourse)
      → IsJoined db r
      → IsLinked (record db { program_courses = r ∷ db.program_courses })
  insert_program_course-IsLinked r h = record {
    sections = v.sections;
    associations = (h, v.associations);
    quotas = v.quotas;
    distinct = v.distinct;
    bounded = v.bounded;
  }

  pub delete_program_course-IsLinked :
      (p : ProgramCourse → Bool)
      → IsLinked (record db { program_courses = select p db.program_courses })
  delete_program_course-IsLinked p = record {
    sections = v.sections;
    associations = All-select (IsJoined db) p db.program_courses v.associations;
    quotas = v.quotas;
    distinct = v.distinct;
    bounded = v.bounded;
  }
