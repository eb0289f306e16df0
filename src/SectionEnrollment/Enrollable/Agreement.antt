-- ===== src/SectionEnrollment/Enrollable/Agreement.antt =====
-- backend/internal/sectionenrollment: the sections that `ListEnrollableSections` lists, against what
-- `EnrollSectionTx` does.
use infraestructura_y_servic.Base.{
  ℕ, ◌≤◌, ◌≡◌, refl, sym, ◌⊎◌, inl, inr, subst, Bool, true, false, ◌&&◌, Option, some, [], ◌∷◌,
  ◌==◌, arith, count_if, select, Option-cases, Bool-cases, if◌then◌else◌,
}
use infraestructura_y_servic.Base.Joins.{
  In, In-each, In-select, find_first-In, In-find_first, any_of-In,
}
use infraestructura_y_servic.Store.{
  Uuid, is_null, Section, AcademicPeriod, Course, ProgramCourse, Enrollment, withdrawn,
  SectionEnrollment, Db,
}
use infraestructura_y_servic.Driver.{no_faults, ok, err, World}
use infraestructura_y_servic.SectionEnrollment.Errors.{withdrawn_not_revivable}
use infraestructura_y_servic.SectionEnrollment.Queries.{
  is_section, find_section, SectionRow, is_open, section_row, find_enrollment_of, in_program,
  has_key, find_key, fresh_row, is_withdrawn,
}
use infraestructura_y_servic.SectionEnrollment.Repository.{EnrollSectionParams, enroll_section_tx}
use infraestructura_y_servic.SectionEnrollment.Repository.Progress.{
  enroll_section_tx-progress, enroll_section_tx-not_revivable,
}
use infraestructura_y_servic.SectionEnrollment.Enrollable.{
  EnrollableRow, is_paid_of, is_course, is_section_of, is_period_of, is_own_seat, is_free, row_of,
  enrollable,
}

-- Primary keys, and UNIQUE (student_id, program_id, year).
pub record IsKeyed (db : Db) : Type 0 where
  pub sections : (id : Uuid) → count_if (is_section id) db.sections ≤ 1
  pub periods : (id : Uuid) → count_if (λ p. p.id == id) db.academic_periods ≤ 1
  pub enrollments :
      (student program : Uuid) (year : ℕ)
      → count_if
          (λ e.
            e.student_id == student
            && (e.program_id == program && (e.year == year && is_null e.deleted_at)))
          db.enrollments
        ≤ 1

-- The rows that a listed row is joined from.
pub record Joined (student : Uuid) (token : Option Uuid) (db : Db) (row : EnrollableRow)
    : Type 0 where
  pub e : Enrollment
  pub pc : ProgramCourse
  pub c : Course
  pub s : Section
  pub p : AcademicPeriod
  pub in_e : In e db.enrollments
  pub is_e : is_paid_of student e ≡ true
  pub in_pc : In pc db.program_courses
  pub is_pc : (pc.program_id == e.program_id) ≡ true
  pub in_c : In c db.courses
  pub is_c : is_course pc.course_id c ≡ true
  pub in_s : In s db.sections
  pub is_s : is_section_of token c.id s ≡ true
  pub in_p : In p db.academic_periods
  pub is_p : is_period_of db e s p ≡ true
  pub free : is_free db e s ≡ true
  pub is_row : row ≡ row_of db pc c s p e

only_row : (b : Bool) (x y : EnrollableRow) → In x (if b then y ∷ [] else []) → (b ≡ true) × (x ≡ y)
only_row true x y (inl q) = (refl, q)
only_row true x y (inr h) = absurd h
only_row false x y h = absurd h

In-enrollable :
    (student : Uuid) (token : Option Uuid) (db : Db) (row : EnrollableRow)
    → In row (enrollable student token db)
    → Joined student token db row
unfolding enrollable
In-enrollable student token db row h =
    let (e, a1, h1) = In-each row (select (is_paid_of student) db.enrollments) _ h in
    let (pc, a2, h2) =
      In-each row (select (λ x. x.program_id == e.program_id) db.program_courses) _ h1 in
    let (c, a3, h3) = In-each row (select (is_course pc.course_id) db.courses) _ h2 in
    let (s, a4, h4) = In-each row (select (is_section_of token c.id) db.sections) _ h3 in
    let (p, a5, h5) = In-each row (select (is_period_of db e s) db.academic_periods) _ h4 in
    let (in_e, is_e) = In-select (is_paid_of student) e db.enrollments a1 in
    let (in_pc, is_pc) = In-select (λ x. x.program_id == e.program_id) pc db.program_courses a2 in
    let (in_c, is_c) = In-select (is_course pc.course_id) c db.courses a3 in
    let (in_s, is_s) = In-select (is_section_of token c.id) s db.sections a4 in
    let (in_p, is_p) = In-select (is_period_of db e s) p db.academic_periods a5 in
    let (free, is_row) = only_row (is_free db e s) row (row_of db pc c s p e) h5 in
    record {
      e = e;
      pc = pc;
      c = c;
      s = s;
      p = p;
      in_e = in_e;
      is_e = is_e;
      in_pc = in_pc;
      is_pc = is_pc;
      in_c = in_c;
      is_c = is_c;
      in_s = in_s;
      is_s = is_s;
      in_p = in_p;
      is_p = is_p;
      free = free;
      is_row = is_row;
    }

abbrev pub own_params : Uuid → Uuid → Uuid → EnrollSectionParams
own_params student section program = record {
  section_id = section;
  enrollment_id = 0;
  student_id = student;
  program_id = program;
}

module _ (student : Uuid) (token : Option Uuid) (w : World) (row : EnrollableRow) (k : IsKeyed w.db)
    (j : Joined student token w.db row) where
  abbrev of_section : SectionRow
  of_section = record {
    capacity = j.s.capacity;
    course_id = j.s.course_id;
    period_year = j.p.year;
    window_open = is_open w.db.now j.p;
  }

  section_found : section_row j.s.id w.db ≡ some of_section
  unfolding find_section
  section_found =
      let f =
        find_first-In (is_section j.s.id) j.s w.db.sections (k.sections j.s.id) j.in_s
          (ground (arith, j.is_s)) in
      let g =
        find_first-In (λ p. p.id == j.s.academic_period_id) j.p w.db.academic_periods
          (k.periods j.s.academic_period_id) j.in_p (ground (arith, j.is_p)) in
      ground (arith, f, g)

  enrollment_found : find_enrollment_of student j.e.program_id j.p.year w.db ≡ some j.e
  unfolding find_enrollment_of
  enrollment_found =
      find_first-In
        (λ e.
          e.student_id == student
          && (e.program_id == j.e.program_id && (e.year == j.p.year && is_null e.deleted_at)))
        j.e w.db.enrollments (k.enrollments student j.e.program_id j.p.year) j.in_e
        (ground (arith, j.is_e, j.is_p))

  course_found : in_program j.e.program_id j.s.course_id w.db ≡ true
  unfolding in_program
  course_found =
      any_of-In (λ pc. pc.program_id == j.e.program_id && pc.course_id == j.s.course_id) j.pc
        w.db.program_courses j.in_pc (ground (arith, j.is_pc, j.is_c, j.is_s))

  -- The only live row that the student can hold there is a withdrawn one.
  held_withdrawn :
      (r : SectionEnrollment)
      → find_key j.e.id j.s.id w.db.section_enrollments ≡ some r
      → r.status ≡ withdrawn
  unfolding find_key
  held_withdrawn r f =
      let (there, key) = In-find_first (has_key j.e.id j.s.id) w.db.section_enrollments f in
      elim (Bool-cases (is_withdrawn r.status)) [
        | inl e ↦ ground arith
        | inr e ↦
            let own =
              any_of-In (is_own_seat j.e.id j.s.id) r w.db.section_enrollments there
                (ground (arith, key)) in
            absurd (ground (arith, own, j.free))
      ]

  joined_enrolls :
      ((r : SectionEnrollment) × ((enroll_section_tx no_faults
            (own_params student j.s.id j.e.program_id)
            false
            w).0
          ≡ ok r)
        × (r.section_id ≡ j.s.id))
      ⊎ ((enroll_section_tx no_faults (own_params student j.s.id j.e.program_id) false w).0
          ≡ err withdrawn_not_revivable)
  unfolding find_key
  joined_enrolls = elim (Option-cases (find_key j.e.id j.s.id w.db.section_enrollments)) [
    | inl n ↦ inl (
      fresh_row j.e.id j.s.id w.db,
      enroll_section_tx-progress (own_params student j.s.id j.e.program_id) w of_section j.e
          section_found (ground (arith, j.is_e)) course_found (ground (arith, j.free))
          (ground (arith, j.is_p)) enrollment_found n,
      refl,
    )
    | inr (r, f) ↦ inr (
        enroll_section_tx-not_revivable (own_params student j.s.id j.e.program_id) w of_section j.e
          section_found (ground (arith, j.is_e)) course_found (ground (arith, j.free)) r
          (ground (arith, j.is_p)) enrollment_found f (held_withdrawn r f))
  ]

-- A listed section is one that the student can enroll in: the enrollment returns a new row of the
-- section, unless the student has withdrawn from it before, which is refused as such.
pub enrollable-enrolls :
    (student : Uuid) (token : Option Uuid) (w : World) (row : EnrollableRow)
    → IsKeyed w.db
    → In row (enrollable student token w.db)
    → ((r : SectionEnrollment) × ((enroll_section_tx no_faults
            (own_params student row.section_id row.program_id)
            false
            w).0
          ≡ ok r)
        × (r.section_id ≡ row.section_id))
      ⊎ ((enroll_section_tx no_faults (own_params student row.section_id row.program_id) false w).0
          ≡ err withdrawn_not_revivable)
enrollable-enrolls student token w row k h =
    let j = In-enrollable student token w.db row h in
    let q : row ≡ row_of w.db j.pc j.c j.s j.p j.e = j.is_row in
    subst
      (λ (x : EnrollableRow).
        ((r : SectionEnrollment) × ((enroll_section_tx no_faults
              (own_params student x.section_id x.program_id) false w).0
            ≡ ok r)
          × (r.section_id ≡ x.section_id))
        ⊎ ((enroll_section_tx no_faults (own_params student x.section_id x.program_id) false w).0
            ≡ err withdrawn_not_revivable))
      (sym q) (joined_enrolls student token w row k j)
