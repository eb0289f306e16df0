-- ===== src/SectionEnrollment/Enrollable/Completeness.antt =====
-- backend/internal/sectionenrollment: the sections that `EnrollSectionTx` admits, against the list of
-- `ListEnrollableSections`.
use infraestructura_y_servic.Base.{
  ◌≡◌, refl, inl, inr, Bool, true, false, ◌&&◌, Option, none, some, List, [], ◌∷◌, ◌==◌, arith,
  find_first, select, any_of, Option-cases, Bool-cases, if◌then◌else◌,
}
use infraestructura_y_servic.Base.Joins.{
  In, each-In, select-In, In-find_first, In-any_of, In-find_none,
}
use infraestructura_y_servic.Store.{Uuid, is_null, Section, AcademicPeriod, SectionEnrollment, Db}
use infraestructura_y_servic.Driver.{Faults, ok, World}
use infraestructura_y_servic.SectionEnrollment.Queries.{
  is_section, find_section, SectionRow, is_open, section_row, find_enrollment_of, in_program,
  has_key, find_key,
}
use infraestructura_y_servic.SectionEnrollment.Invariant.{IsSound}
use infraestructura_y_servic.SectionEnrollment.Repository.{enroll_section_tx}
use infraestructura_y_servic.SectionEnrollment.Admission.{enroll_section_tx-Granted}
use infraestructura_y_servic.SectionEnrollment.Enrollable.{
  EnrollableRow, is_paid_of, is_course, is_section_of, is_period_of, is_own_seat, is_free, row_of,
  enrollable,
}
use infraestructura_y_servic.SectionEnrollment.Enrollable.Agreement.{own_params, Joined}

only_row-In : (b : Bool) (x y : EnrollableRow) → b ≡ true → x ≡ y → In x (if b then y ∷ [] else [])
only_row-In true x y e q = inl q
only_row-In false x y e q = absurd (ground arith)

-- The rows of a join give a listed row.
enrollable-In :
    (student : Uuid) (token : Option Uuid) (db : Db) (row : EnrollableRow)
    → Joined student token db row
    → In row (enrollable student token db)
unfolding enrollable
enrollable-In student token db row j =
    each-In j.e row (select (is_paid_of student) db.enrollments) _
      (select-In (is_paid_of student) j.e db.enrollments j.in_e j.is_e)
      (each-In j.pc row (select (λ x. x.program_id == j.e.program_id) db.program_courses) _
        (select-In (λ x. x.program_id == j.e.program_id) j.pc db.program_courses j.in_pc j.is_pc)
        (each-In j.c row (select (is_course j.pc.course_id) db.courses) _
          (select-In (is_course j.pc.course_id) j.c db.courses j.in_c j.is_c)
          (each-In j.s row (select (is_section_of token j.c.id) db.sections) _
            (select-In (is_section_of token j.c.id) j.s db.sections j.in_s j.is_s)
            (each-In j.p row (select (is_period_of db j.e j.s) db.academic_periods) _
              (select-In (is_period_of db j.e j.s) j.p db.academic_periods j.in_p j.is_p)
              (only_row-In (is_free db j.e j.s) row (row_of db j.pc j.c j.s j.p j.e) j.free
                j.is_row)))))

-- The course of a section and its period are not deleted, and the course is in the catalog.
pub record IsOffered (section : Uuid) (db : Db) : Type 0 where
  pub course :
      (s : Section)
      → find_section section db ≡ some s
      → any_of (is_course s.course_id) db.courses ≡ true
  pub period :
      (s : Section) (p : AcademicPeriod)
      → find_section section db ≡ some s
      → find_first (λ x. x.id == s.academic_period_id) db.academic_periods ≡ some p
      → p.deleted_at ≡ none

-- The rows that a section row is joined from.
section_row-rows :
    (section : Uuid) (db : Db) (row : SectionRow)
    → section_row section db ≡ some row
    → (s : Section) × (p : AcademicPeriod) × (find_section section db ≡ some s)
      × (find_first (λ x. x.id == s.academic_period_id) db.academic_periods ≡ some p)
      × (row.course_id ≡ s.course_id)
      × (row.capacity ≡ s.capacity)
      × (row.period_year ≡ p.year)
      × (row.window_open ≡ is_open db.now p)
section_row-rows section db row h = elim (Option-cases (find_section section db)) [
  | inl n ↦ absurd (ground (arith, n))
  | inr (s, f) ↦
      elim (Option-cases (find_first (λ x. x.id == s.academic_period_id) db.academic_periods)) [
        | inl n ↦ absurd (ground (arith, n, f))
        | inr (p, g) ↦ (s, p, f, g, ground arith, ground arith, ground arith, ground arith)
      ]
]

-- Without a live row of its key, an enrollment holds no seat of the section.
find_key-free :
    (e section : Uuid) (rows : List SectionEnrollment)
    → find_key e section rows ≡ none
    → any_of (is_own_seat e section) rows ≡ false
unfolding find_key
find_key-free e section rows h = elim (Bool-cases (any_of (is_own_seat e section) rows)) [
  | inl b ↦
      let (r, there, own) = In-any_of (is_own_seat e section) rows b in
      let key = In-find_none (has_key e section) r rows there h in absurd (ground (arith, own, key))
  | inr b ↦ b
]

-- A section in which a student enrolls, whatever the driver does, was listed for that student and
-- program, where the table is sound and neither its course nor its period is deleted.
pub enrolled-listed :
    (faults : Faults) (student section program : Uuid) (w : World) {w' : World}
    {row : SectionEnrollment}
    → IsSound w.db
    → IsOffered section w.db
    → enroll_section_tx faults (own_params student section program) false w ≡ (ok row, w')
    → (x : EnrollableRow) × In x (enrollable student none w.db)
      × (x.section_id ≡ section)
      × (x.program_id ≡ program)
unfolding enrollable find_section find_enrollment_of in_program
enrolled-listed faults student section program w v o h =
    let g = enroll_section_tx-Granted faults (own_params student section program) false w v h in
    let (s, p, f, find, q1, q2, q3, q4) = section_row-rows section w.db g.section g.found in
    let e = g.enrollment in
    let (in_s, is_s) = In-find_first (is_section section) w.db.sections f in
    let (in_p, is_p) =
      In-find_first (λ x. x.id == s.academic_period_id) w.db.academic_periods find in
    let (in_e, is_e) =
      In-find_first
        (λ x.
          x.student_id == student
          && (x.program_id == program && (x.year == g.section.period_year && is_null x.deleted_at)))
        w.db.enrollments (g.by_student refl) in
    let (pc, in_pc, is_pc) =
      In-any_of (λ x. x.program_id == e.program_id && x.course_id == g.section.course_id)
        w.db.program_courses g.course in
    let (c, in_c, is_c) = In-any_of (is_course s.course_id) w.db.courses (o.course s f) in
    let alive = o.period s p f find in
    let vacant : find_key e.id section w.db.section_enrollments ≡ none = elim g.key [
      | inl n ↦ n
      | inr (_, _, _, admin, _) ↦ absurd (ground (arith, admin))
    ] in
    let own = find_key-free e.id section w.db.section_enrollments vacant in
    let open_window : g.section.window_open ≡ true = elim g.window [
      | inl admin ↦ absurd (ground (arith, admin))
      | inr is ↦ is
    ] in
    (
      row_of w.db pc c s p e,
      enrollable-In student none w.db (row_of w.db pc c s p e) (record {
        e = e;
        pc = pc;
        c = c;
        s = s;
        p = p;
        in_e = in_e;
        is_e = ground (arith, is_e, g.is_paid);
        in_pc = in_pc;
        is_pc = ground (arith, is_pc);
        in_c = in_c;
        is_c = ground (arith, is_c, is_pc, q1);
        in_s = in_s;
        is_s = ground (arith, is_s, is_c);
        in_p = in_p;
        is_p = ground (arith, is_p, alive, is_e, q3, q4, open_window);
        free = ground (arith, g.seats, q2, own, is_s);
        is_row = refl;
      }),
      ground (arith, is_s),
      ground (arith, is_e),
    )
