-- ===== src/SectionEnrollment/Admission.antt =====
-- backend/internal/sectionenrollment/repository.go: the rules of an inscription, and its effect on
-- the counts.
use infraestructura_y_servic.Base.{
  ◌+◌, ◌≡◌, ◌<◌, ◌⊎◌, inl, inr, subst, Bool, true, false, Option, none, some, arith, ◌==◌,
  if◌then◌else◌, count_if, count-update_exact, find_first-by_id, find_first-holds,
}
use infraestructura_y_servic.Store.{
  Uuid, in_progress, withdrawn, paid, Enrollment, SectionEnrollment, Db,
}
use infraestructura_y_servic.Driver.{Faults, ok, World}
use infraestructura_y_servic.SectionEnrollment.Queries.{
  has_key, find_key, is_active_in, active_seats, revived, section_row, SectionRow, find_enrollment,
  find_enrollment_of, in_program,
}
use infraestructura_y_servic.SectionEnrollment.Repository.{
  EnrollSectionParams, write, enroll_section_tx,
}
use infraestructura_y_servic.SectionEnrollment.Repository.Steps.{Enrolled}
use infraestructura_y_servic.SectionEnrollment.Repository.Effects.{
  write-ok_none, write-ok_some, enroll_section_tx-ok,
}
use infraestructura_y_servic.SectionEnrollment.Invariant.{IsSound, row_id}

-- No live row holds the key, or an administrator revives a withdrawn one.
abbrev pub IsVacant : Bool → Uuid → Uuid → Db → SectionEnrollment → Type 0
IsVacant is_admin enrollment section db row =
    (find_key enrollment section db.section_enrollments ≡ none)
    ⊎ ((r : SectionEnrollment) × (find_key enrollment section db.section_enrollments ≡ some r)
        × (r.status ≡ withdrawn)
        × (is_admin ≡ true)
        × (row.id ≡ r.id))

-- The rules of an inscription: the section stands, its window is open (or an administrator asks), a
-- paid enrollment of the section's year names a program that has the course, no live row holds the
-- key unless a withdrawn one is revived by an administrator, and a seat is left.
pub record Granted (p : EnrollSectionParams) (is_admin : Bool) (db : Db) (row : SectionEnrollment)
    : Type 0 where
  pub section : SectionRow
  pub enrollment : Enrollment
  pub found : section_row p.section_id db ≡ some section
  pub window : (is_admin ≡ true) ⊎ (section.window_open ≡ true)
  pub is_paid : enrollment.status ≡ paid
  pub by_id : is_admin ≡ true → find_enrollment p.enrollment_id db ≡ some enrollment
  pub of_year : is_admin ≡ true → enrollment.year ≡ section.period_year
  pub by_student :
      is_admin ≡ false
      → find_enrollment_of p.student_id p.program_id section.period_year db ≡ some enrollment
  pub course : in_program enrollment.program_id section.course_id db ≡ true
  pub key : IsVacant is_admin enrollment.id p.section_id db row
  pub seats : active_seats p.section_id db.section_enrollments < section.capacity
  pub of_enrollment : row.enrollment_id ≡ enrollment.id
  pub of_section : row.section_id ≡ p.section_id
  pub is_active : row.status ≡ in_progress

-- The row that `write` returns, and the count it leaves.
record Written (is_admin : Bool) (enrollment section : Uuid) (db db' : Db) (row : SectionEnrollment)
    : Type 0 where
  key_of : (row.enrollment_id ≡ enrollment) × (row.section_id ≡ section)
  active : row.status ≡ in_progress
  vacant : IsVacant is_admin enrollment section db row
  counts :
      (s : Uuid)
      → active_seats s db'.section_enrollments
        ≡ active_seats s db.section_enrollments + (if section == s then 1 else 0)

Enrolled-Written :
    (faults : Faults) (p : EnrollSectionParams) (is_admin : Bool) (w : World) {w' : World}
    {row : SectionEnrollment} (g : Enrolled faults p is_admin w (ok row, w'))
    → IsSound w.db
    → Written is_admin g.link.enrollment_id p.section_id w.db w'.db row
unfolding count_if find_key
Enrolled-Written faults p is_admin w {w'} {row} g v = elim g.key [
  | inl (free, fresh) ↦
      let (_, is, moved) = write-ok_none faults w g.link.enrollment_id p.section_id (
        subst
          (λ (u : Option Uuid). write faults g.link.enrollment_id p.section_id u w ≡ (ok row, w'))
          fresh g.written) in
      record {
        key_of = (ground arith, ground arith);
        active = ground arith;
        vacant = inl free;
        counts = λ s. ground arith;
      }
  | inr (r, held, was, by, old) ↦
      let (r', at, is, moved) = write-ok_some faults w g.link.enrollment_id p.section_id r.id (
        subst
          (λ (u : Option Uuid). write faults g.link.enrollment_id p.section_id u w ≡ (ok row, w'))
          old g.written) in
      let same =
        find_first-by_id row_id (has_key g.link.enrollment_id p.section_id) w.db.section_enrollments
          {r = r} v.distinct held in
      let holds : has_key g.link.enrollment_id p.section_id r ≡ true =
        find_first-holds (has_key g.link.enrollment_id p.section_id) w.db.section_enrollments
          held in
      let q1 : r' ≡ r = ground arith in
      record {
        key_of = (ground arith, ground arith);
        active = ground arith;
        vacant = inr (r, held, was, by, ground arith);
        counts = λ s. ground (
          arith,
          count-update_exact row_id (is_active_in s) (has_key g.link.enrollment_id p.section_id)
              (revived w.db.now) w.db.section_enrollments {r = r} v.distinct held,
        );
      }
]

module _ (faults : Faults) (p : EnrollSectionParams) (is_admin : Bool) (w : World) {w' : World}
    {row : SectionEnrollment} (v : IsSound w.db)
    (h : enroll_section_tx faults p is_admin w ≡ (ok row, w')) where
  -- On a sound table, an enrollment that goes through, whatever the driver does, meets every rule
  -- of an inscription, and returns an active row of the section and the enrollment that it resolved.
  pub enroll_section_tx-Granted : Granted p is_admin w.db row
  enroll_section_tx-Granted =
      let g = enroll_section_tx-ok faults p is_admin w h in
      let e = g.eligible.resolved in
      let q1 : g.link.enrollment_id ≡ e.enrollment.id = ground arith in
      let o = Enrolled-Written faults p is_admin w g v in
      record {
        section = g.section;
        enrollment = e.enrollment;
        found = g.eligible.found;
        window = g.eligible.window;
        is_paid = e.is_paid;
        by_id = e.by_id;
        of_year = e.of_year;
        by_student = e.by_student;
        course = ground arith;
        key = subst (λ (n : Uuid). IsVacant is_admin n p.section_id w.db row) q1 o.vacant;
        seats = g.seats;
        of_enrollment = ground arith;
        of_section = o.key_of.1;
        is_active = o.active;
      }

  -- On a sound table, an enrollment that goes through, whatever the driver does, takes exactly one
  -- seat of its section and none of another.
  pub enroll_section_tx-active_seats :
      (s : Uuid)
      → active_seats s w'.db.section_enrollments
        ≡ active_seats s w.db.section_enrollments + (if p.section_id == s then 1 else 0)
  enroll_section_tx-active_seats =
      (Enrolled-Written faults p is_admin w (enroll_section_tx-ok faults p is_admin w h) v).counts
