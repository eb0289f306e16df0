-- ===== src/SectionEnrollment/Repository/Progress.antt =====
-- backend/internal/sectionenrollment/repository.go: runs of `EnrollSectionTx` whose driver answers.
use infraestructura_y_servic.Base.{◌≡◌, ◌<◌, Bool, true, false, none, some, arith, ◌==◌, find_first}
use infraestructura_y_servic.Store.{Uuid, Status, withdrawn, paid, Enrollment, SectionEnrollment}
use infraestructura_y_servic.Driver.{no_faults, ok, err, World}
use infraestructura_y_servic.SectionEnrollment.Errors.{withdrawn_not_revivable}
use infraestructura_y_servic.SectionEnrollment.Queries.{
  SectionRow, section_row, active_seats, find_enrollment, find_enrollment_of, in_program, find_key,
  fresh_row, revived, insert_section_enrollment, revive_section_enrollment, can_settle, settled,
  set_section_enrollment_outcome,
}
use infraestructura_y_servic.SectionEnrollment.Repository.Effects.{with_update}
use infraestructura_y_servic.Platform.Pgconv.{Numeric}
use infraestructura_y_servic.SectionEnrollment.Repository.{
  EnrollSectionParams, pre_check, pre_check_count, set_lock_timeout, lock_section, lock_key, write,
  eligibility, enroll_body, window_gate, resolve, program_gate, seat_gate, take_seat, classify,
  locked_section, linked, enroll_section_tx, existing_row, set_section_enrollment_outcome_tx,
  outcome_result,
}

module _ (p : EnrollSectionParams) (w : World) (s : SectionRow) (e : Enrollment)
    (found : section_row p.section_id w.db ≡ some s) (is_paid : e.status ≡ paid)
    (course : in_program e.program_id s.course_id w.db ≡ true)
    (room : active_seats p.section_id w.db.section_enrollments < s.capacity) where
  pre_check-passes : pre_check no_faults p.section_id w ≡ (ok tt, w)
  unfolding pre_check pre_check_count
  pre_check-passes = ground arith

  take_seat-passes :
      (is_admin : Bool)
      → find_key e.id p.section_id w.db.section_enrollments ≡ none
      → (take_seat no_faults p.section_id is_admin (s, linked e) w).0
        ≡ ok (fresh_row e.id p.section_id w.db)
  unfolding take_seat lock_key classify seat_gate write insert_section_enrollment
  take_seat-passes is_admin free = ground arith

  eligibility-passes :
      s.window_open ≡ true
      → find_enrollment_of p.student_id p.program_id s.period_year w.db ≡ some e
      → eligibility no_faults p false w ≡ (ok (s, linked e), w)
  unfolding eligibility set_lock_timeout lock_section locked_section window_gate resolve
      program_gate
  eligibility-passes window chosen = ground arith

  eligibility-passes_admin :
      find_enrollment p.enrollment_id w.db ≡ some e
      → e.year ≡ s.period_year
      → eligibility no_faults p true w ≡ (ok (s, linked e), w)
  unfolding eligibility set_lock_timeout lock_section locked_section window_gate resolve
      program_gate
  eligibility-passes_admin chosen same = ground arith

  take_seat-revives :
      (r : SectionEnrollment)
      → find_key e.id p.section_id w.db.section_enrollments ≡ some r
      → find_first (λ x. x.id == r.id) w.db.section_enrollments ≡ some r
      → r.status ≡ withdrawn
      → (take_seat no_faults p.section_id true (s, linked e) w).0 ≡ ok (revived w.db.now r)
  unfolding take_seat lock_key classify existing_row seat_gate write revive_section_enrollment
  take_seat-revives r held at was = ground arith

  -- Where the driver answers, the section stands with an open window and a seat left, and the
  -- student's enrollment for its year is paid, in a program with the course, and holds no live row
  -- of the section, a self-enrollment succeeds and returns a new row.
  pub enroll_section_tx-progress :
      s.window_open ≡ true
      → find_enrollment_of p.student_id p.program_id s.period_year w.db ≡ some e
      → find_key e.id p.section_id w.db.section_enrollments ≡ none
      → (enroll_section_tx no_faults p false w).0 ≡ ok (fresh_row e.id p.section_id w.db)
  unfolding enroll_section_tx enroll_body
  enroll_section_tx-progress window chosen free =
      ground
        (arith, pre_check-passes, eligibility-passes window chosen, take_seat-passes false free)

  take_seat-refuses :
      (r : SectionEnrollment)
      → find_key e.id p.section_id w.db.section_enrollments ≡ some r
      → r.status ≡ withdrawn
      → (take_seat no_faults p.section_id false (s, linked e) w).0 ≡ err withdrawn_not_revivable
  unfolding take_seat lock_key classify existing_row
  take_seat-refuses r held was = ground arith

  -- Where all of this holds but the enrollment's live row of the section is withdrawn, the student
  -- is told that it cannot be revived.
  pub enroll_section_tx-not_revivable :
      (r : SectionEnrollment)
      → s.window_open ≡ true
      → find_enrollment_of p.student_id p.program_id s.period_year w.db ≡ some e
      → find_key e.id p.section_id w.db.section_enrollments ≡ some r
      → r.status ≡ withdrawn
      → (enroll_section_tx no_faults p false w).0 ≡ err withdrawn_not_revivable
  unfolding enroll_section_tx enroll_body
  enroll_section_tx-not_revivable r window chosen held was =
      ground
        (arith, pre_check-passes, eligibility-passes window chosen, take_seat-refuses r held was)

  -- Where the driver answers, the section stands with a seat left, the enrollment that an
  -- administrator names is paid, of the section's year and in a program with the course, and its
  -- live row of the section is withdrawn and the one of its id, the administrator's enrollment
  -- succeeds whatever the window, and returns that row revived.
  pub enroll_section_tx-revives :
      (r : SectionEnrollment)
      → find_enrollment p.enrollment_id w.db ≡ some e
      → e.year ≡ s.period_year
      → find_key e.id p.section_id w.db.section_enrollments ≡ some r
      → find_first (λ x. x.id == r.id) w.db.section_enrollments ≡ some r
      → r.status ≡ withdrawn
      → (enroll_section_tx no_faults p true w).0 ≡ ok (revived w.db.now r)
  unfolding enroll_section_tx enroll_body
  enroll_section_tx-revives r chosen same held at was = ground (
    arith,
    pre_check-passes,
    eligibility-passes_admin chosen same,
    take_seat-revives r held at was,
  )

-- An outcome is set on a row that may have it, when the driver answers.
pub outcome-progress :
    (id : Uuid) (outcome : Status) (grade : Numeric) (w : World) {row : SectionEnrollment}
    → find_first (can_settle id outcome) w.db.section_enrollments ≡ some row
    → set_section_enrollment_outcome_tx no_faults id outcome grade w ≡ (
      ok (settled outcome grade w.db.now row),
      record w { db = with_update (can_settle id outcome) (settled outcome grade w.db.now) w.db },
    )
unfolding set_section_enrollment_outcome_tx set_section_enrollment_outcome outcome_result
outcome-progress id outcome grade w h = ground arith
