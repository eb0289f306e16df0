-- ===== src/SectionEnrollment/Repository/Tests.antt =====
-- Runs of the writing methods on the small campus, and the theorems at it.
use infraestructura_y_servic.SectionEnrollment.Repository.Refusals.{enroll_section_tx-refusal}
use infraestructura_y_servic.SectionEnrollment.Repository.Rules.{
  error_of, refusal, counted, is_full,
}
use infraestructura_y_servic.Base.{
  ◌+◌, ◌≡◌, refl, find_first, count_if, any_of, false, some, [], ◌∷◌, arith, true, List,
}
use infraestructura_y_servic.Platform.Pgconv.{null_numeric}
use infraestructura_y_servic.Store.{paid, in_progress, passed, SectionEnrollment}
use infraestructura_y_servic.Driver.{no_faults, Faults, ok, err}
use infraestructura_y_servic.SectionEnrollment.Errors.{not_paid}
use infraestructura_y_servic.SectionEnrollment.Queries.{
  active_seats, fresh_row, is_outcome, find_key, find_enrollment_of, find_section, in_program,
  insert_section_enrollment, is_open,
}
use infraestructura_y_servic.SectionEnrollment.Repository.{
  pre_check, pre_check_count, resolve, program_gate, seat_gate, write, set_lock_timeout,
  lock_section, locked_section, lock_key, eligibility, classify, enroll_body, take_seat,
  window_gate, enroll_section_tx,
}
use infraestructura_y_servic.SectionEnrollment.Campus.{
  matricula, seat, campus, start, by_student, open_row, campus-IsSound, settled_campus,
  settled_campus-IsSound,
}
use infraestructura_y_servic.SectionEnrollment.Invariant.{IsSound, enroll_section_tx-IsSound}
use infraestructura_y_servic.SectionEnrollment.Admission.{
  Granted, enroll_section_tx-Granted, enroll_section_tx-active_seats,
}
use infraestructura_y_servic.SectionEnrollment.Lifecycle.{
  Operation, enrolling, withdrawing, settling, perform, run, row_of, Moved, perform-Moved,
  run-IsSound, run-is_outcome,
}
use infraestructura_y_servic.SectionEnrollment.Repository.Progress.{enroll_section_tx-progress}

needs_payment : (enroll_section_tx no_faults (by_student 3 100) false start).0 ≡ err not_paid
unfolding enroll_section_tx pre_check pre_check_count resolve program_gate seat_gate write
    set_lock_timeout lock_section locked_section lock_key eligibility find_key find_enrollment_of
    find_section in_program insert_section_enrollment is_open find_first count_if any_of classify
    enroll_body take_seat window_gate
needs_payment = refl

enroll_section_tx-IsSound_example :
    IsSound (enroll_section_tx no_faults (by_student 1 100) false start).1.db
enroll_section_tx-IsSound_example =
    enroll_section_tx-IsSound no_faults start campus-IsSound (by_student 1 100) false

abbrev seat_of_student_1 : SectionEnrollment
seat_of_student_1 = record (seat 300 11 in_progress) {
  registered_at = 15;
  created_at = 15;
  updated_at = 15;
}

enroll_section_tx-refusal_example :
    (error_of (enroll_section_tx no_faults (by_student 3 100) false start).0
      ≡ refusal false (by_student 3 100) campus)
    × ((enroll_section_tx no_faults (by_student 3 100) false start).1.metrics
        ≡ counted (is_full 100 campus) start.metrics)
enroll_section_tx-refusal_example =
    enroll_section_tx-refusal (by_student 3 100) start false campus-IsSound

tells_payment : refusal false (by_student 3 100) campus ≡ some not_paid
unfolding find_key find_enrollment_of find_section in_program is_open find_first count_if any_of
tells_payment = refl

enrolls_world :
    enroll_section_tx no_faults (by_student 1 100) false start
    ≡ (ok seat_of_student_1, (enroll_section_tx no_faults (by_student 1 100) false start).1)
unfolding enroll_section_tx pre_check pre_check_count resolve program_gate seat_gate write
    set_lock_timeout lock_section locked_section lock_key eligibility find_key find_enrollment_of
    find_section in_program insert_section_enrollment is_open find_first count_if any_of classify
    enroll_body take_seat window_gate
enrolls_world = refl

enroll_section_tx-Granted_example : Granted (by_student 1 100) false campus seat_of_student_1
enroll_section_tx-Granted_example =
    enroll_section_tx-Granted no_faults (by_student 1 100) false start campus-IsSound enrolls_world

enroll_section_tx-active_seats_example :
    active_seats 100
      (enroll_section_tx no_faults (by_student 1 100) false start).1.db.section_enrollments
    ≡ active_seats 100 campus.section_enrollments + 1
enroll_section_tx-active_seats_example =
    enroll_section_tx-active_seats no_faults (by_student 1 100) false start campus-IsSound
      enrolls_world 100

enroll_section_tx-progress_example :
    (enroll_section_tx no_faults (by_student 1 100) false start).0 ≡ ok (fresh_row 11 100 campus)
unfolding find_section find_first is_open any_of in_program count_if find_key find_enrollment_of
enroll_section_tx-progress_example =
    enroll_section_tx-progress (by_student 1 100) start open_row (matricula 11 1 paid) refl refl
      refl (omega arith) refl refl refl

abbrev term_of_writes : List (Faults × Operation)
term_of_writes =
    (no_faults, enrolling (by_student 1 100) false)
    ∷ (no_faults, settling 201 passed null_numeric)
    ∷ (no_faults, withdrawing 201)
    ∷ []

perform-Moved_example :
    Moved
      (withdrawing 201)
      201
      (seat 201 12 in_progress)
      (perform no_faults (withdrawing 201) start).db
unfolding find_first
perform-Moved_example =
    perform-Moved no_faults start campus-IsSound 201 (seat 201 12 in_progress) refl
      (withdrawing 201)

run-IsSound_example : IsSound (run term_of_writes start).db
run-IsSound_example = run-IsSound term_of_writes start campus-IsSound

run-is_outcome_example :
    (r : SectionEnrollment) × (row_of 201
        (run term_of_writes (record start { db = settled_campus })).db
      ≡ some r)
    × (is_outcome r.status ≡ true)
unfolding find_first
run-is_outcome_example =
    run-is_outcome term_of_writes (record start { db = settled_campus }) 201 (seat 201 12 passed)
      settled_campus-IsSound refl refl
