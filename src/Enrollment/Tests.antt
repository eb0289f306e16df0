-- ===== src/Enrollment/Tests.antt =====
-- A program with two seats for 2026: student 1 has paid, student 2 has cancelled.
use infraestructura_y_servic.Base.{
  ◌≡◌, refl, String, Option, none, some, List, [], ◌∷◌, arith, ◌==◌, if◌then◌else◌, find_first,
  count_if,
}
use infraestructura_y_servic.Store.{
  Uuid, ProgramQuota, pending, cancelled, EnrollmentStatus, Enrollment,
}
use infraestructura_y_servic.Driver.{Faults, no_faults, broken, err, World}
use infraestructura_y_servic.Enrollment.Errors.{not_found}
use infraestructura_y_servic.Enrollment.Queries.{CreateEnrollmentParams, find_quota, find_live}
use infraestructura_y_servic.Enrollment.Repository.{mark_enrollment_paid, get_enrollment}
use infraestructura_y_servic.Enrollment.Repository.Transitions.{
  payment, own_payment, mark_enrollment_paid-payment,
}
use infraestructura_y_servic.Enrollment.Invariant.{
  IsSound, creating, paying, cancelling, Operation, history, history-IsSound,
}
use infraestructura_y_servic.Enrollment.Service.{
  caller_id, parse_uuid, owned_by, get_own_enrollment, get_own_enrollment-own,
}

abbrev matricula : Uuid → Uuid → EnrollmentStatus → Enrollment
matricula id student status = record {
  id = id;
  student_id = student;
  program_id = 60;
  year = 2026;
  status = status;
  paid_at = none;
  created_at = 1;
  updated_at = 1;
  deleted_at = none;
  created_by = none;
  updated_by = none;
}

abbrev quota : ProgramQuota
quota = record {
  id = 21;
  program_id = 60;
  year = 2026;
  capacity = 2;
  created_at = 1;
  updated_at = 1;
  deleted_at = none;
  created_by = none;
  updated_by = none;
}

abbrev office : World
office = record {
  db = record {
    programs = [];
    courses = [];
    sections = [];
    academic_periods = [];
    program_courses = [];
    program_quotas = quota ∷ [];
    section_teachers = [];
    teacher_profiles = [];
    enrollments = matricula 11 1 pending ∷ matricula 12 2 cancelled ∷ [];
    section_enrollments = [];
    evaluations = [];
    grades = [];
    audit_logs = [];
    now = 15;
    next_id = 300;
  };
  metrics = record { section_full_pre_check = 0; section_full_under_lock = 0; lock_timeout = 0 };
}

abbrev of_student : Uuid → CreateEnrollmentParams
of_student student = record { student_id = student; program_id = 60; year = 2026 }

office-IsSound : IsSound office.db
unfolding find_quota find_first count_if
office-IsSound = record {
  distinct = ((omega arith, tt), (tt, tt));
  bounded = (omega arith, (omega arith, tt));
  keys = λ s p y. ground arith;
  quotas = λ p y q h. ground arith;
}

-- A driver whose third call of a request fails.
abbrev lost : Faults
lost n = if n == 3 then some (broken 8) else none

mark_enrollment_paid-payment_example :
    (
      (mark_enrollment_paid no_faults 11 (some 9) office).0,
      (mark_enrollment_paid no_faults 11 (some 9) office).1.db,
    )
    ≡ payment 11 (some 9) office.db (find_live 11 office.db)
mark_enrollment_paid-payment_example =
    mark_enrollment_paid-payment office office-IsSound.distinct 11 (some 9)

-- Another student's enrollment is not found.
others_payment :
    own_payment 11 2 (some 2) office.db (find_live 11 office.db) ≡ (err not_found, office.db)
unfolding find_live find_first
others_payment = refl

abbrev year_of_writes : List (Faults × Operation)
year_of_writes =
    (no_faults, creating (of_student 2) (some 9))
    ∷ (lost, paying 11 none)
    ∷ (no_faults, cancelling 12 none)
    ∷ []

history-IsSound_example : IsSound (history year_of_writes office).db
history-IsSound_example = history-IsSound year_of_writes office office-IsSound

abbrev parse_eleven : String → Option Uuid
parse_eleven _ = some 11

get_own_enrollment-own_example :
    ((id : Uuid) × (some 11 ≡ some id) × (find_live id office.db ≡ some (matricula 11 1 pending)))
    × (some 1 ≡ some (matricula 11 1 pending).student_id)
    × (office ≡ office)
unfolding get_own_enrollment caller_id parse_uuid owned_by get_enrollment find_live find_first
get_own_enrollment-own_example =
    get_own_enrollment-own parse_eleven no_faults (some 1) "11" office refl
