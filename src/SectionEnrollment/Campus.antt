-- ===== src/SectionEnrollment/Campus.antt =====
-- A small campus: section 100 has two seats and an open window, section 101 a closed one; student 1
-- has paid for 2026 and holds no seat, student 2 holds one, student 3 has not paid.
use infraestructura_y_servic.Base.{find_first, count_if, none, some, [], ◌∷◌, arith, true}
use infraestructura_y_servic.Platform.Pgconv.{null_numeric}
use infraestructura_y_servic.Store.{
  Uuid, Section, Course, AcademicPeriod, Enrollment, EnrollmentStatus, pending, paid, Status,
  in_progress, passed, SectionEnrollment, Db, withdrawn,
}
use infraestructura_y_servic.Driver.{World}
use infraestructura_y_servic.SectionEnrollment.Repository.{EnrollSectionParams}
use infraestructura_y_servic.SectionEnrollment.Queries.{SectionRow, find_section}
use infraestructura_y_servic.SectionEnrollment.Invariant.{IsSound}

abbrev pub open_section : Section
open_section = record {
  id = 100;
  course_id = 50;
  academic_period_id = 70;
  capacity = 2;
  created_at = 1;
  updated_at = 1;
  deleted_at = none;
  created_by = none;
  updated_by = none;
}

abbrev pub closed_section : Section
closed_section = record {
  id = 101;
  course_id = 50;
  academic_period_id = 71;
  capacity = 2;
  created_at = 1;
  updated_at = 1;
  deleted_at = none;
  created_by = none;
  updated_by = none;
}

abbrev pub course : Course
course = record {
  id = 50;
  code = [];
  name = [];
  credits = 6;
  created_at = 1;
  updated_at = 1;
  deleted_at = none;
  created_by = none;
  updated_by = none;
}

abbrev pub open_period : AcademicPeriod
open_period = record {
  id = 70;
  year = 2026;
  term = 1;
  start_date = 100;
  end_date = 180;
  created_at = 1;
  updated_at = 1;
  deleted_at = none;
  enrollment_starts_at = some 10;
  enrollment_ends_at = some 20;
}

abbrev pub closed_period : AcademicPeriod
closed_period = record {
  id = 71;
  year = 2026;
  term = 2;
  start_date = 200;
  end_date = 280;
  created_at = 1;
  updated_at = 1;
  deleted_at = none;
  enrollment_starts_at = some 30;
  enrollment_ends_at = some 40;
}

abbrev pub matricula : Uuid → Uuid → EnrollmentStatus → Enrollment
matricula id student status = record {
  id = id;
  student_id = student;
  program_id = 60;
  year = 2026;
  status = status;
  paid_at = none;
  created_at = 1;
  updated_at = 1;
  deleted_at = none;
  created_by = none;
  updated_by = none;
}

abbrev pub seat : Uuid → Uuid → Status → SectionEnrollment
seat id enrollment status = record {
  id = id;
  enrollment_id = enrollment;
  section_id = 100;
  status = status;
  registered_at = 2;
  created_at = 2;
  updated_at = 2;
  deleted_at = none;
  final_grade = null_numeric;
}

abbrev pub campus : Db
campus = record {
  programs = [];
  courses = course ∷ [];
  sections = open_section ∷ closed_section ∷ [];
  academic_periods = open_period ∷ closed_period ∷ [];
  program_courses = (record { program_id = 60; course_id = 50; created_at = 1 }) ∷ [];
  program_quotas = [];
  section_teachers = [];
  teacher_profiles = [];
  enrollments = matricula 11 1 paid ∷ matricula 12 2 paid ∷ matricula 13 3 pending ∷ [];
  section_enrollments = seat 201 12 in_progress ∷ [];
  evaluations = [];
  grades = [];
  audit_logs = [];
  now = 15;
  next_id = 300;
}

abbrev pub start : World
start = record {
  db = campus;
  metrics = record { section_full_pre_check = 0; section_full_under_lock = 0; lock_timeout = 0 };
}

abbrev pub by_student : Uuid → Uuid → EnrollSectionParams
by_student student section = record {
  section_id = section;
  enrollment_id = 0;
  student_id = student;
  program_id = 60;
}

abbrev pub open_row : SectionRow
open_row = record { capacity = 2; course_id = 50; period_year = 2026; window_open = true }

abbrev pub with_withdrawn : World
with_withdrawn = record start {
  db = record campus { section_enrollments = seat 202 11 withdrawn ∷ [] };
}

pub campus-IsSound : IsSound campus
unfolding find_section find_first count_if
campus-IsSound = record {
  distinct = (tt, tt);
  bounded = (omega arith, tt);
  keys = λ e s. ground arith;
  seats = λ id s q. ground arith;
}

abbrev pub settled_campus : Db
settled_campus = record campus { section_enrollments = seat 201 12 passed ∷ [] }

pub settled_campus-IsSound : IsSound settled_campus
unfolding find_section find_first count_if
settled_campus-IsSound = record {
  distinct = (tt, tt);
  bounded = (omega arith, tt);
  keys = λ e s. ground arith;
  seats = λ id s q. ground arith;
}
