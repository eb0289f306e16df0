-- ===== src/Store.antt =====
-- The PostgreSQL tables that the slices share (backend/migrations), with their rows as sqlc reads
-- them (backend/internal/*/*db/models.go). A UUID is the number that its 16 bytes spell, a
-- timestamp a number. Columns that no modelled statement reads or writes are left out.
use infraestructura_y_servic.Base.{ℕ, Bool, true, false, Option, none, some, List}
use infraestructura_y_servic.Platform.Pgconv.{Numeric, Text}

abbrev pub Uuid : Type 0
Uuid = ℕ

abbrev pub Time : Type 0
Time = ℕ

-- A calendar date, as its number of days.
abbrev pub Date : Type 0
Date = ℕ

-- `deleted_at IS NULL`.
abbrev pub is_null : Option Time → Bool
is_null none = true
is_null (some _) = false

pub record Section : Type 0 where
  pub id : Uuid
  pub course_id : Uuid
  pub academic_period_id : Uuid
  pub capacity : ℕ
  pub created_at : Time
  pub updated_at : Time
  pub deleted_at : Option Time
  pub created_by : Option Uuid
  pub updated_by : Option Uuid

pub record Program : Type 0 where
  pub id : Uuid
  pub code : Text
  pub name : Text
  pub created_at : Time
  pub updated_at : Time
  pub deleted_at : Option Time
  pub created_by : Option Uuid
  pub updated_by : Option Uuid

pub record Course : Type 0 where
  pub id : Uuid
  pub code : Text
  pub name : Text
  pub credits : ℕ
  pub created_at : Time
  pub updated_at : Time
  pub deleted_at : Option Time
  pub created_by : Option Uuid
  pub updated_by : Option Uuid

pub record AcademicPeriod : Type 0 where
  pub id : Uuid
  pub year : ℕ
  pub term : ℕ
  pub start_date : Date
  pub end_date : Date
  pub created_at : Time
  pub updated_at : Time
  pub deleted_at : Option Time
  pub enrollment_starts_at : Option Time
  pub enrollment_ends_at : Option Time

pub record ProgramCourse : Type 0 where
  pub program_id : Uuid
  pub course_id : Uuid
  pub created_at : Time

pub record ProgramQuota : Type 0 where
  pub id : Uuid
  pub program_id : Uuid
  pub year : ℕ
  pub capacity : ℕ
  pub created_at : Time
  pub updated_at : Time
  pub deleted_at : Option Time
  pub created_by : Option Uuid
  pub updated_by : Option Uuid

pub record SectionTeacher : Type 0 where
  pub section_id : Uuid
  pub teacher_id : Uuid
  pub created_at : Time

pub record TeacherProfile : Type 0 where
  pub user_id : Uuid
  pub deleted_at : Option Time

-- CHECK (status IN ('pending', 'paid', 'cancelled')).
pub data EnrollmentStatus : Type 0 where
  pending paid cancelled : EnrollmentStatus

pub record Enrollment : Type 0 where
  pub id : Uuid
  pub student_id : Uuid
  pub program_id : Uuid
  pub year : ℕ
  pub status : EnrollmentStatus
  pub paid_at : Option Time
  pub created_at : Time
  pub updated_at : Time
  pub deleted_at : Option Time
  pub created_by : Option Uuid
  pub updated_by : Option Uuid

-- CHECK (status IN ('in_progress', 'passed', 'failed', 'withdrawn')).
pub data Status : Type 0 where
  in_progress passed failed withdrawn : Status

pub record SectionEnrollment : Type 0 where
  pub id : Uuid
  pub enrollment_id : Uuid
  pub section_id : Uuid
  pub status : Status
  pub registered_at : Time
  pub created_at : Time
  pub updated_at : Time
  pub deleted_at : Option Time
  pub final_grade : Numeric

pub record Evaluation : Type 0 where
  pub id : Uuid
  pub course_id : Uuid
  pub weight : Numeric
  pub position : ℕ
  pub created_at : Time
  pub updated_at : Time
  pub deleted_at : Option Time

pub record Grade : Type 0 where
  pub id : Uuid
  pub evaluation_id : Uuid
  pub section_enrollment_id : Uuid
  pub graded_by : Uuid
  pub value : Numeric
  pub evaluated_at : Time
  pub version : ℕ
  pub created_at : Time
  pub updated_at : Time
  pub created_by : Option Uuid
  pub updated_by : Option Uuid
  pub deleted_at : Option Time

-- The detail of a grade's change, with both values as text.
pub record AuditLog : Type 0 where
  pub id : Uuid
  pub actor_id : Option Uuid
  pub entity_id : Uuid
  pub old_value : Text
  pub new_value : Text
  pub created_at : Time

-- `now` is the server's clock, and `next_id` the identifier that `uuidv7()` gives next.
pub record Db : Type 0 where
  pub programs : List Program
  pub courses : List Course
  pub sections : List Section
  pub academic_periods : List AcademicPeriod
  pub program_courses : List ProgramCourse
  pub program_quotas : List ProgramQuota
  pub section_teachers : List SectionTeacher
  pub teacher_profiles : List TeacherProfile
  pub enrollments : List Enrollment
  pub section_enrollments : List SectionEnrollment
  pub evaluations : List Evaluation
  pub grades : List Grade
  pub audit_logs : List AuditLog
  pub now : Time
  pub next_id : Uuid
