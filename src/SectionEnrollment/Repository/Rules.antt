-- ===== src/SectionEnrollment/Repository/Rules.antt =====
-- backend/internal/sectionenrollment: the rules of an enrollment, in the order in which they are
-- told to a caller, as a list of tests with their errors.
use infraestructura_y_servic.Base.{
  suc, Bool, true, false, not, ◌||◌, Option, none, some, List, [], ◌∷◌, ◌==◌, ltb, if◌then◌else◌,
}
use infraestructura_y_servic.Store.{
  Uuid, Status, in_progress, passed, failed, withdrawn, Enrollment, SectionEnrollment, Db,
}
use infraestructura_y_servic.Driver.{Result, ok, err, Metrics}
use infraestructura_y_servic.SectionEnrollment.Errors.{
  Error, not_found, already_exists, section_full, window_closed, not_paid, course_not_in_program,
  enrollment_year_mismatch, invalid_transition, withdrawn_not_revivable,
}
use infraestructura_y_servic.SectionEnrollment.Queries.{
  SectionRow, section_row, active_seats, find_section, find_enrollment, find_enrollment_of,
  in_program, find_key,
}
use infraestructura_y_servic.SectionEnrollment.Repository.{EnrollSectionParams, is_paid}

-- The section stands and has no seat left.
abbrev pub is_full : Uuid → Db → Bool
is_full id db = elim (find_section id db) [
  | none ↦ false
  | some s ↦ not (ltb (active_seats id db.section_enrollments) s.capacity)
]

-- The enrollment that an administrator names, or that the student has for the section's year.
abbrev pub chosen : Bool → EnrollSectionParams → SectionRow → Db → Option Enrollment
chosen true p s db = find_enrollment p.enrollment_id db
chosen false p s db = find_enrollment_of p.student_id p.program_id s.period_year db

-- Only an administrator may meet a live row of the key, and only a withdrawn one.
abbrev pub by_status : Bool → Status → Option Error
by_status is_admin in_progress = some already_exists
by_status true withdrawn = none
by_status false withdrawn = some withdrawn_not_revivable
by_status is_admin passed = some invalid_transition
by_status is_admin failed = some invalid_transition

abbrev pub by_row : Bool → Option SectionEnrollment → Option Error
by_row is_admin none = none
by_row is_admin (some r) = by_status is_admin r.status

-- The first rule that does not hold.
abbrev pub first_broken : List (Bool × Error) → Option Error → Option Error
first_broken [] last = last
first_broken ((holds, e) ∷ rules) last =
    let rest = first_broken rules last in if holds then rest else some e

abbrev pub error_of : {A : Type 0} → Result Error A → Option Error
error_of (ok a) = none
error_of (err e) = some e

abbrev pub enrollment_refusal :
    Bool → EnrollSectionParams → Db → SectionRow → Option Enrollment → Option Error
enrollment_refusal is_admin p db s none = some not_found
enrollment_refusal is_admin p db s (some e) =
    first_broken
      ((is_paid e.status, not_paid)
        ∷ (not is_admin || e.year == s.period_year, enrollment_year_mismatch)
        ∷ (in_program e.program_id s.course_id db, course_not_in_program)
        ∷ [])
      (by_row is_admin (find_key e.id p.section_id db.section_enrollments))

abbrev pub section_refusal : Bool → EnrollSectionParams → Db → Option SectionRow → Option Error
section_refusal is_admin p db none = some not_found
section_refusal is_admin p db (some s) =
    first_broken ((is_admin || s.window_open, window_closed) ∷ [])
      (enrollment_refusal is_admin p db s (chosen is_admin p s db))

-- The error that an enrollment is due, if a rule is broken.
abbrev pub refusal : Bool → EnrollSectionParams → Db → Option Error
refusal is_admin p db =
    first_broken ((not (is_full p.section_id db), section_full) ∷ [])
      (section_refusal is_admin p db (section_row p.section_id db))

-- A section that is full is counted, and nothing else.
abbrev pub counted : Bool → Metrics → Metrics
counted true m = record m { section_full_pre_check = suc m.section_full_pre_check }
counted false m = m

-- The rules that the body of the transaction tests before the key.
abbrev pub gates : Bool → EnrollSectionParams → Db → SectionRow → Enrollment → List (Bool × Error)
gates is_admin p db s e =
    (is_admin || s.window_open, window_closed)
    ∷ (is_paid e.status, not_paid)
    ∷ (not is_admin || e.year == s.period_year, enrollment_year_mismatch)
    ∷ (in_program e.program_id s.course_id db, course_not_in_program)
    ∷ []
