-- ===== src/Grades/Repository.antt =====
-- backend/internal/grades/repository.go: `RecordGradeTx`, cut into the numbered steps of its
-- comment. What a NUMERIC column stores and `pgtype.Numeric.Scan` are parameters.
pub mod Gates
pub mod Effects
pub mod Outcome
pub mod Progress
mod Tests
use infraestructura_y_servic.Base.{
  ℕ, Bool, true, false, not, Option, none, some, List, [], ◌∷◌, ◌++◌, ◌==◌, length, any_of,
  if◌then◌else◌,
}
use infraestructura_y_servic.Base.Int.{pos}
use infraestructura_y_servic.Platform.Pgconv.{
  Text, Numeric, null_numeric, decimal, big_string, numeric_to_string,
}
use infraestructura_y_servic.Store.{Uuid, Status, passed, failed, Evaluation, Grade}
use infraestructura_y_servic.Driver.{
  PgError, no_rows, Faults, Result, ok, err, World, M, ◌>>=◌, ◌>>◌, pure, raise, check, call,
  or_fail, transaction,
}
use infraestructura_y_servic.SectionEnrollment.Errors.{Error as OutcomeError}
use infraestructura_y_servic.SectionEnrollment.Queries.{is_withdrawn}
use infraestructura_y_servic.SectionEnrollment.Repository.{set_section_enrollment_outcome_tx}
use infraestructura_y_servic.Grades.Errors.{
  Error, not_found, self_grade, not_section_teacher, withdrawn_source, course_mismatch, conflict,
  pairing, outcome_write, translate_pg_error,
}
use infraestructura_y_servic.Grades.Final.{GradeWeight, Final, compute_weighted_final}
use infraestructura_y_servic.Grades.Numerics.{numeric_to_rat}
use infraestructura_y_servic.Grades.Pairing.{
  build_grade_weight_pairs, final_text, outcome_of, string_to_numeric,
}
use infraestructura_y_servic.Grades.Queries.{
  list_evaluations_for_course, ForGrade, get_section_enrollment_for_grade, is_teacher_for_section,
  get_evaluation_by_id, insert_grade, get_grade_by_key, update_grade_by_version, insert_audit_log,
  list_grades_by_section_enrollment,
}

pub record RecordGradeParams : Type 0 where
  pub evaluation_id : Uuid
  pub section_enrollment_id : Uuid
  pub value : Numeric
  pub expected_version : Option ℕ
  pub is_override : Bool
  pub actor_id : Option Uuid

-- A `RecordOutcome` whose OutcomeSet is true.
pub record RecordOutcome : Type 0 where
  pub outcome : Status
  pub final_grade : Text

-- `fmt.Errorf("grades: outcome write: %w", err)`.
unfoldable pub as_outcome_write : {A : Type 0} → M OutcomeError A → M Error A
as_outcome_write m w =
    let (r, w') = m w in elim r [ ok a ↦ (ok a, w') | err e ↦ (err (outcome_write e), w') ]

module _ (faults : Faults) where
  -- Step 1.
  unfoldable pub set_lock_timeout : M Error (Unit {0})
  set_lock_timeout = do r ← call faults 1 (λ db. (ok tt, db)); or_fail translate_pg_error r

  -- Step 2: the locked inscription, which must not be withdrawn.
  unfoldable pub lock_inscription : Uuid → M Error ForGrade
  lock_inscription id = do
    r ← call faults 2 (get_section_enrollment_for_grade id)
    se ← or_fail translate_pg_error r
    check (not (is_withdrawn se.status)) withdrawn_source
    pure se

  -- The teacher path: not one's own inscription, and a section that one teaches.
  unfoldable pub teacher_of : Uuid → ForGrade → M Error (Unit {0})
  teacher_of actor se = do
    check (not (se.student_id == actor)) self_grade
    r ← call faults 3 (is_teacher_for_section se.section_id actor)
    there ← or_fail translate_pg_error r
    check there not_section_teacher

  unfoldable pub actor_gate : RecordGradeParams → ForGrade → M Error (Unit {0})
  actor_gate p se =
      if p.is_override
      then pure tt
      else (elim p.actor_id [ none ↦ pure tt | some actor ↦ teacher_of actor se ])

  -- `errGet` is ErrNoRows, or another error that leaves the evaluation's ID not valid.
  unfoldable pub missing_evaluation : Result PgError Evaluation → M Error (Unit {0})
  missing_evaluation (err _) = raise not_found
  missing_evaluation (ok _) = raise course_mismatch

  -- Step 3: the live scheme of the course, which must have the evaluation.
  unfoldable pub scheme_with : Uuid → ForGrade → M Error (List Evaluation)
  scheme_with evaluation se = do
    r ← call faults 4 (list_evaluations_for_course se.course_id)
    evals ← or_fail translate_pg_error r
    (if any_of (λ e. e.id == evaluation) evals
        then pure tt
        else (call faults 5 (get_evaluation_by_id evaluation) >>= missing_evaluation))
    pure evals

  -- What comes before any write.
  unfoldable pub grade_gates : RecordGradeParams → M Error (List Evaluation)
  grade_gates p = do
    set_lock_timeout
    se ← lock_inscription p.section_enrollment_id
    actor_gate p se
    scheme_with p.evaluation_id se

  -- The current version goes into the error.
  unfoldable pub stale : RecordGradeParams → M Error (Grade × Option Text)
  stale p = do
    r ← call faults 9 (get_grade_by_key p.evaluation_id p.section_enrollment_id)
    cur ← or_fail translate_pg_error r
    raise (conflict cur.version)

  unfoldable pub updated_from :
      RecordGradeParams → Grade → Result PgError Grade → M Error (Grade × Option Text)
  updated_from p existing (ok g) = pure (g, some (numeric_to_string existing.value))
  updated_from p existing (err no_rows) = stale p
  updated_from p existing (err e) = raise (translate_pg_error e)

  -- Step 7, on an update whose old value has a text.
  unfoldable pub audit : RecordGradeParams → Grade × Option Text → M Error (Unit {0})
  audit p (g, none) = pure tt
  audit p (g, some []) = pure tt
  audit p (g, some (c ∷ old)) = do
    r ← call faults 10 (insert_audit_log p.actor_id g.id (c ∷ old) (numeric_to_string g.value))
    or_fail translate_pg_error r

module _ (fit : Numeric → Result PgError Numeric) (faults : Faults) where
  -- The optimistic update of a grade that is there.
  unfoldable pub regrade : RecordGradeParams → Grade → M Error (Grade × Option Text)
  regrade p existing = elim p.expected_version [
    | none ↦ raise (conflict existing.version)
    | some version ↦
        call faults 8 (update_grade_by_version fit existing.id version p.value p.actor_id)
        >>= updated_from faults p existing
  ]

  unfoldable pub existing_grade : RecordGradeParams → M Error (Grade × Option Text)
  existing_grade p = do
    r ← call faults 7 (get_grade_by_key p.evaluation_id p.section_enrollment_id)
    existing ← or_fail translate_pg_error r
    regrade p existing

  unfoldable pub inserted_or :
      RecordGradeParams → Result PgError Grade → M Error (Grade × Option Text)
  inserted_or p (ok g) = pure (g, none)
  inserted_or p (err no_rows) = existing_grade p
  inserted_or p (err e) = raise (translate_pg_error e)

  -- Step 4: the grade as it stands, and the old value's text where it was updated.
  unfoldable pub upsert : RecordGradeParams → M Error (Grade × Option Text)
  upsert p = do
    r ← call faults 6 (insert_grade fit p.evaluation_id p.section_enrollment_id p.actor_id p.value)
    inserted_or p r

module _ (scan : Text → Option Numeric) (faults : Faults) where
  unfoldable pub set_outcome : Uuid → Final → M Error (Option RecordOutcome)
  set_outcome id f = do
    row ← as_outcome_write (
        set_section_enrollment_outcome_tx (λ _. faults 12) id (outcome_of f)
          (string_to_numeric scan (final_text f)))
    pure (some (record { outcome = outcome_of f; final_grade = final_text f }))

  unfoldable pub finish_with : Uuid → Option (List GradeWeight) → M Error (Option RecordOutcome)
  finish_with id none = raise pairing
  finish_with id (some pairs) = set_outcome id (compute_weighted_final pairs)

  unfoldable pub settled_by : Uuid → List Evaluation → List Grade → M Error (Option RecordOutcome)
  settled_by id evals siblings =
      if length siblings == length evals
      then finish_with id (build_grade_weight_pairs siblings evals)
      else pure none

  -- Steps 5 and 6.
  unfoldable pub settle : Uuid → List Evaluation → M Error (Option RecordOutcome)
  settle id evals = do
    r ← call faults 11 (list_grades_by_section_enrollment id)
    siblings ← or_fail translate_pg_error r
    settled_by id evals siblings

module _ (fit : Numeric → Result PgError Numeric) (scan : Text → Option Numeric)
    (faults : Faults) where
  unfoldable pub grade_writes :
      RecordGradeParams → List Evaluation → M Error (Grade × Option RecordOutcome)
  grade_writes p evals = do
    result ← upsert fit faults p
    audit faults p result
    outcome ← settle scan faults p.section_enrollment_id evals
    pure (result.0, outcome)

  unfoldable pub record_grade_body : RecordGradeParams → M Error (Grade × Option RecordOutcome)
  record_grade_body p = do evals ← grade_gates faults p; grade_writes p evals

  unfoldable pub record_grade_tx : RecordGradeParams → M Error (Grade × Option RecordOutcome)
  record_grade_tx p = transaction translate_pg_error (faults 0) (faults 13) (record_grade_body p)
