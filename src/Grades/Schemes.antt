-- ===== src/Grades/Schemes.antt =====
-- backend/internal/grades/repository.go: `CreateEvaluationSchemeTx`, `RecreateEvaluationSchemeTx`
-- and `ListEvaluations`. What the NUMERIC(4,3) column stores is a parameter.
pub mod Effects
pub mod Refinement
mod Tests
use infraestructura_y_servic.Base.{
  ℕ, suc, ◌+◌, Bool, true, false, not, Option, none, some, List, [], ◌∷◌, ◌==◌, ltb,
}
use infraestructura_y_servic.Platform.Pgconv.{Numeric}
use infraestructura_y_servic.Store.{Uuid, Evaluation}
use infraestructura_y_servic.Driver.{
  PgError, Faults, Result, ok, err, World, M, ◌>>=◌, ◌>>◌, pure, check, call, or_fail, transaction,
}
use infraestructura_y_servic.Grades.Errors.{
  Error, already_exists, has_dependents, translate_pg_error,
}
use infraestructura_y_servic.Grades.Queries.{
  list_evaluations_for_course, count_live_evaluations_for_course, lock_evaluations_for_course,
  soft_delete_evaluations_for_course, count_grades_for_evaluations, insert_evaluation,
}

pub record CreateSchemeParams : Type 0 where
  pub course_id : Uuid
  pub weights : List Numeric

module _ (faults : Faults) where
  unfoldable pub list_evaluations : Uuid → M Error (List Evaluation)
  list_evaluations course = do
    r ← call faults 0 (list_evaluations_for_course course)
    or_fail translate_pg_error r

  -- A course without a live scheme.
  unfoldable pub no_scheme : Uuid → M Error (Unit {0})
  no_scheme course = do
    r ← call faults 2 (count_live_evaluations_for_course course)
    count ← or_fail translate_pg_error r
    check (count == 0) already_exists

  -- The locked scheme, which no grade may reference.
  unfoldable pub no_grades : Uuid → M Error (Unit {0})
  no_grades course = do
    l ← call faults 2 (lock_evaluations_for_course course)
    locked ← or_fail translate_pg_error l
    r ← call faults 3 (count_grades_for_evaluations course)
    count ← or_fail translate_pg_error r
    check (count == 0) has_dependents

  unfoldable pub drop_scheme : Uuid → M Error (Unit {0})
  drop_scheme course = do
    r ← call faults 4 (soft_delete_evaluations_for_course course)
    or_fail translate_pg_error r

module _ (fit : Numeric → Result PgError Numeric) (faults : Faults) where
  -- The evaluation of index `i`: its position is `i + 1`, and its call comes after the ones before.
  abbrev pub insert_one : Uuid → ℕ → Numeric → M Error Evaluation
  insert_one course i w =
      call faults (6 + i) (insert_evaluation fit course w (suc i)) >>= or_fail translate_pg_error

  -- The loop over the weights, from an index on.
  unfoldable pub insert_evaluations : Uuid → ℕ → List Numeric → M Error (List Evaluation)
  insert_evaluations course i [] = pure []
  insert_evaluations course i (w ∷ weights) = do
    eval ← insert_one course i w
    evals ← insert_evaluations course (suc i) weights
    pure (eval ∷ evals)

  unfoldable pub create_body : CreateSchemeParams → M Error (List Evaluation)
  create_body p = do no_scheme faults p.course_id; insert_evaluations p.course_id 0 p.weights

  unfoldable pub create_evaluation_scheme_tx : CreateSchemeParams → M Error (List Evaluation)
  create_evaluation_scheme_tx p =
      transaction translate_pg_error (faults 0) (faults 1) (create_body p)

  unfoldable pub recreate_body : CreateSchemeParams → M Error (List Evaluation)
  recreate_body p = do
    no_grades faults p.course_id
    drop_scheme faults p.course_id
    insert_evaluations p.course_id 0 p.weights

  unfoldable pub recreate_evaluation_scheme_tx : CreateSchemeParams → M Error (List Evaluation)
  recreate_evaluation_scheme_tx p =
      transaction translate_pg_error (faults 0) (faults 1) (recreate_body p)
