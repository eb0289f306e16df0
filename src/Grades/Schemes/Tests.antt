-- ===== src/Grades/Schemes/Tests.antt =====
-- Runs of the scheme transactions, and the theorems at them.
use infraestructura_y_servic.Base.{◌≡◌, refl, any_of, count_if, update_where, [], ◌∷◌, List}
use infraestructura_y_servic.Store.{Evaluation}
use infraestructura_y_servic.Driver.{no_faults, ok, err, World}
use infraestructura_y_servic.Grades.Errors.{has_dependents}
use infraestructura_y_servic.Grades.Queries.{
  scheme_of, insert_evaluation, fresh_evaluation, soft_delete_evaluations_for_course,
  grades_live_for,
}
use infraestructura_y_servic.Grades.Schemes.{
  CreateSchemeParams, no_scheme, no_grades, drop_scheme, insert_evaluations, create_body,
  create_evaluation_scheme_tx, recreate_body, recreate_evaluation_scheme_tx,
}
use infraestructura_y_servic.Grades.Schemes.Effects.{Stands, Replaced, GradesKept}
use infraestructura_y_servic.Grades.Schemes.Refinement.{
  create_evaluation_scheme_tx-refines, recreate_evaluation_scheme_tx-refines,
}
use infraestructura_y_servic.Grades.Gradebook.{store_as_is, half, gradebook}

abbrev two_halves : CreateSchemeParams
two_halves = record { course_id = 51; weights = half ∷ half ∷ [] }

abbrev of_course_51 : List Evaluation
of_course_51 =
    fresh_evaluation 51 half 1 gradebook.db
    ∷ record (fresh_evaluation 51 half 2 gradebook.db) { id = 301 }
    ∷ []

abbrev created : World
created = (create_evaluation_scheme_tx store_as_is no_faults two_halves gradebook).1

creates :
    create_evaluation_scheme_tx store_as_is no_faults two_halves gradebook
    ≡ (ok of_course_51, created)
unfolding create_evaluation_scheme_tx create_body no_scheme insert_evaluations insert_evaluation
    count_if any_of
creates = refl

create_evaluation_scheme_tx-refines_example :
    (scheme_of 51 gradebook.db ≡ [])
    × Stands store_as_is 51 0 (half ∷ half ∷ []) of_course_51
    × Replaced 51 of_course_51 gradebook.db created.db
    × GradesKept gradebook.db created.db
create_evaluation_scheme_tx-refines_example =
    create_evaluation_scheme_tx-refines store_as_is no_faults two_halves gradebook creates

abbrev one_whole : CreateSchemeParams
one_whole = record { course_id = 50; weights = half ∷ [] }

-- Course 50 has a grade.
keeps_graded :
    recreate_evaluation_scheme_tx store_as_is no_faults one_whole gradebook
    ≡ (err has_dependents, gradebook)
unfolding recreate_evaluation_scheme_tx recreate_body no_grades count_if any_of
keeps_graded = refl

abbrev ungraded : World
ungraded = record gradebook { db = record gradebook.db { grades = [] } }

abbrev recreated : World
recreated = (recreate_evaluation_scheme_tx store_as_is no_faults one_whole ungraded).1

abbrev of_course_50 : List Evaluation
of_course_50 = fresh_evaluation 50 half 1 ungraded.db ∷ []

recreates :
    recreate_evaluation_scheme_tx store_as_is no_faults one_whole ungraded
    ≡ (ok of_course_50, recreated)
unfolding recreate_evaluation_scheme_tx recreate_body no_grades drop_scheme
    soft_delete_evaluations_for_course insert_evaluations insert_evaluation count_if any_of
    update_where
recreates = refl

recreate_evaluation_scheme_tx-refines_example :
    (count_if (grades_live_for 50 ungraded.db) ungraded.db.grades ≡ 0)
    × Stands store_as_is 50 0 (half ∷ []) of_course_50
    × Replaced 50 of_course_50 ungraded.db recreated.db
    × GradesKept ungraded.db recreated.db
recreate_evaluation_scheme_tx-refines_example =
    recreate_evaluation_scheme_tx-refines store_as_is no_faults one_whole ungraded recreates
