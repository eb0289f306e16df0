-- ===== src/Grades/Pairing.antt =====
-- backend/internal/grades/repository.go, the helpers of `RecordGradeTx`: grades paired with the
-- weights of their evaluations, and the final grade as text, number and outcome.
use infraestructura_y_servic.Base.{Option, none, some, List, [], ◌∷◌, ◌++◌, ◌==◌, if◌then◌else◌}
use infraestructura_y_servic.Platform.Pgconv.{Text, Numeric, null_numeric, decimal, big_string}
use infraestructura_y_servic.Store.{Uuid, Status, passed, failed, Evaluation, Grade}
use infraestructura_y_servic.Grades.Final.{GradeWeight, Final}
use infraestructura_y_servic.Grades.Numerics.{numeric_to_rat}

-- The map from evaluations to weights: a later entry of an identifier replaces an earlier one.
unfoldable pub weight_in : Uuid → List Evaluation → Option Numeric
weight_in id [] = none
weight_in id (e ∷ evals) = elim (weight_in id evals) [
  | some w ↦ some w
  | none ↦ if e.id == id then some e.weight else none
]

-- One grade with its weight, as rationals.
unfoldable pub pair_of : List Evaluation → Grade → Option GradeWeight
pair_of evals g = elim (weight_in g.evaluation_id evals) [
  | none ↦ none
  | some w ↦ elim (numeric_to_rat g.value) [
    | none ↦ none
    | some v ↦ elim (numeric_to_rat w) [
      | none ↦ none
      | some r ↦ some (record { value = v; weight = r })
    ]
  ]
]

unfoldable pub build_grade_weight_pairs : List Grade → List Evaluation → Option (List GradeWeight)
build_grade_weight_pairs [] evals = some []
build_grade_weight_pairs (g ∷ grades) evals = elim (pair_of evals g) [
  | none ↦ none
  | some p ↦ elim (build_grade_weight_pairs grades evals) [
    | none ↦ none
    | some pairs ↦ some (p ∷ pairs)
  ]
]

-- "X.Y".
unfoldable pub final_text : Final → Text
final_text f = big_string f.int_part ++ (46 ∷ decimal f.frac_part)

unfoldable pub outcome_of : Final → Status
outcome_of f = if f.passed then passed else failed

module _ (scan : Text → Option Numeric) where
  unfoldable pub string_to_numeric : Text → Numeric
  string_to_numeric s = elim (scan s) [ none ↦ null_numeric | some n ↦ n ]
