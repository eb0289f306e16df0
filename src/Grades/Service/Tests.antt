-- ===== src/Grades/Service/Tests.antt =====
-- Teacher 9 grades the inscription 201 in a scheme of one evaluation, whose identifier is 201 too.
use infraestructura_y_servic.Base.{
  ◌≡◌, refl, String, Option, some, none, [], ◌∷◌, find_first, any_of, select, update_where,
}
use infraestructura_y_servic.Base.Int.{pos, ◌+ℤ◌, ◌*ℤ◌}
use infraestructura_y_servic.Platform.Pgconv.{
  Numeric, spell, decimal, big_string, left_pad, fixed_point, signed_point, text_of,
  numeric_to_string,
}
use infraestructura_y_servic.Platform.Pgconv.RoundTrip.{mantissa}
use infraestructura_y_servic.Store.{Uuid, passed}
use infraestructura_y_servic.Driver.{no_faults, ok, World}
use infraestructura_y_servic.SectionEnrollment.Queries.{set_section_enrollment_outcome}
use infraestructura_y_servic.SectionEnrollment.Repository.{
  set_section_enrollment_outcome_tx, outcome_result,
}
use infraestructura_y_servic.Grades.Rat.{Rat, frac, add, mul, lt, le, quo, mod_ℤ}
use infraestructura_y_servic.Grades.Final.{add_products, weighted_sum, compute_weighted_final}
use infraestructura_y_servic.Grades.Weights.{parse_grade_value}
use infraestructura_y_servic.Grades.Numerics.{with_point, unsigned, set_string, numeric_to_rat}
use infraestructura_y_servic.Grades.Pairing.{
  weight_in, pair_of, build_grade_weight_pairs, final_text, outcome_of, string_to_numeric,
}
use infraestructura_y_servic.Grades.Queries.{
  insert_by_position, sort_by_position, scheme_of, insert_grade, fresh_grade,
}
use infraestructura_y_servic.Grades.Repository.{
  set_lock_timeout, lock_inscription, teacher_of, actor_gate, scheme_with, grade_gates, audit,
  inserted_or, upsert, as_outcome_write, set_outcome, finish_with, settled_by, settle, grade_writes,
  record_grade_body, record_grade_tx,
}
use infraestructura_y_servic.Grades.Gradebook.{
  store_as_is, tenths, read_four, evaluation, gradebook,
}
use infraestructura_y_servic.Grades.Service.{
  caller_id, parse_uuid, write_grade, record_grade, TaughtBy, record_grade-TaughtBy,
}

abbrev one_evaluation : World
one_evaluation = record gradebook {
  db = record gradebook.db {
    evaluations = record (evaluation 201 1) { weight = tenths 10 } ∷ [];
    grades = [];
  };
}

abbrev parses_201 : String → Option Uuid
parses_201 _ = some 201

abbrev reads_four : String → Option Rat
reads_four _ = some (frac (pos 40) 10)

abbrev stores_four : String → Option Numeric
stores_four _ = some (tenths 40)

abbrev graded : World
graded =
    (record_grade parses_201 reads_four stores_four read_four store_as_is no_faults (some 9) "201"
      "201" "4.0" none one_evaluation).1

grades :
    record_grade parses_201 reads_four stores_four read_four store_as_is no_faults
      (some 9)
      "201"
      "201"
      "4.0"
      none
      one_evaluation
    ≡ (
      ok (
        fresh_grade 201 201 9 (tenths 40) one_evaluation.db,
        some (record { outcome = passed; final_grade = 52 ∷ 46 ∷ 48 ∷ [] }),
      ),
      graded,
    )
unfolding record_grade_tx record_grade_body grade_gates set_lock_timeout lock_inscription actor_gate
    teacher_of scheme_with scheme_of select sort_by_position insert_by_position grade_writes upsert
    insert_grade inserted_or audit settle settled_by finish_with set_outcome as_outcome_write
    build_grade_weight_pairs pair_of weight_in numeric_to_rat set_string unsigned with_point
    numeric_to_string text_of signed_point fixed_point left_pad big_string decimal spell mantissa
    any_of find_first compute_weighted_final weighted_sum add_products add mul le quo mod_ℤ ◌+ℤ◌
    ◌*ℤ◌ outcome_of final_text string_to_numeric set_section_enrollment_outcome_tx
    set_section_enrollment_outcome outcome_result update_where record_grade write_grade caller_id
    parse_uuid parse_grade_value lt
grades = refl

record_grade-TaughtBy_example :
    TaughtBy parses_201 reads_four stores_four read_four store_as_is no_faults
      (some 9)
      "201"
      "4.0"
      one_evaluation
record_grade-TaughtBy_example =
    record_grade-TaughtBy parses_201 reads_four stores_four read_four store_as_is no_faults (some 9)
      "201" "201" "4.0" none one_evaluation grades
