-- ===== src/Grades/Repository/Tests.antt =====
-- Runs of the grade transactions on the gradebook, and the theorems at it.
use infraestructura_y_servic.Base.{
  ℕ, ◌==◌, ◌≡◌, refl, find_first, any_of, select, update_where, some, none, [], ◌∷◌, List, inr,
  Option,
}
use infraestructura_y_servic.Base.Int.{pos, ◌+ℤ◌, ◌*ℤ◌}
use infraestructura_y_servic.Platform.Pgconv.{
  spell, decimal, big_string, left_pad, fixed_point, signed_point, text_of, numeric_to_string,
}
use infraestructura_y_servic.Platform.Pgconv.RoundTrip.{mantissa}
use infraestructura_y_servic.Store.{passed, in_progress, Grade}
use infraestructura_y_servic.Driver.{Faults, no_faults, ok, err, World}
use infraestructura_y_servic.SectionEnrollment.Queries.{set_section_enrollment_outcome}
use infraestructura_y_servic.SectionEnrollment.Repository.{
  set_section_enrollment_outcome_tx, outcome_result,
}
use infraestructura_y_servic.Grades.Errors.{conflict}
use infraestructura_y_servic.Grades.Rat.{frac, add, mul, le, quo, mod_ℤ}
use infraestructura_y_servic.Grades.Final.{
  GradeWeight, add_products, weighted_sum, compute_weighted_final,
}
use infraestructura_y_servic.Grades.Numerics.{with_point, unsigned, set_string, numeric_to_rat}
use infraestructura_y_servic.Grades.Pairing.{
  weight_in, pair_of, build_grade_weight_pairs, final_text, outcome_of, string_to_numeric,
}
use infraestructura_y_servic.Grades.Queries.{
  insert_by_position, sort_by_position, scheme_of, find_grade, insert_grade,
  update_grade_by_version, insert_audit_log, fresh_grade, regraded,
}
use infraestructura_y_servic.Grades.Repository.{
  RecordOutcome, set_lock_timeout, lock_inscription, teacher_of, actor_gate, scheme_with,
  grade_gates, stale, updated_from, audit, regrade, existing_grade, inserted_or, upsert,
  as_outcome_write, set_outcome, finish_with, settled_by, settle, grade_writes, record_grade_body,
  record_grade_tx,
}
use infraestructura_y_servic.Grades.Gradebook.{
  store_as_is, tenths, read_four, evaluation, first_grade, gradebook, by_teacher, gradebook-IsSound,
}
use infraestructura_y_servic.Grades.Repository.Outcome.{Recorded, record_grade_tx-Recorded}
use infraestructura_y_servic.Grades.Repository.Progress.{record_grade_tx-progress}
use infraestructura_y_servic.Grades.Versions.{IsSound, IsLater}
use infraestructura_y_servic.Grades.Versions.History.{
  Action, record_grade, perform, run, run-grades-IsSound, run-IsLater,
}
use infraestructura_y_servic.Grades.Versions.Locking.{record_grade_tx-no_lost_update}

abbrev completed : World
completed =
    (record_grade_tx store_as_is read_four no_faults (by_teacher 212 (tenths 40) none) gradebook).1

-- The last grade of the scheme: 3.9 and 4.0 at one half each round to 4.0.
completes :
    record_grade_tx store_as_is read_four no_faults (by_teacher 212 (tenths 40) none) gradebook ≡ (
      ok (
        fresh_grade 212 201 9 (tenths 40) gradebook.db,
        some (record { outcome = passed; final_grade = 52 ∷ 46 ∷ 48 ∷ [] }),
      ),
      completed,
    )
unfolding record_grade_tx record_grade_body grade_gates set_lock_timeout lock_inscription actor_gate
    teacher_of scheme_with scheme_of select sort_by_position insert_by_position grade_writes upsert
    insert_grade inserted_or audit settle settled_by finish_with set_outcome as_outcome_write
    build_grade_weight_pairs pair_of weight_in numeric_to_rat set_string unsigned with_point
    numeric_to_string text_of signed_point fixed_point left_pad big_string decimal spell mantissa
    any_of find_first compute_weighted_final weighted_sum add_products add mul le quo mod_ℤ ◌+ℤ◌
    ◌*ℤ◌ outcome_of final_text string_to_numeric set_section_enrollment_outcome_tx
    set_section_enrollment_outcome outcome_result update_where
completes = refl

record_grade_tx-Recorded_example :
    Recorded store_as_is read_four
      (by_teacher 212 (tenths 40) none)
      (fresh_grade 212 201 9 (tenths 40) gradebook.db)
      (some (record { outcome = passed; final_grade = 52 ∷ 46 ∷ 48 ∷ [] }))
      gradebook.db
      completed.db
record_grade_tx-Recorded_example =
    record_grade_tx-Recorded store_as_is read_four no_faults (by_teacher 212 (tenths 40) none)
      gradebook completes

-- Version 1 is not the current one.
refuses :
    record_grade_tx store_as_is read_four no_faults (by_teacher 211 (tenths 45) (some 1)) gradebook
    ≡ (err (conflict 2), gradebook)
unfolding record_grade_tx record_grade_body grade_gates set_lock_timeout lock_inscription actor_gate
    teacher_of scheme_with scheme_of select sort_by_position insert_by_position grade_writes upsert
    insert_grade inserted_or audit settle settled_by finish_with set_outcome as_outcome_write
    build_grade_weight_pairs pair_of weight_in numeric_to_rat set_string unsigned with_point
    numeric_to_string text_of signed_point fixed_point left_pad big_string decimal spell mantissa
    any_of find_first compute_weighted_final weighted_sum add_products add mul le quo mod_ℤ ◌+ℤ◌
    ◌*ℤ◌ outcome_of final_text string_to_numeric set_section_enrollment_outcome_tx
    set_section_enrollment_outcome outcome_result update_where existing_grade regrade
    update_grade_by_version updated_from stale find_grade insert_audit_log
refuses = refl

abbrev corrected : World
corrected =
    (record_grade_tx store_as_is read_four no_faults (by_teacher 211 (tenths 45) (some 2))
      gradebook).1

-- The current version is, and the scheme is not complete yet.
corrects :
    record_grade_tx store_as_is read_four no_faults (by_teacher 211 (tenths 45) (some 2)) gradebook
    ≡ (ok (regraded 9 (tenths 45) 15 first_grade, none), corrected)
unfolding record_grade_tx record_grade_body grade_gates set_lock_timeout lock_inscription actor_gate
    teacher_of scheme_with scheme_of select sort_by_position insert_by_position grade_writes upsert
    insert_grade inserted_or audit settle settled_by finish_with set_outcome as_outcome_write
    build_grade_weight_pairs pair_of weight_in numeric_to_rat set_string unsigned with_point
    numeric_to_string text_of signed_point fixed_point left_pad big_string decimal spell mantissa
    any_of find_first compute_weighted_final weighted_sum add_products add mul le quo mod_ℤ ◌+ℤ◌
    ◌*ℤ◌ outcome_of final_text string_to_numeric set_section_enrollment_outcome_tx
    set_section_enrollment_outcome outcome_result update_where existing_grade regrade
    update_grade_by_version updated_from stale find_grade insert_audit_log
corrects = refl

found_first : find_grade 211 201 gradebook.db.grades ≡ some first_grade
unfolding find_grade find_first
found_first = refl

abbrev second_version : Grade
second_version = regraded 9 (tenths 45) 15 first_grade

abbrev actions : List (Faults × Action)
actions = (no_faults, record_grade (by_teacher 212 (tenths 40) none)) ∷ []

found_by_id : find_first (λ x. x.id == 250) gradebook.db.grades ≡ some first_grade
unfolding find_first
found_by_id = refl

run-IsLater_example :
    (g : Grade) × (find_first
        (λ x. x.id == 250)
        (run store_as_is store_as_is read_four actions gradebook).db.grades
      ≡ some g)
    × IsLater first_grade g
run-IsLater_example =
    run-IsLater store_as_is store_as_is read_four actions gradebook 250 gradebook-IsSound
      found_by_id

run-grades-IsSound_example : IsSound (run store_as_is store_as_is read_four actions gradebook).db
run-grades-IsSound_example =
    run-grades-IsSound store_as_is store_as_is read_four actions gradebook gradebook-IsSound

abbrev last_world : World
last_world =
    (record_grade_tx store_as_is read_four no_faults (by_teacher 211 (tenths 45) (some 2))
      (run store_as_is store_as_is read_four actions gradebook)).1

-- 4.5 and 4.0: 4.25, rounded up.
corrects_later :
    record_grade_tx store_as_is read_four no_faults
      (by_teacher 211 (tenths 45) (some 2))
      (run store_as_is store_as_is read_four actions gradebook)
    ≡ (
      ok (
        regraded 9 (tenths 45) 15 first_grade,
        some (record { outcome = passed; final_grade = 52 ∷ 46 ∷ 51 ∷ [] }),
      ),
      last_world,
    )
unfolding record_grade_tx record_grade_body grade_gates set_lock_timeout lock_inscription actor_gate
    teacher_of scheme_with scheme_of select sort_by_position insert_by_position grade_writes upsert
    insert_grade inserted_or audit settle settled_by finish_with set_outcome as_outcome_write
    build_grade_weight_pairs pair_of weight_in numeric_to_rat set_string unsigned with_point
    numeric_to_string text_of signed_point fixed_point left_pad big_string decimal spell mantissa
    any_of find_first compute_weighted_final weighted_sum add_products add mul le quo mod_ℤ ◌+ℤ◌
    ◌*ℤ◌ outcome_of final_text string_to_numeric set_section_enrollment_outcome_tx
    set_section_enrollment_outcome outcome_result update_where existing_grade regrade
    update_grade_by_version updated_from stale find_grade insert_audit_log run perform
corrects_later = refl

record_grade_tx-no_lost_update_example :
    find_first
      (λ x. x.id == 250)
      (run store_as_is store_as_is read_four actions gradebook).db.grades
    ≡ some first_grade
record_grade_tx-no_lost_update_example =
    record_grade_tx-no_lost_update store_as_is store_as_is read_four no_faults
      (by_teacher 211 (tenths 45) (some 2)) actions gradebook gradebook-IsSound found_by_id refl
      refl refl corrects_later

abbrev half_of : ℕ → GradeWeight
half_of n = record { value = frac (pos n) 10; weight = frac (pos 5) 10 }

record_grade_tx-progress_example :
    (o : Option RecordOutcome) × (w' : World) × (record_grade_tx store_as_is read_four no_faults
        (by_teacher 212 (tenths 40) none)
        gradebook
      ≡ (ok (fresh_grade 212 201 9 (tenths 40) gradebook.db, o), w'))
unfolding find_first any_of scheme_of select sort_by_position insert_by_position
    build_grade_weight_pairs pair_of weight_in numeric_to_rat set_string unsigned with_point
    numeric_to_string text_of signed_point fixed_point left_pad decimal spell mantissa
record_grade_tx-progress_example =
    record_grade_tx-progress store_as_is read_four (by_teacher 212 (tenths 40) none) gradebook
      (evaluation 211 1 ∷ evaluation 212 2 ∷ []) 9 (tenths 40) (half_of 40 ∷ half_of 39 ∷ [])
      (
        record { section_id = 100; status = in_progress; course_id = 50; student_id = 2 },
        refl,
        refl,
        inr (inr (9, refl, refl, refl)),
        refl,
        refl,
      )
      refl refl refl refl
