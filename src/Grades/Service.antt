-- ===== src/Grades/Service.antt =====
-- backend/internal/grades/service.go: the methods around the transactions. `uuid.Parse`, the
-- decimal readers and the columns are parameters, and the session's user is an argument.
mod Tests
use infraestructura_y_servic.Base.{
  ℕ, String, ◌≡◌, refl, ◌⊎◌, inl, inr, Bool, true, false, ◌||◌, Option, none, some, List, ◌==◌,
  arith, Option-cases, subst,
}
use infraestructura_y_servic.Platform.Pgconv.{Text, Numeric}
use infraestructura_y_servic.Store.{Uuid, Evaluation, Grade}
use infraestructura_y_servic.Driver.{
  PgError, Faults, Result, ok, err, World, M, ◌>>=◌, pure, raise, lift,
}
use infraestructura_y_servic.Driver.Laws.{keeps-ok, Result-cases}
use infraestructura_y_servic.Grades.Errors.{Error, not_found, invalid_input}
use infraestructura_y_servic.Grades.Rat.{Rat, frac, lt}
use infraestructura_y_servic.Base.Int.{pos}
use infraestructura_y_servic.Grades.Weights.{
  validate_weights, parse_grade_value, parse_grade_value-accepts,
}
use infraestructura_y_servic.Grades.Queries.{ForGrade, for_grade, teaches}
use infraestructura_y_servic.Grades.Repository.{RecordGradeParams, RecordOutcome, record_grade_tx}
use infraestructura_y_servic.Grades.Repository.Gates.{MayGrade}
use infraestructura_y_servic.Grades.Repository.Outcome.{record_grade_tx-Recorded}
use infraestructura_y_servic.Grades.Schemes.{
  list_evaluations, create_evaluation_scheme_tx, recreate_evaluation_scheme_tx,
}

unfoldable pub caller_id : Option Uuid → M Error Uuid
caller_id none = raise not_found
caller_id (some user) = pure user

module _ (parse : String → Option Uuid) where
  unfoldable pub parse_uuid : String → M Error Uuid
  parse_uuid s w = elim (parse s) [ none ↦ (err invalid_input, w) | some id ↦ (ok id, w) ]

  unfoldable pub list_evaluations_of : Faults → String → M Error (List Evaluation)
  list_evaluations_of faults course = do id ← parse_uuid course; list_evaluations faults id

module _ (parse : String → Option Uuid) (set_string : String → Option Rat)
    (scan : String → Option Numeric) (fit : Numeric → Result PgError Numeric)
    (faults : Faults) where
  unfoldable pub create_evaluation_scheme : String → List String → M Error (List Evaluation)
  create_evaluation_scheme course weight_strs = do
    id ← parse_uuid parse course
    weights ← lift (validate_weights set_string scan weight_strs)
    create_evaluation_scheme_tx fit faults (record { course_id = id; weights = weights })

  unfoldable pub recreate_evaluation_scheme : String → List String → M Error (List Evaluation)
  recreate_evaluation_scheme course weight_strs = do
    id ← parse_uuid parse course
    weights ← lift (validate_weights set_string scan weight_strs)
    recreate_evaluation_scheme_tx fit faults (record { course_id = id; weights = weights })

-- What `RecordGrade` and `OverrideGrade` share: identifiers, value, caller, transaction.
module _ (parse : String → Option Uuid) (set_string : String → Option Rat)
    (scan : String → Option Numeric) (scan_final : Text → Option Numeric)
    (fit : Numeric → Result PgError Numeric) (faults : Faults) where
  unfoldable pub write_grade :
      (is_override : Bool) (caller : Option Uuid) (evaluation inscription value : String)
      (expected : Option ℕ)
      → M Error (Grade × Option RecordOutcome)
  write_grade is_override caller evaluation inscription value expected = do
    evaluation_id ← parse_uuid parse evaluation
    inscription_id ← parse_uuid parse inscription
    number ← lift (parse_grade_value set_string scan value)
    actor ← caller_id caller
    record_grade_tx fit scan_final faults (record {
      evaluation_id = evaluation_id;
      section_enrollment_id = inscription_id;
      value = number;
      expected_version = expected;
      is_override = is_override;
      actor_id = some actor;
    })

  unfoldable pub record_grade :
      Option Uuid → String → String → String → Option ℕ → M Error (Grade × Option RecordOutcome)
  record_grade = write_grade false

  unfoldable pub override_grade :
      Option Uuid → String → String → String → Option ℕ → M Error (Grade × Option RecordOutcome)
  override_grade = write_grade true

  -- A grade written by a teacher: the session's user teaches the section of the inscription and is
  -- not its student, and the value reads as a number between 1 and 7.
  abbrev pub TaughtBy : Option Uuid → String → String → World → Type 0
  TaughtBy caller inscription value w =
      (user : Uuid) × (id : Uuid) × (se : ForGrade) × (x : Rat) × (caller ≡ some user)
      × (parse inscription ≡ some id)
      × (for_grade id w.db ≡ some se)
      × ((se.student_id == user) ≡ false)
      × (teaches se.section_id user w.db ≡ true)
      × (set_string value ≡ some x)
      × (lt x (frac (pos 10) 10) ≡ false)
      × (lt (frac (pos 70) 10) x ≡ false)

  taught :
      (p : RecordGradeParams) (user : Uuid) (se : ForGrade) (w : World)
      → p.is_override ≡ false
      → p.actor_id ≡ some user
      → MayGrade p se w.db
      → ((se.student_id == user) ≡ false) × (teaches se.section_id user w.db ≡ true)
  taught p user se w o a (inl q) = absurd (ground arith)
  taught p user se w o a (inr (inl q)) = absurd (ground arith)
  taught p user se w o a (inr (inr (actor, q, s, t))) =
      let same : actor ≡ user = ground arith in
      (
        subst (λ u. (se.student_id == u) ≡ false) same s,
        subst (λ u. teaches se.section_id u w.db ≡ true) same t,
      )

  -- `RecordGrade` only succeeds for a user of the session that teaches the section and is not the
  -- student, with a value between 1 and 7.
  pub record_grade-TaughtBy :
      (caller : Option Uuid) (evaluation inscription value : String) (expected : Option ℕ)
      (w : World) {w' : World} {g : Grade} {o : Option RecordOutcome}
      → record_grade caller evaluation inscription value expected w ≡ (ok (g, o), w')
      → TaughtBy caller inscription value w
  unfolding record_grade write_grade parse_uuid caller_id
  record_grade-TaughtBy caller evaluation inscription value expected w {w'} {g} {o} h =
      elim (Option-cases (parse evaluation)) [
        | inl e ↦ absurd (ground arith)
        | inr (eid, e) ↦ elim (Option-cases (parse inscription)) [
          | inl i ↦ absurd (ground arith)
          | inr (id, i) ↦ elim (Result-cases (parse_grade_value set_string scan value)) [
            | inr (_, v) ↦ absurd (ground arith)
            | inl (n, v) ↦ elim (Option-cases caller) [
              | inl c ↦ absurd (ground arith)
              | inr (user, c) ↦
                  let p : RecordGradeParams = record {
                    evaluation_id = eid;
                    section_enrollment_id = id;
                    value = n;
                    expected_version = expected;
                    is_override = false;
                    actor_id = some user;
                  } in
                  let run : record_grade_tx fit scan_final faults p w ≡ (ok (g, o), w') =
                    ground arith in
                  let (_, (se, found, _, may, _, _), _) =
                    record_grade_tx-Recorded fit scan_final faults p w run in
                  let (other, there) = taught p user se w refl refl may in
                  let (x, r, low, high, _) =
                    (parse_grade_value-accepts set_string scan value n).0 v in
                  (user, id, se, x, c, i, found, other, there, r, low, high)
            ]
          ]
        ]
      ]
