-- ===== src/Grades/Repository/Progress.antt =====
-- backend/internal/grades/repository.go: `RecordGradeTx` with a driver that answers every call.
use infraestructura_y_servic.Base.{
  ◌≡◌, refl, ◌∙◌, inl, inr, Bool, true, false, ◌&&◌, Option, none, some, List, ◌∷◌, ◌==◌, any_of,
  arith, length, find_first, find_first-stronger, find_first-holds, Option-cases, Bool-cases,
}
use infraestructura_y_servic.Platform.Pgconv.{Text, Numeric}
use infraestructura_y_servic.Store.{Uuid, is_null, Evaluation, Grade, SectionEnrollment, Db}
use infraestructura_y_servic.Driver.{PgError, no_faults, Result, ok, World, M, ◌>>◌}
use infraestructura_y_servic.Driver.Laws.{bind-value}
use infraestructura_y_servic.SectionEnrollment.Queries.{
  is_withdrawn, is_outcome, can_settle, settled,
}
use infraestructura_y_servic.SectionEnrollment.Repository.Effects.{with_update}
use infraestructura_y_servic.SectionEnrollment.Repository.Progress.{outcome-progress}
use infraestructura_y_servic.Grades.Errors.{Error}
use infraestructura_y_servic.Grades.Final.{GradeWeight, Final, compute_weighted_final}
use infraestructura_y_servic.Grades.Pairing.{
  build_grade_weight_pairs, outcome_of, final_text, string_to_numeric,
}
use infraestructura_y_servic.Grades.Queries.{
  ForGrade, for_grade, scheme_of, has_grade_key, fresh_grade, with_grade, grades_of, insert_grade,
}
use infraestructura_y_servic.Grades.Repository.{
  RecordGradeParams, RecordOutcome, set_lock_timeout, lock_inscription, teacher_of, actor_gate,
  scheme_with, grade_gates, inserted_or, upsert, audit, as_outcome_write, set_outcome, finish_with,
  settled_by, settle, grade_writes, record_grade_body, record_grade_tx,
}
use infraestructura_y_servic.Grades.Repository.Gates.{Gated, MayGrade}

module _ (p : RecordGradeParams) (w : World) where
  lock_inscription-goes :
      (id : Uuid) (se : ForGrade)
      → for_grade id w.db ≡ some se
      → is_withdrawn se.status ≡ false
      → lock_inscription no_faults id w ≡ (ok se, w)
  unfolding lock_inscription
  lock_inscription-goes id se f h = ground arith

  actor_gate-goes : (se : ForGrade) → MayGrade p se w.db → actor_gate no_faults p se w ≡ (ok tt, w)
  unfolding actor_gate teacher_of
  actor_gate-goes se (inl o) = ground arith
  actor_gate-goes se (inr (inl n)) = ground arith
  actor_gate-goes se (inr (inr (actor, a, s, t))) = ground arith

  scheme_with-goes :
      (evaluation : Uuid) (se : ForGrade) (evals : List Evaluation)
      → evals ≡ scheme_of se.course_id w.db
      → any_of (λ e. e.id == evaluation) evals ≡ true
      → scheme_with no_faults evaluation se w ≡ (ok evals, w)
  unfolding scheme_with
  scheme_with-goes evaluation se evals q h = ground arith

  grade_gates-goes :
      (evals : List Evaluation) → Gated p evals w.db → grade_gates no_faults p w ≡ (ok evals, w)
  unfolding grade_gates set_lock_timeout
  grade_gates-goes evals (se, found, active, may, q, h) =
      let id = p.section_enrollment_id in
      let last : ForGrade → M Error (List Evaluation) =
        λ x. scheme_with no_faults p.evaluation_id x in
      bind-value (lock_inscription no_faults id) (λ x. actor_gate no_faults p x >> last x)
        (lock_inscription-goes id se found active)
      ∙ bind-value (actor_gate no_faults p se) (λ _. last se) (actor_gate-goes se may)
      ∙ scheme_with-goes p.evaluation_id se evals q h

is_outcome-outcome_of : (f : Final) → is_outcome (outcome_of f) ≡ true
unfolding outcome_of
is_outcome-outcome_of f = ground arith

-- The inscription of a grade may have an outcome.
settles :
    (id : Uuid) (f : Final) (db : Db) (se : ForGrade)
    → for_grade id db ≡ some se
    → is_withdrawn se.status ≡ false
    → (row : SectionEnrollment) × (find_first (can_settle id (outcome_of f)) db.section_enrollments
        ≡ some row)
settles id f db se h active =
    let live : SectionEnrollment → Bool = λ r. r.id == id && is_null r.deleted_at in
    elim (Option-cases (find_first live db.section_enrollments)) [
      | inl e ↦ absurd (ground arith)
      | inr (row, e) ↦
          let status : row.status ≡ se.status = ground arith in
          (
            row,
            find_first-stronger (can_settle id (outcome_of f)) live db.section_enrollments
                (λ x q. ground arith) e
                (ground
                  (arith, find_first-holds live db.section_enrollments e, is_outcome-outcome_of f)),
          )
    ]

module _ (scan : Text → Option Numeric) (id : Uuid) (w : World) where
  set_outcome-goes :
      (f : Final) (row : SectionEnrollment)
      → find_first (can_settle id (outcome_of f)) w.db.section_enrollments ≡ some row
      → (w' : World) × (set_outcome scan no_faults id f w
          ≡ (ok (some (record { outcome = outcome_of f; final_grade = final_text f })), w'))
  unfolding set_outcome as_outcome_write
  set_outcome-goes f row h =
      let grade = string_to_numeric scan (final_text f) in
      let done = outcome-progress id (outcome_of f) grade w h in
      (
        record w {
          db =
              with_update (can_settle id (outcome_of f)) (settled (outcome_of f) grade w.db.now)
                w.db;
        },
        ground (arith, done),
      )

  settled_by-goes :
      (evals : List Evaluation) (siblings : List Grade) (pairs : List GradeWeight) (se : ForGrade)
      → build_grade_weight_pairs siblings evals ≡ some pairs
      → for_grade id w.db ≡ some se
      → is_withdrawn se.status ≡ false
      → (o : Option RecordOutcome) × (w' : World) × (settled_by scan no_faults id evals siblings w
          ≡ (ok o, w'))
  unfolding settled_by finish_with
  settled_by-goes evals siblings pairs se b h active =
      let f = compute_weighted_final pairs in
      let (row, found) = settles id f w.db se h active in
      let (w', done) = set_outcome-goes f row found in
      elim (Bool-cases (length siblings == length evals)) [
        | inl e ↦ (
          some (record { outcome = outcome_of f; final_grade = final_text f }),
          w',
          rw (settled_by, e, b) done,
        )
        | inr e ↦ (none, w, rw (settled_by, e) refl)
      ]

  -- Whether the scheme is complete or not, the last step goes through.
  settle-goes :
      (evals : List Evaluation) (pairs : List GradeWeight) (se : ForGrade)
      → build_grade_weight_pairs (grades_of id w.db.grades) evals ≡ some pairs
      → for_grade id w.db ≡ some se
      → is_withdrawn se.status ≡ false
      → (o : Option RecordOutcome) × (w' : World) × (settle scan no_faults id evals w ≡ (ok o, w'))
  unfolding settle
  settle-goes evals pairs se = settled_by-goes evals (grades_of id w.db.grades) pairs se

module _ (fit : Numeric → Result PgError Numeric) (scan : Text → Option Numeric)
    (p : RecordGradeParams) (w : World) where
  -- The first grade of a key goes through where every check is met and the driver answers: the
  -- caller may grade, the evaluation is in the scheme, the value fits its column, and the grades of
  -- the inscription all have a weight.
  pub record_grade_tx-progress :
      (evals : List Evaluation) (actor : Uuid) (value : Numeric) (pairs : List GradeWeight)
      → Gated p evals w.db
      → p.actor_id ≡ some actor
      → fit p.value ≡ ok value
      → any_of (has_grade_key p.evaluation_id p.section_enrollment_id) w.db.grades ≡ false
      → build_grade_weight_pairs
          (grades_of p.section_enrollment_id
            (fresh_grade p.evaluation_id p.section_enrollment_id actor value w.db ∷ w.db.grades))
          evals
        ≡ some pairs
      → (o : Option RecordOutcome) × (w' : World) × (record_grade_tx fit scan no_faults p w
          ≡ (ok (fresh_grade p.evaluation_id p.section_enrollment_id actor value w.db, o), w'))
  unfolding record_grade_tx record_grade_body grade_writes upsert inserted_or insert_grade audit
  record_grade_tx-progress evals actor value pairs gated a v free b =
      let (se, found, active, _, _, _) = gated in
      let u : World = record w {
        db = with_grade p.evaluation_id p.section_enrollment_id actor value w.db;
      } in
      let (o, w', done) =
        settle-goes scan p.section_enrollment_id u evals pairs se b found active in
      let gates = grade_gates-goes p w evals gated in (o, w', ground (arith, done, gates))
