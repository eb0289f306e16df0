-- ===== src/Grades/Repository/Gates.antt =====
-- backend/internal/grades/repository.go: what `RecordGradeTx` has checked when it comes to writing.
use infraestructura_y_servic.Base.{
  ◌≡◌, ◌⊎◌, inl, inr, true, false, none, some, List, ◌==◌, any_of, arith, Option-cases, Bool-cases,
}
use infraestructura_y_servic.Store.{Uuid, Evaluation, Db}
use infraestructura_y_servic.Driver.{Faults, ok, World, M, ◌>>=◌, ◌>>◌}
use infraestructura_y_servic.Driver.Laws.{keeps-ok}
use infraestructura_y_servic.SectionEnrollment.Queries.{is_withdrawn}
use infraestructura_y_servic.Grades.Errors.{Error}
use infraestructura_y_servic.Grades.Queries.{ForGrade, for_grade, teaches, scheme_of}
use infraestructura_y_servic.Grades.Repository.{
  RecordGradeParams, set_lock_timeout, lock_inscription, teacher_of, actor_gate, missing_evaluation,
  scheme_with, grade_gates,
}

-- An administrator, a system write, or a teacher of the section that is not the student.
abbrev pub MayGrade : RecordGradeParams → ForGrade → Db → Type 0
MayGrade p se db =
    (p.is_override ≡ true)
    ⊎ (p.actor_id ≡ none)
    ⊎ ((actor : Uuid) × (p.actor_id ≡ some actor)
        × ((se.student_id == actor) ≡ false)
        × (teaches se.section_id actor db ≡ true))

-- A grade that may be written, and the live scheme of its course.
abbrev pub Gated : RecordGradeParams → List Evaluation → Db → Type 0
Gated p evals db =
    (se : ForGrade) × (for_grade p.section_enrollment_id db ≡ some se)
    × (is_withdrawn se.status ≡ false)
    × MayGrade p se db
    × (evals ≡ scheme_of se.course_id db)
    × (any_of (λ e. e.id == p.evaluation_id) evals ≡ true)

module _ (faults : Faults) (w : World) {w' : World} where
  set_lock_timeout-ok : set_lock_timeout faults w ≡ (ok tt, w') → w' ≡ w
  unfolding set_lock_timeout
  set_lock_timeout-ok h = ground arith

  lock_inscription-ok :
      (id : Uuid) {se : ForGrade}
      → lock_inscription faults id w ≡ (ok se, w')
      → (for_grade id w.db ≡ some se) × (is_withdrawn se.status ≡ false) × (w' ≡ w)
  unfolding lock_inscription
  lock_inscription-ok id h = elim (Option-cases (for_grade id w.db)) [
    | inl e ↦ absurd (ground arith)
    | inr (se, e) ↦ (ground arith, ground arith, ground arith)
  ]

  teacher_of-ok :
      (actor : Uuid) (se : ForGrade)
      → teacher_of faults actor se w ≡ (ok tt, w')
      → ((se.student_id == actor) ≡ false) × (teaches se.section_id actor w.db ≡ true) × (w' ≡ w)
  unfolding teacher_of
  teacher_of-ok actor se h = ground arith

  actor_gate-ok :
      (p : RecordGradeParams) (se : ForGrade)
      → actor_gate faults p se w ≡ (ok tt, w')
      → MayGrade p se w.db × (w' ≡ w)
  unfolding actor_gate
  actor_gate-ok p se h = elim (Bool-cases p.is_override) [
    | inl e ↦ (inl e, ground arith)
    | inr e ↦ elim (Option-cases p.actor_id) [
      | inl n ↦ (inr (inl n), ground arith)
      | inr (actor, n) ↦
          let (a, b, c) = teacher_of-ok actor se (ground arith) in (inr (inr (actor, n, a, b)), c)
    ]
  ]

  scheme_with-ok :
      (evaluation : Uuid) (se : ForGrade) {evals : List Evaluation}
      → scheme_with faults evaluation se w ≡ (ok evals, w')
      → (evals ≡ scheme_of se.course_id w.db)
        × (any_of (λ e. e.id == evaluation) evals ≡ true)
        × (w' ≡ w)
  unfolding scheme_with missing_evaluation
  scheme_with-ok evaluation se h =
      elim (Bool-cases (any_of (λ e. e.id == evaluation) (scheme_of se.course_id w.db))) [
        | inl e ↦ (ground arith, ground arith, ground arith)
        | inr e ↦ absurd (ground arith)
      ]

module _ (faults : Faults) (p : RecordGradeParams) where
  -- A write of a grade that gets past its checks has met all of them, and changed nothing.
  pub grade_gates-ok :
      {w w' : World} {evals : List Evaluation}
      → grade_gates faults p w ≡ (ok evals, w')
      → Gated p evals w.db × (w' ≡ w)
  unfolding grade_gates
  grade_gates-ok {w} h =
      let id = p.section_enrollment_id in
      let after : ForGrade → M Error (List Evaluation) =
        λ x. actor_gate faults p x >> scheme_with faults p.evaluation_id x in
      let (_, _, h1) =
        keeps-ok (set_lock_timeout faults) (λ _. lock_inscription faults id >>= after)
          (λ _ _ e. set_lock_timeout-ok faults w e) h in
      let (se, e2, h2) =
        keeps-ok (lock_inscription faults id) after (λ _ _ e. (lock_inscription-ok faults w id e).2)
          h1 in
      let (_, e3, h3) =
        keeps-ok (actor_gate faults p se) (λ _. scheme_with faults p.evaluation_id se)
          (λ _ _ e. (actor_gate-ok faults w p se e).1) h2 in
      let (found, active, _) = lock_inscription-ok faults w id e2 in
      let (scheme, member, same) = scheme_with-ok faults w p.evaluation_id se h3 in
      ((se, found, active, (actor_gate-ok faults w p se e3).0, scheme, member), same)
