-- ===== src/Grades/Repository/Outcome.antt =====
-- backend/internal/grades/repository.go: `RecordGradeTx` as a whole, with the outcome that it sets
-- on the inscription.
use infraestructura_y_servic.Base.{
  ◌≤◌, ◌≡◌, refl, ◌⊎◌, inl, inr, true, false, Option, none, some, List, ◌==◌, arith, length,
  Option-cases, Bool-cases, find_first, subst,
}
use infraestructura_y_servic.Platform.Pgconv.{Text, Numeric}
use infraestructura_y_servic.Store.{Uuid, Evaluation, Grade, Db, SectionEnrollment}
use infraestructura_y_servic.Driver.{PgError, Faults, Result, ok, err, World, M, ◌>>=◌, ◌>>◌, pure}
use infraestructura_y_servic.Driver.Laws.{
  keeps-ok, bind-ok, transaction-ok, transaction-err, Result-cases,
}
use infraestructura_y_servic.SectionEnrollment.Queries.{can_settle, settled}
use infraestructura_y_servic.SectionEnrollment.Repository.{set_section_enrollment_outcome_tx}
use infraestructura_y_servic.SectionEnrollment.Repository.Effects.{with_update, outcome-ok}
use infraestructura_y_servic.Grades.Errors.{Error, translate_pg_error}
use infraestructura_y_servic.Grades.Final.{GradeWeight, Final, compute_weighted_final}
use infraestructura_y_servic.Grades.Pairing.{
  build_grade_weight_pairs, final_text, outcome_of, string_to_numeric,
}
use infraestructura_y_servic.Grades.Queries.{grades_of}
use infraestructura_y_servic.Grades.Repository.{
  RecordGradeParams, RecordOutcome, as_outcome_write, set_outcome, finish_with, settled_by, settle,
  grade_gates, upsert, audit, grade_writes, record_grade_body, record_grade_tx,
}
use infraestructura_y_servic.Grades.Repository.Gates.{Gated, grade_gates-ok}
use infraestructura_y_servic.Grades.Repository.Effects.{Written, upsert-ok, audit-ok}

module _ (scan : Text → Option Numeric) where
  -- The outcome and the final grade stand on the inscription, from the weighted final.
  abbrev pub Finished : Uuid → Final → Option RecordOutcome → Db → Db → Type 0
  Finished id f o db db' =
      (row : SectionEnrollment) × (find_first (can_settle id (outcome_of f)) db.section_enrollments
        ≡ some row)
      × (o ≡ some (record { outcome = outcome_of f; final_grade = final_text f }))
      × (db'
          ≡ with_update (can_settle id (outcome_of f))
              (settled (outcome_of f) (string_to_numeric scan (final_text f)) db.now) db)

  -- Some evaluation of the scheme has no grade yet, and nothing is set; or the final of all grades
  -- is.
  abbrev pub Settled : Uuid → List Evaluation → Option RecordOutcome → Db → Db → Type 0
  Settled id evals o db db' =
      (((length (grades_of id db.grades) == length evals) ≡ false) × (o ≡ none) × (db' ≡ db))
      ⊎ (((length (grades_of id db.grades) == length evals) ≡ true)
          × ((pairs : List GradeWeight) × (build_grade_weight_pairs (grades_of id db.grades) evals
                ≡ some pairs)
              × Finished id (compute_weighted_final pairs) o db db'))

  module _ (faults : Faults) (id : Uuid) (w : World) {w' : World} {o : Option RecordOutcome} where
    set_outcome-ok :
        (f : Final) → set_outcome scan faults id f w ≡ (ok o, w') → Finished id f o w.db w'.db
    unfolding set_outcome as_outcome_write
    set_outcome-ok f h =
        let grade = string_to_numeric scan (final_text f) in
        elim (Result-cases
          (set_section_enrollment_outcome_tx (λ _. faults 12) id (outcome_of f) grade w).0) [
            | inr (e, q) ↦ absurd (ground arith)
            | inl (r, q) ↦
                let (row, found, _, after) =
                  outcome-ok (λ _. faults 12) w {w' = w'} {row = r} id (outcome_of f) grade
                    (ground arith) in
                (row, found, ground arith, after)
          ]

    settled_by-ok :
        (evals : List Evaluation) (siblings : List Grade)
        → siblings ≡ grades_of id w.db.grades
        → settled_by scan faults id evals siblings w ≡ (ok o, w')
        → Settled id evals o w.db w'.db
    unfolding settled_by finish_with
    settled_by-ok evals siblings s h = elim (Bool-cases (length siblings == length evals)) [
      | inr e ↦ inl (ground arith, ground arith, ground arith)
      | inl e ↦ elim (Option-cases (build_grade_weight_pairs siblings evals)) [
        | inl n ↦ absurd (ground arith)
        | inr (pairs, n) ↦ inr (
          ground arith,
          (pairs, ground arith, set_outcome-ok (compute_weighted_final pairs) (ground arith)),
        )
      ]
    ]

    settle-ok :
        (evals : List Evaluation)
        → settle scan faults id evals w ≡ (ok o, w')
        → Settled id evals o w.db w'.db
    unfolding settle
    settle-ok evals h = settled_by-ok evals (grades_of id w.db.grades) refl (ground arith)

module _ (fit : Numeric → Result PgError Numeric) (scan : Text → Option Numeric)
    (p : RecordGradeParams) where
  -- The grade, then the audit row, then the outcome.
  abbrev pub Wrote : Grade → Option RecordOutcome → List Evaluation → Db → Db → Type 0
  Wrote g o evals db db' =
      (old : Option Text) × (mid logged : Db) × Written fit p g old db mid
      × (logged.grades ≡ mid.grades)
      × (logged.section_enrollments ≡ mid.section_enrollments)
      × (mid.next_id ≤ logged.next_id)
      × Settled scan p.section_enrollment_id evals o logged db'

  -- What a recorded grade has behind it: its checks, its write, and the outcome.
  abbrev pub Recorded : Grade → Option RecordOutcome → Db → Db → Type 0
  Recorded g o db db' = (evals : List Evaluation) × Gated p evals db × Wrote g o evals db db'

module _ (fit : Numeric → Result PgError Numeric) (scan : Text → Option Numeric) (faults : Faults)
    (p : RecordGradeParams) where
  Wrote-in_order :
      (evals : List Evaluation) (w v u x w' : World) (r : Grade × Option Text) {g : Grade}
      {o o' : Option RecordOutcome}
      → upsert fit faults p w ≡ (ok r, v)
      → audit faults p r v ≡ (ok tt, u)
      → settle scan faults p.section_enrollment_id evals u ≡ (ok o', x)
      → pure {E = Error} {A = Grade × Option RecordOutcome} (r.0, o') x ≡ (ok (g, o), w')
      → Wrote fit scan p g o evals w.db w'.db
  Wrote-in_order evals w v u x w' r {g} {o} {o'} e1 e2 e3 e4 =
      let (same_grades, _, same_rows, later) = audit-ok faults v p r e2 in
      let q1 : r.0 ≡ g = ground arith in
      let q2 : o' ≡ o = ground arith in
      let q3 : x ≡ w' = ground arith in
      (
        r.1,
        v.db,
        u.db,
        subst (λ y. Written fit p y r.1 w.db v.db) q1 (upsert-ok fit faults p w e1),
        same_grades,
        same_rows,
        later,
        subst (λ y. Settled scan p.section_enrollment_id evals y u.db w'.db) q2
            (subst (λ (y : World). Settled scan p.section_enrollment_id evals o' u.db y.db) q3
              (settle-ok scan faults p.section_enrollment_id u evals e3)),
      )

  grade_writes-ok :
      (evals : List Evaluation) (w : World) {w' : World} {g : Grade} {o : Option RecordOutcome}
      → grade_writes fit scan faults p evals w ≡ (ok (g, o), w')
      → Wrote fit scan p g o evals w.db w'.db
  unfolding grade_writes
  grade_writes-ok evals w {w'} h =
      let id = p.section_enrollment_id in
      let close : Grade × Option Text
          → Option RecordOutcome
          → M Error (Grade × Option RecordOutcome) =
        λ r o. pure (r.0, o) in
      let rest : Grade × Option Text → M Error (Grade × Option RecordOutcome) =
        λ r. settle scan faults id evals >>= close r in
      let (r, v, e1, h1) = bind-ok (upsert fit faults p) (λ r. audit faults p r >> rest r) h in
      let (_, u, e2, h2) = bind-ok (audit faults p r) (λ _. rest r) h1 in
      let (o, x, e3, h3) = bind-ok (settle scan faults id evals) (close r) h2 in
      Wrote-in_order evals w v u x w' r e1 e2 e3 h3

  record_grade_body-ok :
      (w : World) {w' : World} {g : Grade} {o : Option RecordOutcome}
      → record_grade_body fit scan faults p w ≡ (ok (g, o), w')
      → Recorded fit scan p g o w.db w'.db
  unfolding record_grade_body
  record_grade_body-ok w h =
      let (evals, e1, h1) =
        keeps-ok (grade_gates faults p) (λ evals. grade_writes fit scan faults p evals)
          (λ _ _ e. (grade_gates-ok faults p e).1) h in
      (evals, (grade_gates-ok faults p e1).0, grade_writes-ok evals w h1)

  -- A grade that is recorded has passed every check: the inscription is live and not withdrawn, the
  -- caller may grade it, and the evaluation is in the live scheme of the course. It is the first
  -- grade of its key, or an update of the expected version; and the inscription gets its final
  -- grade and its outcome exactly where it has as many live grades as the scheme has evaluations.
  pub record_grade_tx-Recorded :
      (w : World) {w' : World} {g : Grade} {o : Option RecordOutcome}
      → record_grade_tx fit scan faults p w ≡ (ok (g, o), w')
      → Recorded fit scan p g o w.db w'.db
  unfolding record_grade_tx
  record_grade_tx-Recorded w h =
      record_grade_body-ok w (transaction-ok translate_pg_error (faults 0) (faults 13) _ w h)

  -- A grade that is refused, or that a failing driver call or commit ends, leaves the tables as
  -- they were.
  pub record_grade_tx-err :
      (w : World) {w' : World} {e : Error}
      → record_grade_tx fit scan faults p w ≡ (err e, w')
      → w'.db ≡ w.db
  unfolding record_grade_tx
  record_grade_tx-err w h = transaction-err translate_pg_error (faults 0) (faults 13) _ w h
