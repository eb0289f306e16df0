-- ===== src/Grades/Versions/History.antt =====
-- backend/internal/grades/repository.go: the methods that write, run in any order with any
-- failures.
use infraestructura_y_servic.Base.{
  ◌≡◌, refl, ◌∙◌, inl, inr, Option, some, List, [], ◌∷◌, ◌==◌, arith, find_first, ap,
}
use infraestructura_y_servic.Platform.Pgconv.{Text, Numeric}
use infraestructura_y_servic.Store.{Uuid, Evaluation, Grade, Db}
use infraestructura_y_servic.Driver.{PgError, Faults, Result, World}
use infraestructura_y_servic.Driver.Laws.{ends}
use infraestructura_y_servic.Grades.Repository.{RecordGradeParams, RecordOutcome, record_grade_tx}
use infraestructura_y_servic.Grades.Repository.Outcome.{
  Recorded, Settled, record_grade_tx-Recorded, record_grade_tx-err,
}
use infraestructura_y_servic.Grades.Schemes.{
  CreateSchemeParams, create_evaluation_scheme_tx, recreate_evaluation_scheme_tx,
}
use infraestructura_y_servic.Grades.Schemes.Effects.{GradesKept}
use infraestructura_y_servic.Grades.Schemes.Refinement.{
  create_evaluation_scheme_tx-refines, recreate_evaluation_scheme_tx-refines,
  create_evaluation_scheme_tx-err, recreate_evaluation_scheme_tx-err,
}
use infraestructura_y_servic.Grades.Versions.{
  IsSound, Moved, same, first, next, IsLater, IsLater-trans, Moved-IsSound, Moved-IsLater,
}

pub data Action : Type 0 where
  record_grade : RecordGradeParams → Action
  create_scheme recreate_scheme : CreateSchemeParams → Action

-- The columns of weights and of grades, and the reader of decimals.
module _ (fit_weight fit_value : Numeric → Result PgError Numeric)
    (scan : Text → Option Numeric) where
  unfoldable pub perform : Faults → Action → World → World
  perform faults (record_grade p) w = (record_grade_tx fit_value scan faults p w).1
  perform faults (create_scheme p) w = (create_evaluation_scheme_tx fit_weight faults p w).1
  perform faults (recreate_scheme p) w = (recreate_evaluation_scheme_tx fit_weight faults p w).1

  unfoldable pub run : List (Faults × Action) → World → World
  run [] w = w
  run ((faults, a) ∷ rest) w = run rest (perform faults a w)

  Settled-GradesKept :
      (id : Uuid) (evals : List Evaluation) {o : Option RecordOutcome} (db db' : Db)
      → Settled scan id evals o db db'
      → GradesKept db db'
  Settled-GradesKept id evals db db' (inl (_, _, q)) = (ground arith, ground arith)
  Settled-GradesKept id evals db db' (inr (_, (_, _, (_, _, _, q)))) = (ground arith, ground arith)

  Recorded-Moved :
      (p : RecordGradeParams) {g : Grade} {o : Option RecordOutcome} (db db' : Db)
      → Recorded fit_value scan p g o db db'
      → Moved db db'
  Recorded-Moved p db db'
        (evals, _, (_, mid, logged, inl (actor, v, _, _, free, _, _, q), rows, _, le, s)) =
      let (kept, later) = Settled-GradesKept p.section_enrollment_id evals logged db' s in
      first p.evaluation_id p.section_enrollment_id actor v free
        (kept ∙ rows ∙ ap (λ (d : Db). d.grades) q)
        (omega (arith, ap (λ (d : Db). d.next_id) q, le, later))
  Recorded-Moved p db db'
        (
          evals,
          _,
          (_, mid, logged, inr (g, version, row, actor, v, _, _, _, _, _, _, _, q), rows, _, le, s),
        ) =
      let (kept, later) = Settled-GradesKept p.section_enrollment_id evals logged db' s in
      next g.id version actor v (kept ∙ rows ∙ ap (λ (d : Db). d.grades) q)
        (omega (arith, ap (λ (d : Db). d.next_id) q, le, later))

  unmoved : {db db' : Db} → db' ≡ db → Moved db db'
  unmoved q = same (ground arith) (ground arith)

  kept_still : {db db' : Db} → GradesKept db db' → Moved db db'
  kept_still (q, le) = same q le

  perform-Moved : (faults : Faults) (a : Action) (w : World) → Moved w.db (perform faults a w).db
  unfolding perform
  perform-Moved faults (record_grade p) w =
      ends (λ v. Moved w.db v.db) (record_grade_tx fit_value scan faults p) w
        (λ r v h. Recorded-Moved p w.db v.db (record_grade_tx-Recorded fit_value scan faults p w h))
        (λ _ v h. unmoved (record_grade_tx-err fit_value scan faults p w h))
  perform-Moved faults (create_scheme p) w =
      ends (λ v. Moved w.db v.db) (create_evaluation_scheme_tx fit_weight faults p) w
        (λ r v h. kept_still (create_evaluation_scheme_tx-refines fit_weight faults p w h).3)
        (λ _ v h. unmoved (create_evaluation_scheme_tx-err fit_weight faults p w h))
  perform-Moved faults (recreate_scheme p) w =
      ends (λ v. Moved w.db v.db) (recreate_evaluation_scheme_tx fit_weight faults p) w
        (λ r v h. kept_still (recreate_evaluation_scheme_tx-refines fit_weight faults p w h).3)
        (λ _ v h. unmoved (recreate_evaluation_scheme_tx-err fit_weight faults p w h))

  -- Whatever grades are recorded and schemes created and recreated, with any failures, the grades
  -- keep distinct identifiers, and an evaluation and an inscription have at most one grade.
  pub run-grades-IsSound :
      (actions : List (Faults × Action)) (w : World) → IsSound w.db → IsSound (run actions w).db
  unfolding run
  run-grades-IsSound [] w h = h
  run-grades-IsSound ((faults, a) ∷ rest) w h =
      run-grades-IsSound rest (perform faults a w)
        (Moved-IsSound w.db (perform faults a w).db (perform-Moved faults a w) h)

  -- The version stamps a grade: after any such sequence the grade is still there, and its row is the
  -- same in every column or has a higher version.
  pub run-IsLater :
      (actions : List (Faults × Action)) (w : World) (id : Uuid) {g : Grade}
      → IsSound w.db
      → find_first (λ x. x.id == id) w.db.grades ≡ some g
      → (g' : Grade) × (find_first (λ x. x.id == id) (run actions w).db.grades ≡ some g')
        × IsLater g g'
  unfolding run
  run-IsLater [] w id {g} h f = (g, f, (refl, refl, inl refl))
  run-IsLater ((faults, a) ∷ rest) w id {g} h f =
      let v = perform faults a w in
      let m = perform-Moved faults a w in
      let (x, f1, l1) = Moved-IsLater w.db v.db id h m f in
      let (y, f2, l2) = run-IsLater rest v id (Moved-IsSound w.db v.db m h) f1 in
      (y, f2, IsLater-trans g x y l1 l2)
