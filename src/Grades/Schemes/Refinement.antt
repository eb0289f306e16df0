-- ===== src/Grades/Schemes/Refinement.antt =====
-- backend/internal/grades/repository.go: the live schemes of the courses as a function, which
-- creating and recreating a scheme changes at one course.
use infraestructura_y_servic.Base.{
  ◌∙◌, ◌<◌, ◌≡◌, refl, sym, inl, inr, subst, Bool, List, [], ◌∷◌, ◌==◌, arith, All, select,
  count_if, update_where, if◌then◌else◌, Bool-cases,
}
use infraestructura_y_servic.Platform.Pgconv.{Numeric}
use infraestructura_y_servic.Store.{Uuid, Evaluation, Db}
use infraestructura_y_servic.Driver.{PgError, Faults, Result, ok, err, World, M, ◌>>=◌}
use infraestructura_y_servic.Driver.Laws.{keeps-ok, bind-ok, transaction-err, transaction-ok}
use infraestructura_y_servic.Grades.Errors.{Error, translate_pg_error}
use infraestructura_y_servic.Grades.Queries.{
  is_live_for, sort_by_position, scheme_of, soft_deleted, grades_live_for,
  soft_delete_evaluations_for_course,
}
use infraestructura_y_servic.Grades.Schemes.{
  CreateSchemeParams, no_scheme, no_grades, drop_scheme, insert_evaluations, create_body,
  create_evaluation_scheme_tx, recreate_body, recreate_evaluation_scheme_tx,
}
use infraestructura_y_servic.Grades.Schemes.Effects.{
  GradesKept, Stands, Replaced, insert_evaluations-ok,
}

-- A table without a live evaluation of the course.
select-none : (p : Evaluation → Bool) (xs : List Evaluation) → count_if p xs ≡ 0 → select p xs ≡ []
unfolding count_if select
select-none p [] h = refl
select-none p (x ∷ xs) h = ground (arith, select-none p xs)

select-soft_deleted :
    (course c : Uuid) (now : Uuid) (xs : List Evaluation)
    → select (is_live_for c) (update_where (is_live_for course) (soft_deleted now) xs)
      ≡ (if course == c then [] else select (is_live_for c) xs)
unfolding select update_where
select-soft_deleted course c now [] = ground arith
select-soft_deleted course c now (x ∷ xs) = ground (arith, select-soft_deleted course c now xs)

module _ (faults : Faults) (course : Uuid) (w : World) {w' : World} where
  no_scheme-ok : no_scheme faults course w ≡ (ok tt, w') → (scheme_of course w.db ≡ []) × (w' ≡ w)
  unfolding no_scheme scheme_of sort_by_position
  no_scheme-ok h = (ground (arith, select-none (is_live_for course) w.db.evaluations), ground arith)

  no_grades-ok :
      no_grades faults course w ≡ (ok tt, w')
      → (count_if (grades_live_for course w.db) w.db.grades ≡ 0) × (w' ≡ w)
  unfolding no_grades
  no_grades-ok h = (ground arith, ground arith)

  drop_scheme-ok :
      drop_scheme faults course w ≡ (ok tt, w')
      → Replaced course [] w.db w'.db × GradesKept w.db w'.db
  unfolding drop_scheme soft_delete_evaluations_for_course scheme_of sort_by_position
  drop_scheme-ok h = (
    λ c. ground (arith, select-soft_deleted course c w.db.now w.db.evaluations),
    (ground arith, ground arith),
  )

module _ (fit : Numeric → Result PgError Numeric) (faults : Faults) (p : CreateSchemeParams) where
  -- The loop on a course without a scheme.
  from_nothing :
      (w : World) {w' : World} {evals : List Evaluation} (db : Db)
      → Replaced p.course_id [] db w.db
      → insert_evaluations fit faults p.course_id 0 p.weights w ≡ (ok evals, w')
      → Stands fit p.course_id 0 p.weights evals
        × Replaced p.course_id evals db w'.db
        × GradesKept w.db w'.db
  from_nothing w {w'} {evals} db empty h =
      let none_there : scheme_of p.course_id w.db ≡ [] = ground (arith, empty p.course_id) in
      let (s, k, kept) =
        insert_evaluations-ok fit faults p.course_id 0 p.weights w
          (subst (All (λ y. y.position < 1)) (sym none_there) tt) h in
      (
        s,
        λ c. elim (Bool-cases (p.course_id == c)) [
          | inl e ↦ ground (arith, k c, empty c)
          | inr e ↦ ground (arith, k c, empty c)
        ],
        kept,
      )

  no_scheme-Replaced : (db : Db) → scheme_of p.course_id db ≡ [] → Replaced p.course_id [] db db
  no_scheme-Replaced db h c = elim (Bool-cases (p.course_id == c)) [
    | inl e ↦
        let q : p.course_id ≡ c = ground arith in
        ground (arith, subst (λ x. scheme_of x db ≡ []) q h)
    | inr e ↦ ground arith
  ]

  -- A scheme that is created is the scheme of a course that had none: one evaluation for each
  -- weight, as the column stores it, with positions from 1 on in the order of the weights. The
  -- schemes of the other courses and all grades stay as they were.
  pub create_evaluation_scheme_tx-refines :
      (w : World) {w' : World} {evals : List Evaluation}
      → create_evaluation_scheme_tx fit faults p w ≡ (ok evals, w')
      → (scheme_of p.course_id w.db ≡ [])
        × Stands fit p.course_id 0 p.weights evals
        × Replaced p.course_id evals w.db w'.db
        × GradesKept w.db w'.db
  unfolding create_evaluation_scheme_tx create_body
  create_evaluation_scheme_tx-refines w h =
      let inside = transaction-ok translate_pg_error (faults 0) (faults 1) _ w h in
      let (_, e1, h1) =
        keeps-ok (no_scheme faults p.course_id)
          (λ _. insert_evaluations fit faults p.course_id 0 p.weights)
          (λ _ _ e. (no_scheme-ok faults p.course_id w e).1) inside in
      let missing = (no_scheme-ok faults p.course_id w e1).0 in
      let (s, k, kept) = from_nothing w w.db (λ c. no_scheme-Replaced w.db missing c) h1 in
      (missing, s, k, kept)

  -- A scheme is only recreated while no grade references the live scheme of the course, and then
  -- replaces it, in the same sense.
  pub recreate_evaluation_scheme_tx-refines :
      (w : World) {w' : World} {evals : List Evaluation}
      → recreate_evaluation_scheme_tx fit faults p w ≡ (ok evals, w')
      → (count_if (grades_live_for p.course_id w.db) w.db.grades ≡ 0)
        × Stands fit p.course_id 0 p.weights evals
        × Replaced p.course_id evals w.db w'.db
        × GradesKept w.db w'.db
  unfolding recreate_evaluation_scheme_tx recreate_body
  recreate_evaluation_scheme_tx-refines w h =
      let inside = transaction-ok translate_pg_error (faults 0) (faults 1) _ w h in
      let fill : M Error (List Evaluation) =
        insert_evaluations fit faults p.course_id 0 p.weights in
      let (_, e1, h1) =
        keeps-ok (no_grades faults p.course_id) (λ _. drop_scheme faults p.course_id >>= λ _. fill)
          (λ _ _ e. (no_grades-ok faults p.course_id w e).1) inside in
      let (_, u, e2, h2) = bind-ok (drop_scheme faults p.course_id) (λ _. fill) h1 in
      let (before, low) = (drop_scheme-ok faults p.course_id w e2).1 in
      let (s, k, (same, high)) =
        from_nothing u w.db (drop_scheme-ok faults p.course_id w e2).0 h2 in
      ((no_grades-ok faults p.course_id w e1).0, s, k, (same ∙ before, omega (arith, low, high)))

  -- A scheme that is refused, or that a failing driver call or commit ends, leaves the tables as
  -- they were.
  pub create_evaluation_scheme_tx-err :
      (w : World) {w' : World} {e : Error}
      → create_evaluation_scheme_tx fit faults p w ≡ (err e, w')
      → w'.db ≡ w.db
  unfolding create_evaluation_scheme_tx
  create_evaluation_scheme_tx-err w h =
      transaction-err translate_pg_error (faults 0) (faults 1) _ w h

  -- So does one that is not recreated.
  pub recreate_evaluation_scheme_tx-err :
      (w : World) {w' : World} {e : Error}
      → recreate_evaluation_scheme_tx fit faults p w ≡ (err e, w')
      → w'.db ≡ w.db
  unfolding recreate_evaluation_scheme_tx
  recreate_evaluation_scheme_tx-err w h =
      transaction-err translate_pg_error (faults 0) (faults 1) _ w h
