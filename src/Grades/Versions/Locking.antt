-- ===== src/Grades/Versions/Locking.antt =====
-- backend/internal/grades/repository.go: the optimistic lock of `RecordGradeTx`.
use infraestructura_y_servic.Base.{
  suc, ◌≡◌, sym, ◌∙◌, inl, inr, ap, subst, Bool, true, Option, some, List, ◌==◌, ◌&&◌, arith,
  find_first, find_first-holds, find_first-same, find_first-by_id, count-find_some,
}
use infraestructura_y_servic.Platform.Pgconv.{Text, Numeric}
use infraestructura_y_servic.Store.{is_null, Grade, Db}
use infraestructura_y_servic.Driver.{PgError, Faults, Result, ok, World}
use infraestructura_y_servic.Grades.Queries.{has_grade_key, has_version, find_grade}
use infraestructura_y_servic.Grades.Repository.{RecordGradeParams, RecordOutcome, record_grade_tx}
use infraestructura_y_servic.Grades.Repository.Effects.{Written}
use infraestructura_y_servic.Grades.Repository.Outcome.{record_grade_tx-Recorded}
use infraestructura_y_servic.Grades.Versions.{IsSound, grade_id, count-any}
use infraestructura_y_servic.Grades.Versions.History.{Action, run, run-grades-IsSound, run-IsLater}

module _ (fit : Numeric → Result PgError Numeric) (p : RecordGradeParams) (db : Db)
    (h : IsSound db) where
  abbrev is_key : Grade → Bool
  is_key = has_grade_key p.evaluation_id p.section_enrollment_id

  same_row : (x row : Grade) → some row ≡ some x → row ≡ x
  same_row x row q = ground arith

  -- A write that meets a grade of its key is an update of that grade at its version.
  Written-version :
      (q : Grade → Bool) {g r : Grade} {old : Option Text} (db' : Db)
      → find_first q db.grades ≡ some g
      → is_key g ≡ true
      → Written fit p r old db db'
      → (p.expected_version ≡ some g.version) × (r.id ≡ g.id) × (r.version ≡ suc g.version)
  unfolding find_grade
  Written-version q {g} db' f k (inl (_, _, _, _, free, _, _, _)) =
      absurd
        (omega (arith, count-find_some {0} is_key q db.grades f k, count-any is_key db.grades free))
  Written-version q {g} {r} db' f k (inr (x, version, row, actor, v, fx, e, fr, _, _, w, _, _)) =
      let live : Grade → Bool = λ y. is_key y && is_null y.deleted_at in
      let key : is_key x ≡ true = ground (arith, find_first-holds live db.grades fx) in
      let met : x ≡ g =
        find_first-same is_key live q db.grades (h.keys p.evaluation_id p.section_enrollment_id) fx
          f key k in
      let at = find_first-holds (has_version x.id version) db.grades fr in
      let number : row.version ≡ version = ground (arith, at) in
      let name : row.id ≡ x.id = ground (arith, at) in
      let by_row = find_first-by_id grade_id (has_version x.id version) db.grades h.distinct fr in
      let by_x = find_first-by_id grade_id live db.grades h.distinct fx in
      let one : row ≡ x =
        same_row x row (
          sym (subst (λ n. find_first (λ y. y.id == n) db.grades ≡ some row) name by_row) ∙ by_x) in
      let this : row ≡ g = one ∙ met in (ground arith, ground arith, ground arith)

module _ (fit_weight fit_value : Numeric → Result PgError Numeric) (scan : Text → Option Numeric)
    (faults : Faults) (p : RecordGradeParams) where
  -- A key that has a live grade is only written at that grade's version: then the row of the grade
  -- gets the next version, and any other expected version, or none, is refused.
  pub record_grade_tx-version :
      (w : World) {w' : World} {g r : Grade} {o : Option RecordOutcome}
      → IsSound w.db
      → find_grade p.evaluation_id p.section_enrollment_id w.db.grades ≡ some g
      → record_grade_tx fit_value scan faults p w ≡ (ok (r, o), w')
      → (p.expected_version ≡ some g.version) × (r.id ≡ g.id) × (r.version ≡ suc g.version)
  unfolding find_grade
  record_grade_tx-version w {g = g} h f e =
      let live : Grade → Bool =
        λ y. has_grade_key p.evaluation_id p.section_enrollment_id y && is_null y.deleted_at in
      let (_, _, (_, mid, _, written, _, _, _, _)) =
        record_grade_tx-Recorded fit_value scan faults p w e in
      let key : has_grade_key p.evaluation_id p.section_enrollment_id g ≡ true =
        ground (arith, find_first-holds live w.db.grades f) in
      Written-version fit_value p w.db h live mid f key written

  -- No update is lost: where a grade was read, and after any sequence of grade writes and schemes a
  -- write of its key goes through with the version that was read, the row is still the row that was
  -- read, in every column.
  pub record_grade_tx-no_lost_update :
      (actions : List (Faults × Action)) (w : World) {w' : World} {g r : Grade}
      {o : Option RecordOutcome}
      → IsSound w.db
      → find_first (λ x. x.id == g.id) w.db.grades ≡ some g
      → p.evaluation_id ≡ g.evaluation_id
      → p.section_enrollment_id ≡ g.section_enrollment_id
      → p.expected_version ≡ some g.version
      → record_grade_tx fit_value scan faults p (run fit_weight fit_value scan actions w)
        ≡ (ok (r, o), w')
      → find_first (λ x. x.id == g.id) (run fit_weight fit_value scan actions w).db.grades ≡ some g
  record_grade_tx-no_lost_update actions w {w'} {g} h f e s v k =
      let u = run fit_weight fit_value scan actions w in
      let (x, found, (e', s', later)) = run-IsLater fit_weight fit_value scan actions w g.id h f in
      let (_, _, (_, mid, _, written, _, _, _, _)) =
        record_grade_tx-Recorded fit_value scan faults p u k in
      let key : has_grade_key p.evaluation_id p.section_enrollment_id x ≡ true = ground arith in
      let (at, _, _) =
        Written-version fit_value p u.db (run-grades-IsSound fit_weight fit_value scan actions w h)
          (λ y. y.id == g.id) mid found key written in
      elim later [ inl q ↦ found ∙ ap some q | inr lt ↦ absurd (ground arith) ]
