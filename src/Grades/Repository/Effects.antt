-- ===== src/Grades/Repository/Effects.antt =====
-- backend/internal/grades/repository.go: what the writes of `RecordGradeTx` do to the tables.
use infraestructura_y_servic.Base.{
  ◌≤◌, ℕ, ◌≡◌, sym, ◌∙◌, ◌⊎◌, inl, inr, false, Option, none, some, List, [], ◌∷◌, any_of, arith,
  Option-cases, find_first, update_where,
}
use infraestructura_y_servic.Platform.Pgconv.{Text, Numeric, numeric_to_string}
use infraestructura_y_servic.Store.{Uuid, Grade, Db}
use infraestructura_y_servic.Driver.{
  PgError, no_rows, unique_violation, fk_violation, lock_not_available, other, Query, Faults,
  Result, ok, err, World, call,
}
use infraestructura_y_servic.Driver.Laws.{bind-value, Result-cases}
use infraestructura_y_servic.Grades.Errors.{Error}
use infraestructura_y_servic.Grades.Queries.{
  find_grade, has_grade_key, has_version, fresh_grade, with_grade, regraded, insert_grade,
  update_grade_by_version, insert_audit_log,
}
use infraestructura_y_servic.Grades.Repository.{
  RecordGradeParams, stale, updated_from, audit, regrade, existing_grade, inserted_or, upsert,
}

abbrev pub with_grades : List Grade → Db → Db
with_grades rows db = record db { grades = rows }

module _ (fit : Numeric → Result PgError Numeric) (p : RecordGradeParams) where
  -- A first grade of the key, with what the column stores.
  abbrev pub Inserted : Grade → Option Text → Db → Db → Type 0
  Inserted g old db db' =
      (actor : Uuid) × (value : Numeric) × (p.actor_id ≡ some actor)
      × (fit p.value ≡ ok value)
      × (any_of (has_grade_key p.evaluation_id p.section_enrollment_id) db.grades ≡ false)
      × (g ≡ fresh_grade p.evaluation_id p.section_enrollment_id actor value db)
      × (old ≡ none)
      × (db' ≡ with_grade p.evaluation_id p.section_enrollment_id actor value db)

  -- A new value for the row that has the id of the key's live grade, and the expected version.
  abbrev pub Updated : Grade → Option Text → Db → Db → Type 0
  Updated g old db db' =
      (existing : Grade) × (version : ℕ) × (row : Grade) × (actor : Uuid) × (value : Numeric)
      × (find_grade p.evaluation_id p.section_enrollment_id db.grades ≡ some existing)
      × (p.expected_version ≡ some version)
      × (find_first (has_version existing.id version) db.grades ≡ some row)
      × (p.actor_id ≡ some actor)
      × (fit p.value ≡ ok value)
      × (g ≡ regraded actor value db.now row)
      × (old ≡ some (numeric_to_string existing.value))
      × (db'
          ≡ with_grades
              (update_where (has_version existing.id version) (regraded actor value db.now)
                db.grades)
              db)

  abbrev pub Written : Grade → Option Text → Db → Db → Type 0
  Written g old db db' = Inserted g old db db' ⊎ Updated g old db db'

abbrev inserting : (Numeric → Result PgError Numeric) → RecordGradeParams → Query Grade
inserting fit p = insert_grade fit p.evaluation_id p.section_enrollment_id p.actor_id p.value

module _ (fit : Numeric → Result PgError Numeric) (p : RecordGradeParams) (db : Db) where
  insert_grade-ok :
      {g : Grade} → (inserting fit p db).0 ≡ ok g → Inserted fit p g none db (inserting fit p db).1
  unfolding insert_grade
  insert_grade-ok h = elim (Option-cases p.actor_id) [
    | inl a ↦ absurd (ground arith)
    | inr (actor, a) ↦ elim (Result-cases (fit p.value)) [
      | inr (_, v) ↦ absurd (ground arith)
      | inl (value, v) ↦
          (actor, value, a, v, ground arith, ground arith, ground arith, ground arith)
    ]
  ]

  insert_grade-err :
      {e : PgError} → (inserting fit p db).0 ≡ err e → inserting fit p db ≡ (err e, db)
  unfolding insert_grade
  insert_grade-err h = ground arith

module _ (fit : Numeric → Result PgError Numeric) (faults : Faults) (p : RecordGradeParams) where
  regrade-ok :
      (existing : Grade) (w : World) {w' : World} {g : Grade} {old : Option Text}
      → find_grade p.evaluation_id p.section_enrollment_id w.db.grades ≡ some existing
      → regrade fit faults p existing w ≡ (ok (g, old), w')
      → Updated fit p g old w.db w'.db
  unfolding regrade updated_from stale update_grade_by_version
  regrade-ok existing w found h = elim (Option-cases p.expected_version) [
    | inl e ↦ absurd (ground arith)
    | inr (version, e) ↦
        elim (Option-cases (find_first (has_version existing.id version) w.db.grades)) [
          | inl n ↦ absurd (ground arith)
          | inr (row, n) ↦ elim (Option-cases p.actor_id) [
            | inl a ↦ absurd (ground arith)
            | inr (actor, a) ↦ elim (Result-cases (fit p.value)) [
              | inr (_, f) ↦ absurd (ground arith)
              | inl (value, f) ↦ (
                existing,
                version,
                row,
                actor,
                value,
                found,
                e,
                n,
                a,
                f,
                ground arith,
                ground arith,
                ground arith,
              )
            ]
          ]
        ]
  ]

  existing_grade-ok :
      (w : World) {w' : World} {g : Grade} {old : Option Text}
      → existing_grade fit faults p w ≡ (ok (g, old), w')
      → Updated fit p g old w.db w'.db
  unfolding existing_grade
  existing_grade-ok w {w'} h =
      elim (Option-cases (find_grade p.evaluation_id p.section_enrollment_id w.db.grades)) [
        | inl e ↦ absurd (ground arith)
        | inr (existing, e) ↦ regrade-ok existing w {w' = w'} e (ground arith)
      ]

  inserted_or-err :
      (w : World) (e : PgError) {w' : World} {g : Grade} {old : Option Text}
      → inserted_or fit faults p (err e) w ≡ (ok (g, old), w')
      → existing_grade fit faults p w ≡ (ok (g, old), w')
  unfolding inserted_or
  inserted_or-err w no_rows h = h
  inserted_or-err w unique_violation h = absurd (ground arith)
  inserted_or-err w fk_violation h = absurd (ground arith)
  inserted_or-err w lock_not_available h = absurd (ground arith)
  inserted_or-err w (other n) h = absurd (ground arith)

  upsert-err :
      (w : World) (e : PgError) {w' : World} {g : Grade} {old : Option Text}
      → faults 6 ≡ none
      → inserting fit p w.db ≡ (err e, w.db)
      → upsert fit faults p w ≡ (ok (g, old), w')
      → existing_grade fit faults p w ≡ (ok (g, old), w')
  unfolding upsert
  upsert-err w e f q h =
      let step : call {E = Error} faults 6 (inserting fit p) w ≡ (ok (err e), w) = ground arith in
      inserted_or-err w e
        (sym (bind-value (call faults 6 (inserting fit p)) (inserted_or fit faults p) step) ∙ h)

  -- The upsert that ends well has inserted the first grade of the key or updated its grade.
  pub upsert-ok :
      (w : World) {w' : World} {g : Grade} {old : Option Text}
      → upsert fit faults p w ≡ (ok (g, old), w')
      → Written fit p g old w.db w'.db
  unfolding upsert inserted_or
  upsert-ok w {w'} {g} {old} h = elim (Option-cases (faults 6)) [
    | inr (_, f) ↦ absurd (ground arith)
    | inl f ↦ elim (Result-cases (inserting fit p w.db).0) [
      | inr (e, q) ↦ inr (existing_grade-ok w (upsert-err w e f (insert_grade-err fit p w.db q) h))
      | inl (x, q) ↦
          let o : old ≡ none = ground arith in
          let y : g ≡ x = ground arith in
          let z : w'.db ≡ (inserting fit p w.db).1 = ground arith in
          inl (rw (o, y, z) (insert_grade-ok fit p w.db q))
    ]
  ]

module _ (faults : Faults) (w : World) where
  -- The audit row stands in a table of its own.
  pub audit-ok :
      (p : RecordGradeParams) (r : Grade × Option Text) {w' : World}
      → audit faults p r w ≡ (ok tt, w')
      → (w'.db.grades ≡ w.db.grades)
        × (w'.db.evaluations ≡ w.db.evaluations)
        × (w'.db.section_enrollments ≡ w.db.section_enrollments)
        × (w.db.next_id ≤ w'.db.next_id)
  unfolding audit insert_audit_log
  audit-ok p (g, none) h = (ground arith, ground arith, ground arith, ground arith)
  audit-ok p (g, some []) h = (ground arith, ground arith, ground arith, ground arith)
  audit-ok p (g, some (c ∷ old)) h = (ground arith, ground arith, ground arith, ground arith)
