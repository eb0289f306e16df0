-- ===== src/Grades/Schemes/Effects.antt =====
-- backend/internal/grades/repository.go: what the loop that inserts a scheme does to the live
-- schemes of the courses.
use infraestructura_y_servic.Base.{
  ◌≤◌, ℕ, suc, ◌<◌, ◌≡◌, refl, sym, inl, inr, subst, List, [], ◌∷◌, ◌++◌, ◌==◌, arith, append_assoc,
  append-nil, All, select, if◌then◌else◌, Bool-cases,
}
use infraestructura_y_servic.Platform.Pgconv.{Numeric}
use infraestructura_y_servic.Store.{Uuid, Evaluation, Db}
use infraestructura_y_servic.Driver.{PgError, Faults, Result, ok, World, M, ◌>>=◌, pure}
use infraestructura_y_servic.Driver.Laws.{bind-ok, Result-cases}
use infraestructura_y_servic.Grades.Errors.{Error}
use infraestructura_y_servic.Grades.Queries.{
  insert_by_position, sort_by_position, scheme_of, fresh_evaluation, with_evaluation,
  insert_evaluation,
}
use infraestructura_y_servic.Grades.Schemes.{insert_one, insert_evaluations}

-- The evaluations of a list of weights, in order, from a position on.
abbrev pub Stands :
    (Numeric → Result PgError Numeric) → Uuid → ℕ → List Numeric → List Evaluation → Type 0
Stands fit course i [] evals = evals ≡ []
Stands fit course i (w ∷ weights) [] = w ∷ weights ≡ []
Stands fit course i (w ∷ weights) (e ∷ evals) =
    (e.course_id ≡ course)
    × (e.position ≡ suc i)
    × (fit w ≡ ok e.weight)
    × Stands fit course (suc i) weights evals

-- The schemes of two states differ at one course.
abbrev pub Replaced : Uuid → List Evaluation → Db → Db → Type 0
Replaced course evals db db' =
    (c : Uuid) → scheme_of c db' ≡ (if course == c then evals else scheme_of c db)

-- No grade changes, and identifiers only go up.
abbrev pub GradesKept : Db → Db → Type 0
GradesKept db db' = (db'.grades ≡ db.grades) × (db.next_id ≤ db'.next_id)

insert_last :
    (e : Evaluation) (xs : List Evaluation)
    → All (λ x. x.position < e.position) xs
    → insert_by_position e xs ≡ xs ++ (e ∷ [])
unfolding insert_by_position
insert_last e [] h = refl
insert_last e (x ∷ xs) h = ground (arith, insert_last e xs h.1)

All-last :
    (e : Evaluation) (n : ℕ) (xs : List Evaluation)
    → All (λ x. x.position < n) xs
    → e.position ≡ n
    → All (λ x. x.position < suc n) (xs ++ (e ∷ []))
All-last e n [] h q = (omega arith, tt)
All-last e n (x ∷ xs) h q = (omega (arith, h.0), All-last e n xs h.1 q)

-- One more evaluation of a course, behind the ones it has.
scheme_of-insert :
    (course c : Uuid) (w : Numeric) (i : ℕ) (db : Db)
    → All (λ x. x.position < i) (scheme_of course db)
    → scheme_of c (with_evaluation course w i db) ≡ (
        if course == c
        then scheme_of c db ++ (fresh_evaluation course w i db ∷ [])
        else scheme_of c db)
unfolding scheme_of select sort_by_position
scheme_of-insert course c w i db h = elim (Bool-cases (course == c)) [
  | inl e ↦
      let q : course ≡ c = ground arith in
      let last =
        insert_last (fresh_evaluation course w i db) (scheme_of c db)
          (subst (λ x. All (λ (y : Evaluation). y.position < i) (scheme_of x db)) q h) in
      ground (arith, last)
  | inr e ↦ ground arith
]

module _ (fit : Numeric → Result PgError Numeric) (faults : Faults) (course : Uuid) where
  insert_one-ok :
      (i : ℕ) (v : Numeric) (w : World) {w' : World} {e : Evaluation}
      → insert_one fit faults course i v w ≡ (ok e, w')
      → (x : Numeric) × (fit v ≡ ok x)
        × (e ≡ fresh_evaluation course x (suc i) w.db)
        × (w'.db ≡ with_evaluation course x (suc i) w.db)
  unfolding insert_evaluation
  insert_one-ok i v w h = elim (Result-cases (fit v)) [
    | inr (_, f) ↦ absurd (ground arith)
    | inl (x, f) ↦ (x, f, ground arith, ground arith)
  ]

  -- The schemes after the loop, and its evaluations.
  abbrev pub Extended : ℕ → List Numeric → List Evaluation → Db → Db → Type 0
  Extended i weights evals db db' =
      Stands fit course i weights evals
      × ((c : Uuid)
          → scheme_of c db' ≡ (if course == c then scheme_of c db ++ evals else scheme_of c db))
      × GradesKept db db'

  Extended-by_one :
      (i : ℕ) (v x : Numeric) (weights : List Numeric) (evals : List Evaluation) (db db' : Db)
      → fit v ≡ ok x
      → All (λ y. y.position < suc i) (scheme_of course db)
      → Extended (suc i) weights evals (with_evaluation course x (suc i) db) db'
      → Extended i (v ∷ weights) (fresh_evaluation course x (suc i) db ∷ evals) db db'
  Extended-by_one i v x weights evals db db' f h (s, k, (same, later)) = (
    (refl, refl, f, s),
    λ c. elim (Bool-cases (course == c)) [
      | inl e ↦
          let row = fresh_evaluation course x (suc i) db in
          let whole = append_assoc (scheme_of c db) (row ∷ []) evals in
          ground (arith, k c, scheme_of-insert course c x (suc i) db h, whole)
      | inr e ↦ ground (arith, k c, scheme_of-insert course c x (suc i) db h)
    ],
    (same, omega (arith, later)),
  )

  scheme_grown :
      (i : ℕ) (x : Numeric) (db : Db)
      → All (λ y. y.position < suc i) (scheme_of course db)
      → All (λ y. y.position < suc (suc i)) (scheme_of course (with_evaluation course x (suc i) db))
  scheme_grown i x db h =
      let row = fresh_evaluation course x (suc i) db in
      let q : scheme_of course (with_evaluation course x (suc i) db)
          ≡ scheme_of course db ++ (row ∷ []) =
        ground (arith, scheme_of-insert course course x (suc i) db h) in
      subst (All (λ y. y.position < suc (suc i))) (sym q)
        (All-last row (suc i) (scheme_of course db) h refl)

  pub insert_evaluations-ok :
      (i : ℕ) (weights : List Numeric) (w : World) {w' : World} {evals : List Evaluation}
      → All (λ y. y.position < suc i) (scheme_of course w.db)
      → insert_evaluations fit faults course i weights w ≡ (ok evals, w')
      → Extended i weights evals w.db w'.db
  unfolding insert_evaluations
  insert_evaluations-ok i [] w {w'} {evals} h e = (
    ground arith,
    λ c. ground (arith, append-nil (scheme_of c w.db)),
    (ground arith, ground arith),
  )
  insert_evaluations-ok i (v ∷ weights) w {w'} {evals} h e =
      let close : Evaluation → List Evaluation → M Error (List Evaluation) =
        λ x xs. pure (x ∷ xs) in
      let rest : Evaluation → M Error (List Evaluation) =
        λ x. insert_evaluations fit faults course (suc i) weights >>= close x in
      let (row, u, e1, h1) = bind-ok (insert_one fit faults course i v) rest e in
      let (rows, y, e2, h2) =
        bind-ok (insert_evaluations fit faults course (suc i) weights) (close row) h1 in
      let (x, f, q, k) = insert_one-ok i v w e1 in
      let below =
        subst (λ d. All (λ y. y.position < suc (suc i)) (scheme_of course d)) (sym k)
          (scheme_grown i x w.db h) in
      let later =
        subst (λ d. Extended (suc i) weights rows d y.db) k
          (insert_evaluations-ok (suc i) weights u below e2) in
      let all : fresh_evaluation course x (suc i) w.db ∷ rows ≡ evals = ground arith in
      let last : y.db ≡ w'.db = ground arith in
      subst (λ xs. Extended i (v ∷ weights) xs w.db w'.db) all
        (subst
          (λ d. Extended i (v ∷ weights) (fresh_evaluation course x (suc i) w.db ∷ rows) w.db d)
          last (Extended-by_one i v x weights rows w.db y.db f h later))
