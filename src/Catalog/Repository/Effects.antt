-- ===== src/Catalog/Repository/Effects.antt =====
-- backend/internal/catalog/repository.go: what the methods do to the tables.
use infraestructura_y_servic.Base.{
  ℕ, ◌≡◌, ◌⊎◌, inl, inr, refl, sym, ◌∙◌, ap, subst, Bool, true, ◌∷◌, ◌==◌, arith, find_first,
  count_if, any_of, select, update_where, not, Bool-cases, Option-cases,
}
use infraestructura_y_servic.Store.{Db}
use infraestructura_y_servic.Driver.{Faults, Result, ok, err, World, M, Query, ◌>>=◌, ◌>>◌}
use infraestructura_y_servic.Driver.Laws.{bind-value, keeps-ok}
use infraestructura_y_servic.Catalog.Errors.{Error}
use infraestructura_y_servic.Catalog.Tables.{
  Table, get_row, count_rows, insert_row, update_row, mark_rows, delete_rows,
}
use infraestructura_y_servic.Catalog.Repository.{run_query, no_dependents, some_rows, transact}

module _ {A : Type 0} (t : Table A) (db : Db) where
  -- An INSERT that changes anything adds its row, which refers to rows.
  pub insert_row-cases :
      (next : ℕ → ℕ) (refers : Db → Bool) (clashes : A → Bool) (fresh : Db → A)
      → ((insert_row t next refers clashes fresh db).1 ≡ db)
        ⊎ ((refers db ≡ true)
            × ((insert_row t next refers clashes fresh db).1
                ≡ record (t.put (fresh db ∷ t.rows db) db) { next_id = next db.next_id }))
  unfolding insert_row
  insert_row-cases next refers clashes fresh = elim (Bool-cases (any_of clashes (t.rows db))) [
    | inl e ↦ inl (ground (arith, e))
    | inr e ↦ elim (Bool-cases (refers db)) [
      | inl r ↦ inr (r, ground (arith, e, r))
      | inr r ↦ inl (ground (arith, e, r))
    ]
  ]

  pub update_row-cases :
      (clashes : A → A → Bool) (p : A → Bool) (f : Db → A → A)
      → ((update_row t clashes p f db).1 ≡ db)
        ⊎ ((update_row t clashes p f db).1 ≡ t.put (update_where p (f db) (t.rows db)) db)
  unfolding update_row
  update_row-cases clashes p f = elim (Option-cases (find_first p (t.rows db))) [
    | inl e ↦ inl (ground (arith, e))
    | inr (r, e) ↦ elim (Bool-cases (any_of (clashes r) (t.rows db))) [
      | inl c ↦ inl (ground (arith, e, c))
      | inr c ↦ inr (ground (arith, e, c))
    ]
  ]

module _ (faults : Faults) {A : Type 0} where
  -- A statement either failed before it ran, or left the tables as it leaves them.
  pub run_query-cases :
      (n : ℕ) (q : Query A) (w : World)
      → ((run_query faults n q w).1.db ≡ w.db) ⊎ ((run_query faults n q w).1.db ≡ (q w.db).1)
  unfolding run_query
  run_query-cases n q w = elim (Option-cases (faults n)) [
    | inl e ↦ inr (ground arith)
    | inr (f, e) ↦ inl (ground arith)
  ]

  pub get_row-keeps :
      (n : ℕ) (t : Table A) (p : A → Bool) (w : World) {w' : World} {a : A}
      → run_query faults n (get_row t p) w ≡ (ok a, w')
      → w' ≡ w
  unfolding run_query
  get_row-keeps n t p w h = ground arith

  -- A delete goes on only where no dependent is counted.
  pub no_dependents-ok :
      (n : ℕ) (t : Table A) (p : A → Bool) (w : World) {w' : World}
      → no_dependents faults n (count_rows t p) w ≡ (ok tt, w')
      → (count_if p (t.rows w.db) ≡ 0) × (w' ≡ w)
  unfolding no_dependents run_query
  no_dependents-ok n t p w h = ground arith

  pub mark_rows-ok :
      (n : ℕ) (t : Table A) (p : A → Bool) (f : Db → A → A) (w : World) {w' : World}
      → some_rows faults n (mark_rows t p f) w ≡ (ok tt, w')
      → w'.db ≡ t.put (update_where p (f w.db) (t.rows w.db)) w.db
  unfolding some_rows run_query mark_rows
  mark_rows-ok n t p f w h = ground arith

  pub mark_rows-cases :
      (n : ℕ) (t : Table A) (p : A → Bool) (f : Db → A → A) (w : World)
      → ((some_rows faults n (mark_rows t p f) w).1.db ≡ w.db)
        ⊎ ((some_rows faults n (mark_rows t p f) w).1.db
            ≡ t.put (update_where p (f w.db) (t.rows w.db)) w.db)
  unfolding some_rows run_query mark_rows
  mark_rows-cases n t p f w = elim (Option-cases (faults n)) [
    | inl e ↦ elim (Bool-cases (count_if p (t.rows w.db) == 0)) [
      | inl z ↦ inr (ground (arith, e, z))
      | inr z ↦ inr (ground (arith, e, z))
    ]
    | inr (g, e) ↦ inl (ground (arith, e))
  ]

  pub delete_rows-cases :
      (n : ℕ) (t : Table A) (p : A → Bool) (w : World)
      → ((some_rows faults n (delete_rows t p) w).1.db ≡ w.db)
        ⊎ ((some_rows faults n (delete_rows t p) w).1.db
            ≡ t.put (select (λ r. not (p r)) (t.rows w.db)) w.db)
  unfolding some_rows run_query delete_rows
  delete_rows-cases n t p w = elim (Option-cases (faults n)) [
    | inl e ↦ elim (Bool-cases (count_if p (t.rows w.db) == 0)) [
      | inl z ↦ inr (ground (arith, e, z))
      | inr z ↦ inr (ground (arith, e, z))
    ]
    | inr (g, e) ↦ inl (ground (arith, e))
  ]

  -- A transaction leaves the tables alone, or ends as its body does.
  pub transact-cases :
      (body : M Error A) (w : World)
      → ((transact faults body w).1.db ≡ w.db)
        ⊎ ((a : A) × (w' : World) × (body w ≡ (ok a, w')) × ((transact faults body w).1.db ≡ w'.db))
  unfolding transact
  transact-cases body w = by_result (body w).0 refl
    where
      by_result :
          (r : Result Error A)
          → (body w).0 ≡ r
          → ((transact faults body w).1.db ≡ w.db)
            ⊎ ((a : A) × (w' : World) × (body w ≡ (ok a, w'))
                × ((transact faults body w).1.db ≡ w'.db))
      by_result (err e) q = inl (ground (arith, q))
      by_result (ok a) q = elim (Option-cases (faults 0)) [
        | inr (f, b) ↦ inl (ground (arith, b))
        | inl b ↦ elim (Option-cases (faults 1)) [
          | inr (f, c) ↦ inl (ground (arith, b, c, q))
          | inl c ↦ inr (a, (body w).1, ground (arith, q), ground (arith, b, c, q))
        ]
      ]

-- A property of the tables after a computation, from what it may do to them.
module _ {ℓ} (C : Db → Type ℓ) where
  -- The first step leaves everything alone.
  pub bound :
      {A B : Type 0} (m : M Error A) (k : A → M Error B) (w : World)
      → (m w).1 ≡ w
      → C w.db
      → ((a : A) → m w ≡ (ok a, w) → C (k a w).1.db)
      → C ((m >>= k) w).1.db
  bound {A} {B} m k w same start go = by_result (m w).0 refl
    where
      by_result : (r : Result Error A) → (m w).0 ≡ r → C ((m >>= k) w).1.db
      by_result (err e) q =
          let f : (m >>= k) w ≡ (err e, w) = ground (arith, q, same) in
          subst C (ap (λ (x : Result Error B × World). x.1.db) (sym f)) start
      by_result (ok a) q =
          let e : m w ≡ (ok a, w) = ground (arith, q, same) in
          subst C (ap (λ (x : Result Error B × World). x.1.db) (sym (bind-value m k e))) (go a e)

  module _ (faults : Faults) {A : Type 0} (n : ℕ) (t : Table A) (w : World) (start : C w.db) where
    pub inserted :
        (next : ℕ → ℕ) (refers : Db → Bool) (clashes : A → Bool) (fresh : Db → A)
        → (refers w.db ≡ true
            → C (record (t.put (fresh w.db ∷ t.rows w.db) w.db) { next_id = next w.db.next_id }))
        → C (run_query faults n (insert_row t next refers clashes fresh) w).1.db
    inserted next refers clashes fresh added =
        elim (run_query-cases faults n (insert_row t next refers clashes fresh) w) [
          | inl e ↦ subst C (sym e) start
          | inr e ↦ elim (insert_row-cases t w.db next refers clashes fresh) [
            | inl s ↦ subst C (sym (e ∙ s)) start
            | inr (r, s) ↦ subst C (sym (e ∙ s)) (added r)
          ]
        ]

    pub updated :
        (clashes : A → A → Bool) (p : A → Bool) (f : Db → A → A)
        → C (t.put (update_where p (f w.db) (t.rows w.db)) w.db)
        → C (run_query faults n (update_row t clashes p f) w).1.db
    updated clashes p f changed = elim (run_query-cases faults n (update_row t clashes p f) w) [
      | inl e ↦ subst C (sym e) start
      | inr e ↦ elim (update_row-cases t w.db clashes p f) [
        | inl s ↦ subst C (sym (e ∙ s)) start
        | inr s ↦ subst C (sym (e ∙ s)) changed
      ]
    ]

    pub marked :
        (p : A → Bool) (f : Db → A → A)
        → C (t.put (update_where p (f w.db) (t.rows w.db)) w.db)
        → C (some_rows faults n (mark_rows t p f) w).1.db
    marked p f changed = elim (mark_rows-cases faults n t p f w) [
      | inl e ↦ subst C (sym e) start
      | inr e ↦ subst C (sym e) changed
    ]

    pub removed :
        (p : A → Bool)
        → C (t.put (select (λ r. not (p r)) (t.rows w.db)) w.db)
        → C (some_rows faults n (delete_rows t p) w).1.db
    removed p changed = elim (delete_rows-cases faults n t p w) [
      | inl e ↦ subst C (sym e) start
      | inr e ↦ subst C (sym e) changed
    ]

  pub transacted :
      (faults : Faults) {A : Type 0} (body : M Error A) (w : World)
      → C w.db
      → ((a : A) (w' : World) → body w ≡ (ok a, w') → C w'.db)
      → C (transact faults body w).1.db
  transacted faults body w start done = elim (transact-cases faults body w) [
    | inl e ↦ subst C (sym e) start
    | inr (a, w', h, e) ↦ subst C (sym e) (done a w' h)
  ]

module _ (faults : Faults) {A B : Type 0} (t : Table A) (p : A → Bool) (f : Db → A → A) (w : World)
    {w' : World} where
  -- A delete that goes through counted no dependents of one kind.
  pub deleted_one :
      (u : Table B) (q : B → Bool)
      → (run_query faults 2 (get_row t p) >>= (λ _.
            no_dependents faults 3 (count_rows u q) >> some_rows faults 4 (mark_rows t p f)))
          w
        ≡ (ok tt, w')
      → (count_if q (u.rows w.db) ≡ 0)
        × (w'.db ≡ t.put (update_where p (f w.db) (t.rows w.db)) w.db)
  deleted_one u q h =
      let (_, _, h1) =
        keeps-ok (run_query faults 2 (get_row t p))
          (λ _. no_dependents faults 3 (count_rows u q) >> some_rows faults 4 (mark_rows t p f))
          (λ a v e. get_row-keeps faults 2 t p w e) h in
      let (_, e2, h2) =
        keeps-ok (no_dependents faults 3 (count_rows u q))
          (λ _. some_rows faults 4 (mark_rows t p f))
          (λ a v e. (no_dependents-ok faults 3 u q w e).1) h1 in
      ((no_dependents-ok faults 3 u q w e2).0, mark_rows-ok faults 4 t p f w h2)

  -- So too with two kinds of dependents.
  pub deleted_two :
      {D : Type 0} (u : Table B) (q : B → Bool) (v : Table D) (r : D → Bool)
      → (run_query faults 2 (get_row t p) >>= (λ _.
            no_dependents faults 3 (count_rows u q)
            >> (no_dependents faults 4 (count_rows v r) >> some_rows faults 5 (mark_rows t p f))))
          w
        ≡ (ok tt, w')
      → (count_if q (u.rows w.db) ≡ 0)
        × (count_if r (v.rows w.db) ≡ 0)
        × (w'.db ≡ t.put (update_where p (f w.db) (t.rows w.db)) w.db)
  deleted_two u q v r h =
      let (_, _, h1) =
        keeps-ok (run_query faults 2 (get_row t p))
          (λ _.
            no_dependents faults 3 (count_rows u q)
            >> (no_dependents faults 4 (count_rows v r) >> some_rows faults 5 (mark_rows t p f)))
          (λ a x e. get_row-keeps faults 2 t p w e) h in
      let (_, e2, h2) =
        keeps-ok (no_dependents faults 3 (count_rows u q))
          (λ _. no_dependents faults 4 (count_rows v r) >> some_rows faults 5 (mark_rows t p f))
          (λ a x e. (no_dependents-ok faults 3 u q w e).1) h1 in
      let (_, e3, h3) =
        keeps-ok (no_dependents faults 4 (count_rows v r))
          (λ _. some_rows faults 5 (mark_rows t p f))
          (λ a x e. (no_dependents-ok faults 4 v r w e).1) h2 in
      (
        (no_dependents-ok faults 3 u q w e2).0,
        (no_dependents-ok faults 4 v r w e3).0,
        mark_rows-ok faults 5 t p f w h3,
      )
