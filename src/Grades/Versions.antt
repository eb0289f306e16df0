-- ===== src/Grades/Versions.antt =====
-- backend/internal/grades/repository.go: the grades table under sequences of grade writes and
-- schemes, and the versions that the optimistic lock compares.
pub mod History
pub mod Locking
use infraestructura_y_servic.Base.{
  ℕ, suc, ◌+◌, ◌<◌, ◌≤◌, ◌≡◌, ◌≢◌, refl, sym, ◌∙◌, ◌⊎◌, inl, inr, ap, subst, Bool, true, false,
  Option, none, some, List, [], ◌∷◌, ◌==◌, ◌&&◌, arith, All, count_if, any_of, find_first,
  update_where, if◌then◌else◌, Bool-cases, Option-cases, IsDistinct, IsBounded, IsBounded-IsFresh,
  IsBounded-suc, update-IsBounded, update-IsDistinct, count-update_le, find_first-holds,
  find_first-All, find_first-update,
}
use infraestructura_y_servic.Platform.Pgconv.{Text, Numeric}
use infraestructura_y_servic.Store.{Uuid, Time, Evaluation, Grade, Db}
use infraestructura_y_servic.Driver.{PgError, Faults, Result, ok, err, World, M}
use infraestructura_y_servic.Driver.Laws.{ends}
use infraestructura_y_servic.Grades.Queries.{
  find_grade, has_grade_key, has_version, fresh_grade, with_grade, regraded,
}
use infraestructura_y_servic.Grades.Repository.{RecordGradeParams, RecordOutcome, record_grade_tx}
use infraestructura_y_servic.Grades.Repository.Effects.{Inserted, Updated, Written, with_grades}
use infraestructura_y_servic.Grades.Repository.Outcome.{
  Recorded, Settled, record_grade_tx-Recorded, record_grade_tx-err,
}

abbrev pub grade_id : Grade → Uuid
grade_id g = g.id

-- Identifiers are primary keys and below the next one, and a key has one grade.
pub record IsSound (db : Db) : Type 0 where
  pub distinct : IsDistinct grade_id db.grades
  pub bounded : IsBounded grade_id db.next_id db.grades
  pub keys : (e s : Uuid) → count_if (has_grade_key e s) db.grades ≤ 1

-- What an operation may do to the grades: nothing, one grade of a new key, or a new version of one
-- grade.
pub data Moved (db db' : Db) : Type 0 where
  same : db'.grades ≡ db.grades → db.next_id ≤ db'.next_id → Moved db db'
  first :
      (e s actor : Uuid) (v : Numeric)
      → any_of (has_grade_key e s) db.grades ≡ false
      → db'.grades ≡ fresh_grade e s actor v db ∷ db.grades
      → db.next_id < db'.next_id
      → Moved db db'
  next :
      (id : Uuid) (version : ℕ) (actor : Uuid) (v : Numeric)
      → db'.grades ≡ update_where (has_version id version) (regraded actor v db.now) db.grades
      → db.next_id ≤ db'.next_id
      → Moved db db'

IsBounded-mono :
    (m n : ℕ) (xs : List Grade) → m ≤ n → IsBounded grade_id m xs → IsBounded grade_id n xs
IsBounded-mono m n [] le h = tt
IsBounded-mono m n (x ∷ xs) le h = (omega (arith, h.0), IsBounded-mono m n xs le h.1)

count-any : (p : Grade → Bool) (xs : List Grade) → any_of p xs ≡ false → count_if p xs ≡ 0
unfolding any_of count_if
count-any p [] h = refl
count-any p (x ∷ xs) h = ground (arith, count-any p xs)

count-first :
    (e s x y : Uuid) (xs : List Grade)
    → any_of (has_grade_key e s) xs ≡ false
    → count_if (has_grade_key x y) xs ≤ 1
    → (if e == x && s == y then 1 else 0) + count_if (has_grade_key x y) xs ≤ 1
count-first e s x y xs h le = elim (Bool-cases (e == x && s == y)) [
  | inl q ↦
      let a : e ≡ x = ground arith in
      let b : s ≡ y = ground arith in
      let none_there = count-any (has_grade_key x y) xs (
        subst (λ k. any_of (has_grade_key k y) xs ≡ false) a
          (subst (λ k. any_of (has_grade_key e k) xs ≡ false) b h)) in
      ground (arith, none_there)
  | inr q ↦ ground arith
]

pub Moved-IsSound : (db db' : Db) → Moved db db' → IsSound db → IsSound db'
unfolding count_if
Moved-IsSound db db' (same q le) h = record {
  distinct = subst (IsDistinct grade_id) (sym q) h.distinct;
  bounded =
      IsBounded-mono db.next_id db'.next_id db'.grades le
        (subst (IsBounded grade_id db.next_id) (sym q) h.bounded);
  keys = λ e s. subst (λ xs. count_if (has_grade_key e s) xs ≤ 1) (sym q) (h.keys e s);
}
Moved-IsSound db db' (first e s actor v free q lt) h = record {
  distinct =
      subst (IsDistinct grade_id) (sym q)
        (IsBounded-IsFresh grade_id db.next_id db.grades h.bounded, h.distinct);
  bounded =
      subst (IsBounded grade_id db'.next_id) (sym q)
        (lt, IsBounded-mono db.next_id db'.next_id db.grades (omega arith) h.bounded);
  keys = λ x y.
      subst (λ xs. count_if (has_grade_key x y) xs ≤ 1) (sym q)
        (count-first e s x y db.grades free (h.keys x y));
}
Moved-IsSound db db' (next id version actor v q le) h = record {
  distinct = subst (IsDistinct grade_id) (sym q) (
      update-IsDistinct grade_id (has_version id version) (regraded actor v db.now) db.grades
        (λ _. refl) h.distinct);
  bounded = subst (IsBounded grade_id db'.next_id) (sym q) (
      IsBounded-mono db.next_id db'.next_id _ le (
        update-IsBounded grade_id db.next_id (has_version id version) (regraded actor v db.now)
          db.grades (λ _. refl) h.bounded));
  keys = λ x y.
      subst (λ xs. count_if (has_grade_key x y) xs ≤ 1) (sym q)
        (omega (
          arith,
          count-update_le {0} (has_grade_key x y) (has_version id version) (regraded actor v db.now)
              db.grades (λ _ _ t. t),
          h.keys x y,
        ));
}

-- A grade's row as it was, or with a higher version, under the same key.
abbrev pub IsLater : Grade → Grade → Type 0
IsLater g g' =
    (g'.evaluation_id ≡ g.evaluation_id)
    × (g'.section_enrollment_id ≡ g.section_enrollment_id)
    × ((g' ≡ g) ⊎ (g.version < g'.version))

version_trans :
    (a b c : Grade)
    → (b ≡ a) ⊎ (a.version < b.version)
    → (c ≡ b) ⊎ (b.version < c.version)
    → (c ≡ a) ⊎ (a.version < c.version)
version_trans a b c (inl p) (inl q) = inl (q ∙ p)
version_trans a b c (inl p) (inr q) = inr (subst (λ (x : Grade). x.version < c.version) p q)
version_trans a b c (inr p) (inl q) = inr (subst (λ (x : Grade). a.version < x.version) (sym q) p)
version_trans a b c (inr p) (inr q) = inr (omega (arith, p, q))

pub IsLater-trans : (a b c : Grade) → IsLater a b → IsLater b c → IsLater a c
IsLater-trans a b c (e, s, p) (e', s', q) = (e' ∙ e, s' ∙ s, version_trans a b c p q)

find_first-cons_other :
    (id : Uuid) (x : Grade) (xs : List Grade)
    → x.id ≢ id
    → find_first (λ g. g.id == id) (x ∷ xs) ≡ find_first (λ g. g.id == id) xs
unfolding find_first
find_first-cons_other id x xs h = ground arith

pub Moved-IsLater :
    (db db' : Db) (id : Uuid) {g : Grade}
    → IsSound db
    → Moved db db'
    → find_first (λ x. x.id == id) db.grades ≡ some g
    → (g' : Grade) × (find_first (λ x. x.id == id) db'.grades ≡ some g') × IsLater g g'
Moved-IsLater db db' id {g} h (same q le) f =
    (g, ap (find_first (λ x. x.id == id)) q ∙ f, (refl, refl, inl refl))
Moved-IsLater db db' id {g} h (first e s actor v free q lt) f =
    let found : g.id ≡ id = ground (arith, find_first-holds (λ x. x.id == id) db.grades f) in
    let low =
      find_first-All (λ (x : Grade). x.id < db.next_id) (λ x. x.id == id) db.grades h.bounded f in
    (
      g,
      ap (find_first (λ x. x.id == id)) q
          ∙ find_first-cons_other id (fresh_grade e s actor v db) db.grades
              (λ r. omega (arith, r, low, found))
          ∙ f,
      (refl, refl, inl refl),
    )
Moved-IsLater db db' id {g} h (next at version actor v q le) f =
    let after =
      find_first-update grade_id id (has_version at version) (regraded actor v db.now) db.grades
        (λ _. refl) f in
    elim (Bool-cases (has_version at version g)) [
      | inl e ↦ (
        regraded actor v db.now g,
        ap (find_first (λ x. x.id == id)) q ∙ after ∙ ground arith,
        (refl, refl, inr (omega arith)),
      )
      | inr e ↦
          (g, ap (find_first (λ x. x.id == id)) q ∙ after ∙ ground arith, (refl, refl, inl refl))
    ]
