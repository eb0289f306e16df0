-- ===== src/SectionEnrollment/Sessions/Invariant.antt =====
-- The invariant of the sessions, and the steps that change no table.
use infraestructura_y_servic.Base.{
  ℕ, ◌≡◌, ◌≢◌, ◌<◌, ◌≤◌, inl, inr, refl, subst, Bool, Option, none, some, arith, ◌==◌, Bool-cases,
  find_first, IsDistinct, IsBounded, find_first-by_id, find_first-holds,
}
use infraestructura_y_servic.Store.{Uuid, Section, SectionEnrollment, Db}
use infraestructura_y_servic.SectionEnrollment.Queries.{
  SectionRow, section_row, find_section, active_seats, has_key, find_key,
}
use infraestructura_y_servic.SectionEnrollment.Repository.Steps.{Revival}
use infraestructura_y_servic.SectionEnrollment.Invariant.{row_id, section_row-capacity}
use infraestructura_y_servic.SectionEnrollment.Sessions.{
  Phase, outside, locked, admitted, holds, State, put,
}

-- The tables alone: ids, and seats within capacity.
pub record Fits (db : Db) : Type 0 where
  pub distinct : IsDistinct row_id db.section_enrollments
  pub bounded : IsBounded row_id db.next_id db.section_enrollments
  pub seats :
      (id : Uuid) (x : Section)
      → find_section id db ≡ some x
      → active_seats id db.section_enrollments ≤ x.capacity

-- What a phase has established, and keeps while it holds the section's lock.
abbrev pub Holding : Phase → Db → Type 0
Holding outside db = Unit
Holding (locked id row) db = (x : Section) → find_section id db ≡ some x → x.capacity ≡ row.capacity
Holding (admitted id e none) db =
    (x : Section)
    → find_section id db ≡ some x
    → active_seats id db.section_enrollments < x.capacity
Holding (admitted id e (some old)) db =
    ((x : Section)
      → find_section id db ≡ some x
      → active_seats id db.section_enrollments < x.capacity)
    × ((r : SectionEnrollment) × (find_first (λ y. y.id == old) db.section_enrollments ≡ some r)
        × (r.section_id ≡ id))

pub record IsSafe (s : State) : Type 0 where
  pub fits : Fits s.db
  pub alone : (t u id : ℕ) → holds (s.phase t) ≡ some id → holds (s.phase u) ≡ some id → t ≡ u
  pub holding : (t : ℕ) → Holding (s.phase t) s.db

-- A change of the tables that takes no seat of the phase's section, and keeps the rows' sections.
pub Holding-mono :
    (p : Phase) (db db' : Db)
    → ((id : Uuid) → find_section id db' ≡ find_section id db)
    → ((id : Uuid)
        → holds p ≡ some id
        → active_seats id db'.section_enrollments ≤ active_seats id db.section_enrollments)
    → ((old : Uuid) (r : SectionEnrollment)
        → find_first (λ y. y.id == old) db.section_enrollments ≡ some r
        → (r' : SectionEnrollment) × (find_first (λ y. y.id == old) db'.section_enrollments
            ≡ some r')
          × (r'.section_id ≡ r.section_id))
    → Holding p db
    → Holding p db'
Holding-mono outside db db' sections seats rows h = tt
Holding-mono (locked id row) db db' sections seats rows h = λ x q. h x (ground (arith, sections id))
Holding-mono (admitted id e none) db db' sections seats rows h =
    λ x q. ground (arith, sections id, seats id refl, h x (ground (arith, sections id)))
Holding-mono (admitted id e (some old)) db db' sections seats rows h =
    let (r, at, of) = h.1 in
    let (r', at', of') = rows old r at in
    (
      λ x q. ground (arith, sections id, seats id refl, h.0 x (ground (arith, sections id))),
      (r', at', ground arith),
    )

module _ (s : State) (v : IsSafe s) (t : ℕ) (p : Phase) (db : Db) where
  -- One transaction moves to another phase, maybe with a change of the tables.
  pub moved-IsSafe :
      Fits db
      → ((u id : ℕ) → u ≢ t → holds p ≡ some id → holds (s.phase u) ≢ some id)
      → Holding p db
      → ((u : ℕ) → u ≢ t → Holding (s.phase u) db)
      → IsSafe (record { db = db; phase = put t p s.phase })
  moved-IsSafe fits apart mine theirs = record {
    fits = fits;
    alone = λ u w id hu hw. elim (Bool-cases (u == t)) [
      | inl a ↦ elim (Bool-cases (w == t)) [
        | inl b ↦ ground arith
        | inr b ↦ absurd (ground (arith, apart w id))
      ]
      | inr a ↦ elim (Bool-cases (w == t)) [
        | inl b ↦ absurd (ground (arith, apart u id))
        | inr b ↦ v.alone u w id (ground arith) (ground arith)
      ]
    ];
    holding = λ u. elim (Bool-cases (u == t)) [
      | inl a ↦ subst (λ (x : Phase). Holding x db) (ground arith) mine
      | inr a ↦ subst (λ (x : Phase). Holding x db) (ground arith) (theirs u (ground arith))
    ];
  }

  -- Those that hold another section's lock, when only t's section changes.
  pub others :
      (id : Uuid)
      → holds (s.phase t) ≡ some id
      → ((k : Uuid) → find_section k db ≡ find_section k s.db)
      → ((k : Uuid)
          → k ≢ id
          → active_seats k db.section_enrollments ≤ active_seats k s.db.section_enrollments)
      → ((old : Uuid) (r : SectionEnrollment)
          → find_first (λ y. y.id == old) s.db.section_enrollments ≡ some r
          → (r' : SectionEnrollment) × (find_first (λ y. y.id == old) db.section_enrollments
              ≡ some r')
            × (r'.section_id ≡ r.section_id))
      → (u : ℕ) → u ≢ t
      → Holding (s.phase u) db
  others id mine sections seats rows u differs =
      Holding-mono (s.phase u) s.db db sections
        (λ k hk. seats k (λ same. differs (v.alone u t id (ground arith) mine))) rows (v.holding u)

-- Steps that change no table.
pub lock-IsSafe :
    (s : State) (t id : ℕ) (row : SectionRow)
    → IsSafe s
    → ((u : ℕ) → holds (s.phase u) ≢ some id)
    → section_row id s.db ≡ some row
    → IsSafe (record { db = s.db; phase = put t (locked id row) s.phase })
lock-IsSafe s t id row v free found =
    let (x, at, cap) = section_row-capacity id s.db row found in
    moved-IsSafe s v t (locked id row) s.db v.fits (λ u k _ e h. ground (arith, free u))
      (λ y q. ground arith) (λ u _. v.holding u)

pub admit-IsSafe :
    (s : State) (t id e : ℕ) (row : SectionRow) (is_admin : Bool) (revival : Option Uuid)
    → IsSafe s
    → s.phase t ≡ locked id row
    → Revival is_admin (find_key e id s.db.section_enrollments) revival
    → active_seats id s.db.section_enrollments < row.capacity
    → IsSafe (record { db = s.db; phase = put t (admitted id e revival) s.phase })
unfolding find_key
admit-IsSafe s t id e row is_admin revival v at choice room =
    let cap : Holding (locked id row) s.db =
      subst (λ (x : Phase). Holding x s.db) at (v.holding t) in
    let apart : (u k : ℕ) → u ≢ t → some id ≡ some k → holds (s.phase u) ≢ some k =
      λ u k differs same h. differs (v.alone u t k h (ground arith)) in
    elim choice [
      | inl (none_found, fresh) ↦
          moved-IsSafe s v t (admitted id e revival) s.db v.fits apart
            (rw fresh (λ x q. ground (arith, cap x q))) (λ u _. v.holding u)
      | inr (r, held, _, _, old) ↦
          let found =
            find_first-by_id row_id (has_key e id) s.db.section_enrollments {r = r} v.fits.distinct
              held in
          let met = find_first-holds (has_key e id) s.db.section_enrollments held in
          moved-IsSafe s v t (admitted id e revival) s.db v.fits apart
            (rw old (λ x q. ground (arith, cap x q), (r, found, ground arith))) (λ u _. v.holding u)
    ]

pub abort-IsSafe :
    (s : State) (t : ℕ) → IsSafe s → IsSafe (record { db = s.db; phase = put t outside s.phase })
abort-IsSafe s t v =
    moved-IsSafe s v t outside s.db v.fits (λ u k _ e h. absurd (ground arith)) tt
      (λ u _. v.holding u)
