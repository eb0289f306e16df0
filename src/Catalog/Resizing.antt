-- ===== src/Catalog/Resizing.antt =====
-- backend/internal/catalog and backend/internal/sectionenrollment: what `UpdateSection` does to the
-- seats that are taken.
use infraestructura_y_servic.Base.{
  ℕ, ◌≡◌, ◌≤◌, ◌↔◌, inl, inr, refl, sym, subst, find_first-holds, Bool, Option, none, some, List,
  [], ◌∷◌, arith, find_first, update_where, Bool-cases, Option-cases, if◌then◌else◌, any_of,
}
use infraestructura_y_servic.Store.{Uuid, Section, Db}
use infraestructura_y_servic.Driver.{Faults, ok, World}
use infraestructura_y_servic.SectionEnrollment.Queries.{is_section, find_section, active_seats}
use infraestructura_y_servic.SectionEnrollment.Invariant.{IsSound}
use infraestructura_y_servic.Catalog.Tables.{update_row}
use infraestructura_y_servic.Catalog.Sections.{is_live_section, resized_section}
use infraestructura_y_servic.Catalog.Repository.{run_query, update_section}

-- A search after an update that it does not notice.
find_first-updated :
    (p q : Section → Bool) (f : Section → Section) (xs : List Section)
    → ((x : Section) → q (f x) ≡ q x)
    → find_first q (update_where p f xs)
      ≡ (elim (find_first q xs) [ none ↦ none | some r ↦ some (if p r then f r else r) ])
unfolding find_first update_where
find_first-updated p q f [] keep = refl
find_first-updated p q f (x ∷ xs) keep = ground (arith, keep x, find_first-updated p q f xs keep)

abbrev resize : Uuid → ℕ → Option Uuid → Db → Db
resize id capacity actor db = record db {
  sections = update_where (is_live_section id) (resized_section capacity actor db) db.sections;
}

update_section-ok :
    (faults : Faults) (id : Uuid) (capacity : ℕ) (actor : Option Uuid) (w : World) {w' : World}
    {row : Section}
    → update_section faults id capacity actor w ≡ (ok row, w')
    → ((s : Section) × (find_section id w.db ≡ some s)) × (w'.db ≡ resize id capacity actor w.db)
unfolding update_section run_query update_row find_section any_of
update_section-ok faults id capacity actor w h =
    elim (Option-cases (find_first (is_section id) w.db.sections)) [
      | inl n ↦ absurd (ground (arith, n, h))
      | inr (s, f) ↦ ((s, f), ground (arith, f, h))
    ]

module _ (id : Uuid) (capacity : ℕ) (actor : Option Uuid) (db : Db) (v : IsSound db) where
  -- The section that is found after the change.
  resized_found :
      (j : Uuid)
      → find_section j (resize id capacity actor db) ≡ (elim (find_section j db) [
        | none ↦ none
        | some r ↦ some (if is_live_section id r then resized_section capacity actor db r else r)
      ])
  unfolding find_section
  resized_found j =
      find_first-updated (is_live_section id) (is_section j) (resized_section capacity actor db)
        db.sections (λ x. refl)

  resize-IsSound :
      active_seats id db.section_enrollments ≤ capacity → IsSound (resize id capacity actor db)
  unfolding find_section
  resize-IsSound le = record {
    distinct = v.distinct;
    bounded = v.bounded;
    keys = v.keys;
    seats = λ j t f. elim (Option-cases (find_first (is_section j) db.sections)) [
      | inl n ↦ absurd (ground (arith, n, f, resized_found j))
      | inr (r, g) ↦
          let held = v.seats j r g in
          let is = find_first-holds (is_section j) db.sections g in
          elim (Bool-cases (is_live_section id r)) [
            | inl e ↦
                let same : j ≡ id = ground (arith, e, is) in
                let to : t.capacity ≡ capacity = ground (arith, f, g, e, resized_found j) in
                subst (λ n. active_seats j db.section_enrollments ≤ n) (sym to)
                  (subst (λ n. active_seats n db.section_enrollments ≤ capacity) (sym same) le)
            | inr e ↦
                let to : t ≡ r = ground (arith, f, g, e, resized_found j) in
                subst (λ (u : Section). active_seats j db.section_enrollments ≤ u.capacity) (sym to)
                  held
          ]
    ];
  }

  resize-seats :
      (s : Section)
      → find_section id db ≡ some s
      → IsSound (resize id capacity actor db)
      → active_seats id db.section_enrollments ≤ capacity
  unfolding find_section
  resize-seats s f after =
      let is = find_first-holds (is_section id) db.sections {r = s} f in
      after.seats id (resized_section capacity actor db s) (ground (arith, f, resized_found id, is))

-- On sound inscriptions, a change of a section's capacity that goes through, whatever the driver
-- does, keeps them sound exactly where the new capacity holds the seats that are taken.
pub update_section-IsSound :
    (faults : Faults) (id : Uuid) (capacity : ℕ) (actor : Option Uuid) (w : World) {w' : World}
    {row : Section}
    → IsSound w.db
    → update_section faults id capacity actor w ≡ (ok row, w')
    → IsSound w'.db ↔ (active_seats id w.db.section_enrollments ≤ capacity)
update_section-IsSound faults id capacity actor w v h =
    let ((s, f), e) = update_section-ok faults id capacity actor w h in
    (
      (λ after. resize-seats id capacity actor w.db v s f (subst IsSound e after)),
      (λ le. subst IsSound (sym e) (resize-IsSound id capacity actor w.db v le)),
    )
