-- ===== src/Catalog/Offering.antt =====
-- backend/internal/catalog and backend/internal/sectionenrollment: the sections of a catalog whose
-- links hold are offered.
use infraestructura_y_servic.Base.{
  ◌≡◌, inl, inr, refl, subst, String, true, false, Option, none, some, List, [], ◌∷◌, ◌==◌, arith,
  any_of, find_first, find_first-All, find_first-holds, IsFresh, IsDistinct, Bool-cases,
  Option-cases,
}
use infraestructura_y_servic.Base.Joins.{In}
use infraestructura_y_servic.Store.{Uuid, Date, AcademicPeriod, SectionEnrollment, Db}
use infraestructura_y_servic.Driver.{Faults, ok, World}
use infraestructura_y_servic.Access.Interceptors.{Context}
use infraestructura_y_servic.SectionEnrollment.Queries.{is_section, find_section}
use infraestructura_y_servic.SectionEnrollment.Invariant.{IsSound}
use infraestructura_y_servic.SectionEnrollment.Repository.{enroll_section_tx}
use infraestructura_y_servic.SectionEnrollment.Enrollable.{EnrollableRow, enrollable}
use infraestructura_y_servic.SectionEnrollment.Enrollable.Agreement.{own_params}
use infraestructura_y_servic.SectionEnrollment.Enrollable.Completeness.{IsOffered, enrolled-listed}
use infraestructura_y_servic.Catalog.Terms.{is_period}
use infraestructura_y_servic.Catalog.Links.{IsLinked, IsHeld, period_id}
use infraestructura_y_servic.Catalog.History.{Operation, run, stays_on_live}
use infraestructura_y_servic.Catalog.History.Links.{run-IsLinked}

fresh_absent :
    (n : Uuid) (rows : List AcademicPeriod)
    → IsFresh period_id n rows
    → any_of (is_period n) rows ≡ false
unfolding any_of
fresh_absent n [] h = refl
fresh_absent n (x ∷ rows) h = ground (arith, h.0, fresh_absent n rows h.1)

-- Where ids are distinct and a period is live, the one that a search by its id finds is live.
found_live :
    (n : Uuid) (rows : List AcademicPeriod) {p : AcademicPeriod}
    → IsDistinct period_id rows
    → any_of (is_period n) rows ≡ true
    → find_first (λ x. x.id == n) rows ≡ some p
    → p.deleted_at ≡ none
unfolding any_of find_first
found_live n [] d h e = absurd (ground arith)
found_live n (x ∷ rows) {p} d h e = elim (Bool-cases (x.id == n)) [
  | inl here ↦
      let same : x ≡ p = ground (arith, e, here) in
      let none_left : any_of (is_period n) rows ≡ false =
        fresh_absent n rows (subst (λ m. IsFresh period_id m rows) (ground (arith, here)) d.0) in
      elim (Option-cases p.deleted_at) [
        | inl dead ↦ dead
        | inr (t, dead) ↦ absurd (ground (arith, same, dead, none_left, h))
      ]
  | inr later ↦ found_live n rows {p = p} d.1 (ground (arith, h, later)) (ground (arith, e, later))
]

linked-IsOffered : (section : Uuid) (db : Db) → IsLinked db → IsOffered section db
unfolding find_section
linked-IsOffered section db v = record {
  course = λ s f.
      let held = find_first-All (IsHeld db) (is_section section) db.sections v.sections f in
      let live = find_first-holds (is_section section) db.sections f in
      (held (ground (arith, live))).0;
  period = λ s p f g.
      let held = find_first-All (IsHeld db) (is_section section) db.sections v.sections f in
      let live = find_first-holds (is_section section) db.sections f in
      found_live s.academic_period_id db.academic_periods v.distinct (held (ground (arith, live))).1
        g;
}

-- After any calls of the catalog's service that refer new rows to live ones, a section in which a
-- student enrolls, whatever the driver does, was listed for that student and program, where the
-- catalog's links held before and the inscriptions are sound.
pub run-enrolled_listed :
    (parse : String → Option Uuid) (parse_date : String → Option Date)
    (ops : List (Faults × (Context × Operation))) (start : World) (faults : Faults)
    (student section program : Uuid) {w' : World} {row : SectionEnrollment}
    → IsLinked start.db
    → stays_on_live parse parse_date ops start ≡ true
    → IsSound (run parse parse_date ops start).db
    → enroll_section_tx faults
        (own_params student section program)
        false
        (run parse parse_date ops start)
      ≡ (ok row, w')
    → (x : EnrollableRow) × In x (enrollable student none (run parse parse_date ops start).db)
      × (x.section_id ≡ section)
      × (x.program_id ≡ program)
run-enrolled_listed parse parse_date ops start faults student section program v on sound h =
    enrolled-listed faults student section program (run parse parse_date ops start) sound
      (linked-IsOffered section (run parse parse_date ops start).db
        (run-IsLinked parse parse_date ops start v on))
      h
