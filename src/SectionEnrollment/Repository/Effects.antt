-- ===== src/SectionEnrollment/Repository/Effects.antt =====
-- backend/internal/sectionenrollment/repository.go: what the writing methods do to the tables.
use infraestructura_y_servic.Base.{
  suc, ◌≡◌, inl, inr, Bool, none, some, arith, ◌∷◌, ◌==◌, Option-cases, find_first, update_where,
}
use infraestructura_y_servic.Platform.Pgconv.{Numeric}
use infraestructura_y_servic.Store.{Uuid, Status, SectionEnrollment, Db}
use infraestructura_y_servic.Driver.{Faults, ok, err, World}
use infraestructura_y_servic.Driver.Laws.{keeps_cases}
use infraestructura_y_servic.SectionEnrollment.Errors.{Error}
use infraestructura_y_servic.SectionEnrollment.Queries.{
  fresh_row, revived, find_key, insert_section_enrollment, revive_section_enrollment,
  withdraw_section_enrollment, set_section_enrollment_outcome, can_withdraw, withdrawn_at,
  can_settle, settled,
}
use infraestructura_y_servic.SectionEnrollment.Repository.{
  EnrollSectionParams, write, pre_check, reject_full, enroll_section_tx, withdraw_section,
  set_section_enrollment_outcome_tx, outcome_result,
}
use infraestructura_y_servic.SectionEnrollment.Repository.Steps.{Enrolled, enroll_body-ok}

abbrev pub with_row : Uuid → Uuid → Db → Db
with_row enrollment section db = record db {
  section_enrollments = fresh_row enrollment section db ∷ db.section_enrollments;
  next_id = suc db.next_id;
}

abbrev pub with_update :
    (SectionEnrollment → Bool) → (SectionEnrollment → SectionEnrollment) → Db → Db
with_update p f db = record db { section_enrollments = update_where p f db.section_enrollments }

module _ (faults : Faults) (w : World) {w' : World} {row : SectionEnrollment} where
  pub write-ok_none :
      (enrollment section : Uuid)
      → write faults enrollment section none w ≡ (ok row, w')
      → (find_key enrollment section w.db.section_enrollments ≡ none)
        × (row ≡ fresh_row enrollment section w.db)
        × (w'.db ≡ with_row enrollment section w.db)
  unfolding write insert_section_enrollment
  write-ok_none enrollment section h = ground arith

  pub write-ok_some :
      (enrollment section id : Uuid)
      → write faults enrollment section (some id) w ≡ (ok row, w')
      → (r : SectionEnrollment) × (find_first (λ r. r.id == id) w.db.section_enrollments ≡ some r)
        × (row ≡ revived w.db.now r)
        × (w'.db ≡ with_update (λ r. r.id == id) (revived w.db.now) w.db)
  unfolding write revive_section_enrollment
  write-ok_some enrollment section id h =
      elim (Option-cases (find_first (λ r. r.id == id) w.db.section_enrollments)) [
        | inl e ↦ absurd (ground arith)
        | inr (r, e) ↦ (r, e, ground arith, ground arith)
      ]

  -- A withdrawal that ends well changes the one row that was in progress.
  pub withdraw_section-ok :
      (id : Uuid)
      → withdraw_section faults id w ≡ (ok row, w')
      → (r : SectionEnrollment) × (find_first (can_withdraw id) w.db.section_enrollments ≡ some r)
        × (row ≡ withdrawn_at w.db.now r)
        × (w'.db ≡ with_update (can_withdraw id) (withdrawn_at w.db.now) w.db)
  unfolding withdraw_section withdraw_section_enrollment
  withdraw_section-ok id h =
      elim (Option-cases (find_first (can_withdraw id) w.db.section_enrollments)) [
        | inl e ↦ absurd (ground arith)
        | inr (r, e) ↦ (r, e, ground arith, ground arith)
      ]

  pub outcome-ok :
      (id : Uuid) (outcome : Status) (grade : Numeric)
      → set_section_enrollment_outcome_tx faults id outcome grade w ≡ (ok row, w')
      → (r : SectionEnrollment) × (find_first (can_settle id outcome) w.db.section_enrollments
          ≡ some r)
        × (row ≡ settled outcome grade w.db.now r)
        × (w'.db ≡ with_update (can_settle id outcome) (settled outcome grade w.db.now) w.db)
  unfolding set_section_enrollment_outcome_tx set_section_enrollment_outcome outcome_result
  outcome-ok id outcome grade h =
      elim (Option-cases (find_first (can_settle id outcome) w.db.section_enrollments)) [
        | inl e ↦ absurd (ground arith)
        | inr (r, e) ↦ (r, e, ground arith, ground arith)
      ]

module _ (faults : Faults) (w : World) {w' : World} {e : Error} where
  pub withdraw_section-err : (id : Uuid) → withdraw_section faults id w ≡ (err e, w') → w' ≡ w
  unfolding withdraw_section withdraw_section_enrollment
  withdraw_section-err id h = ground arith

  pub outcome-err :
      (id : Uuid) (outcome : Status) (grade : Numeric)
      → set_section_enrollment_outcome_tx faults id outcome grade w ≡ (err e, w')
      → w' ≡ w
  unfolding set_section_enrollment_outcome_tx set_section_enrollment_outcome outcome_result
  outcome-err id outcome grade h = ground arith

module _ (faults : Faults) (w : World) {w' : World} where
  pre_check-ok : (id : Uuid) → pre_check faults id w ≡ (ok tt, w') → w' ≡ w
  unfolding pre_check reject_full
  pre_check-ok id h = ground arith

  pre_check-err : (id : Uuid) {e : Error} → pre_check faults id w ≡ (err e, w') → w'.db ≡ w.db
  unfolding pre_check reject_full
  pre_check-err id h = ground arith

module _ (faults : Faults) (p : EnrollSectionParams) (is_admin : Bool) where
  -- An enrollment that is refused, or that a failing driver call or commit ends, leaves the tables
  -- as they were.
  pub enroll_section_tx-err :
      (w : World) {w' : World} {e : Error}
      → enroll_section_tx faults p is_admin w ≡ (err e, w')
      → w'.db ≡ w.db
  unfolding enroll_section_tx
  enroll_section_tx-err w h =
      elim (keeps_cases (pre_check faults p.section_id) w
        (λ _ _ q. pre_check-ok faults w p.section_id q)) [
          | inr (_, v, q) ↦ ground (arith, pre_check-err faults w p.section_id q)
          | inl (_, q) ↦ ground arith
        ]

  -- An enrollment that went through has passed every gate and written one row.
  pub enroll_section_tx-ok :
      (w : World) {w' : World} {row : SectionEnrollment}
      → enroll_section_tx faults p is_admin w ≡ (ok row, w')
      → Enrolled faults p is_admin w (ok row, w')
  unfolding enroll_section_tx
  enroll_section_tx-ok w h =
      elim (keeps_cases (pre_check faults p.section_id) w
        (λ _ _ q. pre_check-ok faults w p.section_id q)) [
          | inr (_, v, q) ↦ absurd (ground arith)
          | inl (_, q) ↦ enroll_body-ok faults p is_admin (ground arith)
        ]
