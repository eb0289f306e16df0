-- ===== src/SectionEnrollment/Repository/Steps.antt =====
-- What each step of `EnrollSectionTx` has established when it ends well.
use infraestructura_y_servic.Base.{
  ℕ, ◌≡◌, ◌<◌, ◌⊎◌, inl, inr, Bool, true, false, Option, none, some, arith, Option-cases,
}
use infraestructura_y_servic.Store.{Uuid, Enrollment, paid, withdrawn, SectionEnrollment, Db}
use infraestructura_y_servic.Driver.{Faults, Result, ok, World}
use infraestructura_y_servic.Driver.Laws.{keeps_cases}
use infraestructura_y_servic.SectionEnrollment.Errors.{Error}
use infraestructura_y_servic.SectionEnrollment.Queries.{
  SectionRow, section_row, active_seats, find_enrollment, find_enrollment_of, in_program, find_key,
}
use infraestructura_y_servic.SectionEnrollment.Repository.{
  EnrollSectionParams, Linked, linked, set_lock_timeout, lock_section, lock_key, write, eligibility,
  enroll_body, window_gate, resolve, program_gate, existing_row, seat_gate, reject_full,
}

-- Step 4's choice: a live paid enrollment of the section's year.
pub record Resolved (is_admin : Bool) (p : EnrollSectionParams) (row : SectionRow) (l : Linked)
    (db : Db) : Type 0 where
  pub enrollment : Enrollment
  pub is_linked : l ≡ linked enrollment
  pub is_paid : enrollment.status ≡ paid
  pub by_id : is_admin ≡ true → find_enrollment p.enrollment_id db ≡ some enrollment
  pub of_year : is_admin ≡ true → enrollment.year ≡ row.period_year
  pub by_student :
      is_admin ≡ false
      → find_enrollment_of p.student_id p.program_id row.period_year db ≡ some enrollment

-- Step 6's choice, by the live row of the key.
abbrev pub Revival : Bool → Option SectionEnrollment → Option Uuid → Type 0
Revival is_admin found revival =
    ((found ≡ none) × (revival ≡ none))
    ⊎ ((r : SectionEnrollment) × (found ≡ some r)
        × (r.status ≡ withdrawn)
        × (is_admin ≡ true)
        × (revival ≡ some r.id))

module _ (faults : Faults) {w w' : World} where
  set_lock_timeout-ok : set_lock_timeout faults w ≡ (ok tt, w') → w' ≡ w
  unfolding set_lock_timeout
  set_lock_timeout-ok h = ground arith

  lock_section-ok :
      (id : Uuid) {row : SectionRow}
      → lock_section faults id w ≡ (ok row, w')
      → (section_row id w.db ≡ some row) × (w' ≡ w)
  unfolding lock_section
  lock_section-ok id h = ground arith

  window_gate-ok :
      (is_admin : Bool) (row : SectionRow)
      → window_gate is_admin row w ≡ (ok tt, w')
      → ((is_admin ≡ true) ⊎ (row.window_open ≡ true)) × (w' ≡ w)
  unfolding window_gate
  window_gate-ok is_admin row h = ground arith

  seat_gate-ok :
      (id : Uuid) (capacity : ℕ)
      → seat_gate faults id capacity w ≡ (ok tt, w')
      → (active_seats id w.db.section_enrollments < capacity) × (w' ≡ w)
  unfolding seat_gate reject_full
  seat_gate-ok id capacity h = ground arith

  program_gate-ok :
      (l : Linked) (row : SectionRow)
      → program_gate faults l row w ≡ (ok tt, w')
      → (in_program l.program_id row.course_id w.db ≡ true) × (w' ≡ w)
  unfolding program_gate
  program_gate-ok l row h = ground arith

  resolve-ok :
      (is_admin : Bool) (p : EnrollSectionParams) (row : SectionRow) {l : Linked}
      → resolve faults is_admin p row w ≡ (ok l, w')
      → Resolved is_admin p row l w.db × (w' ≡ w)
  unfolding resolve
  resolve-ok true p row h = elim (Option-cases (find_enrollment p.enrollment_id w.db)) [
    | inl e ↦ absurd (ground arith)
    | inr (x, e) ↦ (
      record {
        enrollment = x;
        is_linked = ground arith;
        is_paid = ground arith;
        by_id = ground arith;
        of_year = ground arith;
        by_student = ground arith;
      },
      ground arith,
    )
  ]
  resolve-ok false p row h =
      elim (Option-cases (find_enrollment_of p.student_id p.program_id row.period_year w.db)) [
        | inl e ↦ absurd (ground arith)
        | inr (x, e) ↦ (
          record {
            enrollment = x;
            is_linked = ground arith;
            is_paid = ground arith;
            by_id = ground arith;
            of_year = ground arith;
            by_student = ground arith;
          },
          ground arith,
        )
      ]

  -- Step 6: no live row of the key, or (admin only) a withdrawn one, whose id is returned.
  lock_key-ok :
      (is_admin : Bool) (enrollment section : Uuid) {revival : Option Uuid}
      → lock_key faults is_admin enrollment section w ≡ (ok revival, w')
      → Revival is_admin (find_key enrollment section w.db.section_enrollments) revival × (w' ≡ w)
  unfolding lock_key existing_row
  lock_key-ok is_admin enrollment section h =
      elim (Option-cases (find_key enrollment section w.db.section_enrollments)) [
        | inl e ↦ (inl (e, ground arith), ground arith)
        | inr (r, e) ↦ (inr (r, e, ground arith, ground arith, ground arith), ground arith)
      ]

-- Steps 1 to 5 together.
pub record Eligible (p : EnrollSectionParams) (is_admin : Bool) (db : Db) (section : SectionRow)
    (link : Linked) : Type 0 where
  pub found : section_row p.section_id db ≡ some section
  pub window : (is_admin ≡ true) ⊎ (section.window_open ≡ true)
  pub resolved : Resolved is_admin p section link db
  pub course : in_program link.program_id section.course_id db ≡ true

-- What a transaction body that ends well has checked, and the write that ended it.
pub record Enrolled (faults : Faults) (p : EnrollSectionParams) (is_admin : Bool) (w : World)
    (end : Result Error SectionEnrollment × World) : Type 0 where
  pub section : SectionRow
  pub link : Linked
  pub revival : Option Uuid
  pub eligible : Eligible p is_admin w.db section link
  pub key :
      Revival is_admin (find_key link.enrollment_id p.section_id w.db.section_enrollments) revival
  pub seats : active_seats p.section_id w.db.section_enrollments < section.capacity
  pub written : write faults link.enrollment_id p.section_id revival w ≡ end

module _ (faults : Faults) (p : EnrollSectionParams) (is_admin : Bool) where
  eligibility-ok :
      {w w' : World} {g : SectionRow × Linked}
      → eligibility faults p is_admin w ≡ (ok g, w')
      → Eligible p is_admin w.db g.0 g.1 × (w' ≡ w)
  unfolding eligibility
  eligibility-ok {w} {g = g} h0 =
      elim (keeps_cases (set_lock_timeout faults) w (λ _ v e. set_lock_timeout-ok faults e)) [
        | inr (_, _, x) ↦ absurd (ground arith)
        | inl (_, e1) ↦
            elim (keeps_cases (lock_section faults p.section_id) w
              (λ _ v e. (lock_section-ok faults p.section_id e).1)) [
                | inr (_, _, x) ↦ absurd (ground arith)
                | inl (s, e2) ↦
                    elim (keeps_cases (window_gate is_admin s) w
                      (λ _ v e. (window_gate-ok faults is_admin s e).1)) [
                        | inr (_, _, x) ↦ absurd (ground arith)
                        | inl (_, e3) ↦
                            elim (keeps_cases (resolve faults is_admin p s) w
                              (λ _ v e. (resolve-ok faults is_admin p s e).1)) [
                                | inr (_, _, x) ↦ absurd (ground arith)
                                | inl (l, e4) ↦
                                    elim (keeps_cases (program_gate faults l s) w
                                      (λ _ v e. (program_gate-ok faults l s e).1)) [
                                        | inr (_, _, x) ↦ absurd (ground arith)
                                        | inl (_, e5) ↦
                                            let q0 : g ≡ (s, l) = ground arith in
                                            (
                                              rw q0 (record {
                                                found = (lock_section-ok faults p.section_id e2).0;
                                                window = (window_gate-ok faults is_admin s e3).0;
                                                resolved = (resolve-ok faults is_admin p s e4).0;
                                                course = (program_gate-ok faults l s e5).0;
                                              }),
                                              ground arith,
                                            )
                                      ]
                              ]
                      ]
              ]
      ]

  pub enroll_body-ok :
      {w w' : World} {row : SectionEnrollment}
      → enroll_body faults p is_admin w ≡ (ok row, w')
      → Enrolled faults p is_admin w (ok row, w')
  unfolding enroll_body
  enroll_body-ok {w} h0 =
      elim (keeps_cases (eligibility faults p is_admin) w (λ _ _ e. (eligibility-ok e).1)) [
        | inr (_, _, x) ↦ absurd (ground arith)
        | inl (g, e1) ↦
            elim (keeps_cases (lock_key faults is_admin g.1.enrollment_id p.section_id) w
              (λ _ v e. (lock_key-ok faults is_admin g.1.enrollment_id p.section_id e).1)) [
                | inr (_, _, x) ↦ absurd (ground arith)
                | inl (v, e6) ↦
                    elim (keeps_cases (seat_gate faults p.section_id g.0.capacity) w
                      (λ _ v e. (seat_gate-ok faults p.section_id g.0.capacity e).1)) [
                        | inr (_, _, x) ↦ absurd (ground arith)
                        | inl (_, e7) ↦ record {
                          section = g.0;
                          link = g.1;
                          revival = v;
                          eligible = (eligibility-ok e1).0;
                          key = (lock_key-ok faults is_admin g.1.enrollment_id p.section_id e6).0;
                          seats = (seat_gate-ok faults p.section_id g.0.capacity e7).0;
                          written = ground arith;
                        }
                      ]
              ]
      ]
