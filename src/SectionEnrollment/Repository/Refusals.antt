-- ===== src/SectionEnrollment/Repository/Refusals.antt =====
-- backend/internal/sectionenrollment/repository.go: the answer of `EnrollSectionTx` to a caller, by the
-- first rule that is broken.
use infraestructura_y_servic.Base.{
  ◌≡◌, ◌<◌, refl, inl, inr, Bool, true, false, not, ◌||◌, Option, none, some, List, [], ◌∷◌, arith,
  find_first-by_id, Option-cases, if◌then◌else◌, ap, sym, ◌∙◌,
}
use infraestructura_y_servic.Store.{Enrollment}
use infraestructura_y_servic.Driver.{no_faults, ok, err, World, M, ◌>>=◌, ◌>>◌, transaction}
use infraestructura_y_servic.Driver.Laws.{Result-cases, bind-value}
use infraestructura_y_servic.SectionEnrollment.Errors.{
  Error, not_found, section_full, window_closed, translate_pg_error,
}
use infraestructura_y_servic.SectionEnrollment.Queries.{
  SectionRow, section_row, active_seats, find_section, find_key, has_key, insert_section_enrollment,
  revive_section_enrollment,
}
use infraestructura_y_servic.SectionEnrollment.Repository.{
  EnrollSectionParams, pre_check, pre_check_count, reject_full, set_lock_timeout, lock_section,
  lock_key, write, eligibility, enroll_body, window_gate, resolve, program_gate, seat_gate,
  take_seat, classify, locked_section, linked, enroll_section_tx, existing_row,
}
use infraestructura_y_servic.SectionEnrollment.Invariant.{IsSound, row_id}
use infraestructura_y_servic.SectionEnrollment.Repository.Rules.{
  is_full, chosen, by_row, first_broken, error_of, gates, enrollment_refusal, section_refusal,
  refusal, counted,
}

first_broken-rest :
    (rules : List (Bool × Error)) (last : Option Error)
    → first_broken rules last ≡ (elim (first_broken rules none) [ none ↦ last | some e ↦ some e ])
first_broken-rest [] last = refl
first_broken-rest ((true, e) ∷ rules) last = first_broken-rest rules last
first_broken-rest ((false, e) ∷ rules) last = refl

-- A computation goes on where no rule is broken.
gated-told :
    {A B : Type 0} (m : M Error A) (f : A → M Error B) (w : World) (a : A) (last o : Option Error)
    → m w ≡ ((elim o [ none ↦ ok a | some x ↦ err x ]), w)
    → (error_of (f a w).0 ≡ last) × ((f a w).1.metrics ≡ w.metrics)
    → (error_of ((m >>= f) w).0 ≡ (elim o [ none ↦ last | some e ↦ some e ]))
      × (((m >>= f) w).1.metrics ≡ w.metrics)
gated-told m f w a last none e (told, same) = ground (arith, bind-value m f e)
gated-told m f w a last (some x) e told = ground arith

-- A transaction of an answering driver ends as its body does, the tables of an error aside.
transaction_lem :
    {A : Type 0} (body : M Error A) (w : World)
    → (error_of (transaction translate_pg_error none none body w).0 ≡ error_of (body w).0)
      × ((transaction translate_pg_error none none body w).1.metrics ≡ (body w).1.metrics)
transaction_lem body w = elim (Result-cases (body w).0) [
  | inl (a, q) ↦ ground (arith, q)
  | inr (e, q) ↦ ground (arith, q)
]

-- The check before the transaction, and what comes after it.
after_check :
    {A : Type 0} (full : Bool) (m : M Error (Unit {0})) (f : M Error A) (w : World)
    (last : Option Error)
    → m w ≡ (
        if full
        then (err section_full, record w { metrics = counted true w.metrics })
        else (ok tt, w))
    → (full ≡ false → (error_of (f w).0 ≡ last) × ((f w).1.metrics ≡ w.metrics))
    → (error_of ((m >> f) w).0 ≡ first_broken ((not full, section_full) ∷ []) last)
      × (((m >> f) w).1.metrics ≡ counted full w.metrics)
after_check true m f w last e told = ground arith
after_check false m f w last e told = ground (arith, bind-value m (λ _. f) e, told refl)

module _ (p : EnrollSectionParams) (w : World) where
  pre_check-is_full : pre_check no_faults p.section_id w ≡ (
      if is_full p.section_id w.db
      then (err section_full, record w { metrics = counted true w.metrics })
      else (ok tt, w))
  unfolding pre_check pre_check_count reject_full translate_pg_error
  pre_check-is_full = elim (Option-cases (find_section p.section_id w.db)) [
    | inl n ↦ ground (arith, n)
    | inr (s, f) ↦ ground (arith, f)
  ]

  eligibility-none :
      (is_admin : Bool)
      → section_row p.section_id w.db ≡ none
      → eligibility no_faults p is_admin w ≡ (err not_found, w)
  unfolding eligibility set_lock_timeout lock_section locked_section translate_pg_error
  eligibility-none is_admin n = ground (arith, n)

  -- Where the section and the enrollment stand.
  rules_lem :
      (is_admin : Bool) (s : SectionRow) (e : Enrollment)
      → section_row p.section_id w.db ≡ some s
      → chosen is_admin p s w.db ≡ some e
      → eligibility no_faults p is_admin w ≡ (
        (elim (first_broken (gates is_admin p w.db s e) none) [
          | none ↦ ok (s, linked e)
          | some x ↦ err x
        ]),
        w,
      )
  unfolding eligibility set_lock_timeout lock_section locked_section window_gate resolve
      program_gate
  rules_lem true s e found there = ground (arith, found, there)
  rules_lem false s e found there = ground (arith, found, there)

  -- Where the section stands and the enrollment does not.
  rules-none :
      (is_admin : Bool) (s : SectionRow)
      → section_row p.section_id w.db ≡ some s
      → chosen is_admin p s w.db ≡ none
      → eligibility no_faults p is_admin w
        ≡ ((if is_admin || s.window_open then err not_found else err window_closed), w)
  unfolding eligibility set_lock_timeout lock_section locked_section window_gate resolve
      translate_pg_error
  rules-none true s found there = ground (arith, found, there)
  rules-none false s found there = ground (arith, found, there)

  -- Steps 6 to 8, with a seat left.
  take_seat-by_row :
      (is_admin : Bool) (s : SectionRow) (e : Enrollment)
      → IsSound w.db
      → active_seats p.section_id w.db.section_enrollments < s.capacity
      → (error_of (take_seat no_faults p.section_id is_admin (s, linked e) w).0
          ≡ by_row is_admin (find_key e.id p.section_id w.db.section_enrollments))
        × ((take_seat no_faults p.section_id is_admin (s, linked e) w).1.metrics ≡ w.metrics)
  unfolding take_seat lock_key classify existing_row seat_gate write insert_section_enrollment
      revive_section_enrollment find_key
  take_seat-by_row is_admin s e v room =
      elim (Option-cases (find_key e.id p.section_id w.db.section_enrollments)) [
        | inl n ↦ ground (arith, n, room)
        | inr (r, k) ↦
            let mine =
              find_first-by_id row_id (has_key e.id p.section_id) w.db.section_enrollments {r = r}
                v.distinct k in
            ground (arith, k, mine, room)
      ]

  -- The body of the transaction, where the section and the enrollment stand and a seat is left.
  enroll_body_lem :
      (is_admin : Bool) (s : SectionRow) (e : Enrollment)
      → IsSound w.db
      → section_row p.section_id w.db ≡ some s
      → chosen is_admin p s w.db ≡ some e
      → active_seats p.section_id w.db.section_enrollments < s.capacity
      → (error_of (enroll_body no_faults p is_admin w).0
          ≡ first_broken
              (gates is_admin p w.db s e)
              (by_row is_admin (find_key e.id p.section_id w.db.section_enrollments)))
        × ((enroll_body no_faults p is_admin w).1.metrics ≡ w.metrics)
  unfolding enroll_body
  enroll_body_lem is_admin s e v found there room =
      let last = by_row is_admin (find_key e.id p.section_id w.db.section_enrollments) in
      let (told, same) =
        gated-told (eligibility no_faults p is_admin) (take_seat no_faults p.section_id is_admin) w
          (s, linked e) last (first_broken (gates is_admin p w.db s e) none)
          (rules_lem is_admin s e found there) (take_seat-by_row is_admin s e v room) in
      (told ∙ sym (first_broken-rest (gates is_admin p w.db s e) last), same)

  -- The body of the transaction, where a seat is left.
  enroll_body-refusal :
      (is_admin : Bool)
      → IsSound w.db
      → is_full p.section_id w.db ≡ false
      → (error_of (enroll_body no_faults p is_admin w).0
          ≡ section_refusal is_admin p w.db (section_row p.section_id w.db))
        × ((enroll_body no_faults p is_admin w).1.metrics ≡ w.metrics)
  unfolding enroll_body
  enroll_body-refusal is_admin v seats = elim (Option-cases (section_row p.section_id w.db)) [
    | inl n ↦ ground (arith, seats, n, eligibility-none is_admin n)
    | inr (s, found) ↦ elim (Option-cases (chosen is_admin p s w.db)) [
      | inl n ↦ ground (arith, seats, found, n, rules-none is_admin s found n)
      | inr (e, there) ↦
          let (told, same) =
            enroll_body_lem is_admin s e v found there (ground (arith, seats, found)) in
          (
            told
                ∙ sym (
                    ap (section_refusal is_admin p w.db) found
                    ∙ ap
                        (λ (o : Option Enrollment).
                          first_broken ((is_admin || s.window_open, window_closed) ∷ [])
                            (enrollment_refusal is_admin p w.db s o))
                        there),
            same,
          )
    ]
  ]

  -- Where the driver answers and inscriptions are sound, an enrollment is refused exactly where a
  -- rule is broken, with the error of the first one in this order: the section is not full, it
  -- stands, its window is open or the caller an administrator, the enrollment stands (the one that
  -- an administrator names, or the student's in the program for the section's year), it is paid, of
  -- the section's year and in a program with the course, and has no live row of the section but a
  -- withdrawn one that an administrator revives. A section that is full is counted once under the
  -- check before the transaction, and nothing else is counted.
  pub enroll_section_tx-refusal :
      (is_admin : Bool)
      → IsSound w.db
      → (error_of (enroll_section_tx no_faults p is_admin w).0 ≡ refusal is_admin p w.db)
        × ((enroll_section_tx no_faults p is_admin w).1.metrics
            ≡ counted (is_full p.section_id w.db) w.metrics)
  unfolding enroll_section_tx
  enroll_section_tx-refusal is_admin v =
      after_check (is_full p.section_id w.db) (pre_check no_faults p.section_id)
        (transaction translate_pg_error none none (enroll_body no_faults p is_admin)) w
        (section_refusal is_admin p w.db (section_row p.section_id w.db)) pre_check-is_full
        (λ seats.
          let (told, same) = enroll_body-refusal is_admin v seats in
          let (told', same') = transaction_lem (enroll_body no_faults p is_admin) w in
          (told' ∙ told, same' ∙ same))
