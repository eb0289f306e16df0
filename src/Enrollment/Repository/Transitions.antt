-- ===== src/Enrollment/Repository/Transitions.antt =====
-- backend/internal/enrollment/repository.go: payment (pending → paid) and cancellation (pending
-- or paid → cancelled), and creations whose driver answers.
use infraestructura_y_servic.Base.{
  ◌≡◌, ◌⊎◌, inl, inr, refl, Bool, true, false, not, ◌&&◌, Option, none, some, arith, ◌∷◌, List, [],
  ◌==◌, if◌then◌else◌, Option-cases, Bool-cases, find_first, count_if, update_where,
  count-find_none, find_first-holds, IsDistinct, find_first_unique, count_unique,
}
use infraestructura_y_servic.Store.{Uuid, is_null, Enrollment, Db}
use infraestructura_y_servic.Driver.{no_faults, Result, ok, err, World}
use infraestructura_y_servic.Enrollment.Errors.{
  Error, not_found, invalid_transition, translate_pg_error,
}
use infraestructura_y_servic.Enrollment.Queries.{
  can_pay, can_pay_own, paid_at_now, can_cancel, cancelled_at, mark_paid, mark_own_paid, cancel,
  is_pending, is_cancelled, find_live,
}
use infraestructura_y_servic.Enrollment.Repository.{
  mark_enrollment_paid, mark_own_enrollment_paid, cancel_enrollment, wrong_state, wrong_own_state,
  paid_or, unless_cancelled,
}
use infraestructura_y_servic.Enrollment.Repository.Effects.{with_update}

-- An outcome and the tables it leaves, as a function of the live row of the id.
abbrev pub Answer : Type 0 → Type 0
Answer A = Result Error A × Db

abbrev pub row_id : Enrollment → Uuid
row_id e = e.id

abbrev is_live : Uuid → Enrollment → Bool
is_live id e = e.id == id && is_null e.deleted_at

-- What paying, paying one's own, and cancelling should answer for the live row of the id.
abbrev pub payment : Uuid → Option Uuid → Db → Option Enrollment → Answer Enrollment
payment id actor db none = (err not_found, db)
payment id actor db (some e) =
    if is_pending e.status
    then (ok (paid_at_now actor db.now e), with_update (can_pay id) (paid_at_now actor db.now) db)
    else (err invalid_transition, db)

abbrev pub own_payment : Uuid → Uuid → Option Uuid → Db → Option Enrollment → Answer Enrollment
own_payment id student actor db none = (err not_found, db)
own_payment id student actor db (some e) =
    if e.student_id == student
    then (if is_pending e.status
        then (
          ok (paid_at_now actor db.now e),
          with_update (can_pay_own id student) (paid_at_now actor db.now) db,
        )
        else (err invalid_transition, db))
    else (err not_found, db)

abbrev pub cancellation : Uuid → Option Uuid → Db → Option Enrollment → Answer (Unit {0})
cancellation id actor db none = (err not_found, db)
cancellation id actor db (some e) =
    if is_cancelled e.status
    then (err invalid_transition, db)
    else (ok tt, with_update (can_cancel id) (cancelled_at actor db.now) db)

update-none :
    (p : Enrollment → Bool) (f : Enrollment → Enrollment) (xs : List Enrollment)
    → find_first p xs ≡ none
    → update_where p f xs ≡ xs
unfolding update_where find_first
update-none p f [] h = refl
update-none p f (x ∷ xs) h = ground (arith, update-none p f xs)

-- A search for a live row of the id finds what its further test says of that row.
module _ (id : Uuid) (t : Enrollment → Bool) (rows : List Enrollment)
    (d : IsDistinct row_id rows) where
  narrowed :
      (q : Enrollment → Bool)
      → ((x : Enrollment) → q x ≡ (is_live id x && t x))
      → {e : Enrollment} → find_first (is_live id) rows ≡ some e
      → t e ≡ true
      → find_first q rows ≡ some e
  narrowed q is {e} h holds =
      let live = find_first-holds (is_live id) rows h in
      find_first_unique row_id (is_live id) q rows {r = e} d h (ground (arith, is e))
        (λ x qx. ground (arith, is x))

  narrowed_none :
      (q : Enrollment → Bool)
      → ((x : Enrollment) → q x ≡ (is_live id x && t x))
      → ((e : Enrollment) → find_first (is_live id) rows ≡ some e → t e ≡ false)
      → find_first q rows ≡ none
  narrowed_none q is fails = elim (Option-cases (find_first q rows)) [
    | inl h ↦ h
    | inr (r, h) ↦
        let met = find_first-holds q rows h in
        let back =
          find_first_unique row_id q (is_live id) rows {r = r} d h (ground (arith, is r))
            (λ x lx. ground (arith, is r)) in
        absurd (ground (arith, fails r back, is r))
  ]

  -- So the live row of the id is missing, passes the test and is found, or fails it and is not.
  narrowed_cases :
      (q : Enrollment → Bool)
      → ((x : Enrollment) → q x ≡ (is_live id x && t x))
      → ((find_first (is_live id) rows ≡ none) × (find_first q rows ≡ none))
        ⊎ ((e : Enrollment) × (find_first (is_live id) rows ≡ some e)
            × (t e ≡ true)
            × (find_first q rows ≡ some e))
        ⊎ ((e : Enrollment) × (find_first (is_live id) rows ≡ some e)
            × (t e ≡ false)
            × (find_first q rows ≡ none))
  narrowed_cases q is = elim (Option-cases (find_first (is_live id) rows)) [
    | inl h ↦ inl (h, narrowed_none q is (λ e k. absurd (ground arith)))
    | inr (e, h) ↦ elim (Bool-cases (t e)) [
      | inl holds ↦ inr (inl (e, h, holds, narrowed q is h holds))
      | inr fails ↦ inr (inr (e, h, fails, narrowed_none q is (λ e' k. ground arith)))
    ]
  ]

module _ (w : World) (d : IsDistinct row_id w.db.enrollments) (id : Uuid)
    (actor : Option Uuid) where
  -- Where the driver answers and ids are distinct, paying an enrollment answers and leaves the
  -- tables as the live row of the id says: not found without one, paid and returned if it is
  -- pending, and an invalid transition that changes nothing otherwise.
  pub mark_enrollment_paid-payment :
      (
        (mark_enrollment_paid no_faults id actor w).0,
        (mark_enrollment_paid no_faults id actor w).1.db,
      )
      ≡ payment id actor w.db (find_live id w.db)
  unfolding mark_enrollment_paid wrong_state paid_or mark_paid find_live translate_pg_error
  mark_enrollment_paid-payment =
      elim (narrowed_cases id (λ (e : Enrollment). is_pending e.status) w.db.enrollments d
        (can_pay id) (λ x. ground arith)) [
          | inl (h, q) ↦ ground arith
          | inr (inl (e, h, met, q)) ↦ ground arith
          | inr (inr (e, h, unmet, q)) ↦ ground arith
        ]

  -- Where the driver answers and ids are distinct, paying one's own enrollment does the same for a
  -- live row of the student, and answers not found, changing nothing, for a row of another student
  -- just as for no row.
  pub mark_own_enrollment_paid-own_payment :
      (student : Uuid)
      → (
        (mark_own_enrollment_paid no_faults id student actor w).0,
        (mark_own_enrollment_paid no_faults id student actor w).1.db,
      )
        ≡ own_payment id student actor w.db (find_live id w.db)
  unfolding mark_own_enrollment_paid wrong_own_state paid_or mark_own_paid find_live
      translate_pg_error
  mark_own_enrollment_paid-own_payment student =
      elim (narrowed_cases id (λ (e : Enrollment). e.student_id == student && is_pending e.status)
        w.db.enrollments d (can_pay_own id student) (λ x. ground arith)) [
          | inl (h, q) ↦ ground arith
          | inr (inl (e, h, met, q)) ↦ ground arith
          | inr (inr (e, h, unmet, q)) ↦ ground arith
        ]

  untouched :
      find_first (can_cancel id) w.db.enrollments ≡ none
      → (count_if (can_cancel id) w.db.enrollments ≡ 0)
        × (update_where (can_cancel id) (cancelled_at actor w.db.now) w.db.enrollments
            ≡ w.db.enrollments)
  untouched q = (
    count-find_none (can_cancel id) w.db.enrollments q,
    update-none (can_cancel id) (cancelled_at actor w.db.now) w.db.enrollments q,
  )

  -- Where the driver answers and ids are distinct, cancelling answers not found without a live row,
  -- an invalid transition for a cancelled one, and cancels a pending or paid one.
  pub cancel_enrollment-cancellation :
      ((cancel_enrollment no_faults id actor w).0, (cancel_enrollment no_faults id actor w).1.db)
      ≡ cancellation id actor w.db (find_live id w.db)
  unfolding cancel_enrollment unless_cancelled cancel find_live translate_pg_error
  cancel_enrollment-cancellation =
      elim (narrowed_cases id (λ (e : Enrollment). not (is_cancelled e.status)) w.db.enrollments d
        (can_cancel id) (λ x. ground arith)) [
          | inl (h, q) ↦ let (c, u) = untouched q in ground arith
          | inr (inl (e, h, met, q)) ↦
              let live = find_first-holds (is_live id) w.db.enrollments h in
              let c =
                count_unique row_id (can_cancel id) w.db.enrollments {r = e} d q
                  (λ x k. ground arith) in
              ground arith
          | inr (inr (e, h, unmet, q)) ↦ let (c, u) = untouched q in ground arith
        ]
